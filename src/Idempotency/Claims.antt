-- ===== src/Idempotency/Claims.antt =====
-- Who may own a key, and for how long.
use scout_off_backend.Prelude.{
  ℕ, ◌+◌, ◌≤◌, ◌≡◌, ◌≢◌, ◌↔◌, ◌⊎◌, inl, inr, refl, String, true, false, Option, none, some, arith,
  eq_iff, eq_refl, Bool-cases, List, [], ◌∷◌, if◌then◌else◌, ◌∙◌,
}
use scout_off_backend.Idempotency.{
  IdempotencyRecord, Keys, put, pending_row, claim_row, reclaimable, claim_idempotency_key,
}

pub put_same : (key : String) (o : Option IdempotencyRecord) (t : Keys) → put key o t key ≡ o
unfolding put
put_same key o t = ground (arith, eq_refl key)

pub put_other :
    (key k : String) (o : Option IdempotencyRecord) (t : Keys) → k ≢ key → put key o t k ≡ t k
unfolding put
put_other key k o t n = ground (arith, eq_iff k key, n)

-- A row whose lease still runs is not claimed.
claim_row_held :
    (now lease : ℕ) (fingerprint : Option String) (r : IdempotencyRecord)
    → reclaimable now r ≡ false
    → ((claim_row now lease fingerprint (some r)).0 ≡ false)
claim_row_held now lease fingerprint r held = rw held refl

claim_row_iff :
    (now lease : ℕ) (fingerprint : Option String) (o : Option IdempotencyRecord)
    → ((claim_row now lease fingerprint o).0 ≡ true)
      ↔ ((o ≡ none) ⊎ ((r : IdempotencyRecord) × (o ≡ some r) × (reclaimable now r ≡ true)))
claim_row_iff now lease fingerprint none = (λ e. inl refl, λ h. refl)
claim_row_iff now lease fingerprint (some r) = elim (Bool-cases (reclaimable now r)) [
  | inl over ↦ (λ e. inr (r, refl, over), λ h. rw over refl)
  | inr held ↦ (
    λ e. ground (arith, claim_row_held now lease fingerprint r held, e),
    λ h. elim h [ inl e ↦ cc e | inr (q, e, over) ↦ cc (held, e, over) ],
  )
]

claim_row_won :
    (now lease : ℕ) (fingerprint : Option String) (o : Option IdempotencyRecord)
    → (claim_row now lease fingerprint o).0 ≡ true
    → (claim_row now lease fingerprint o).1 ≡ some (pending_row now lease fingerprint)
claim_row_won now lease fingerprint none e = refl
claim_row_won now lease fingerprint (some r) e = ground (arith, e)

-- A claim succeeds exactly if the key has no row, or a pending one whose lease is over.
pub claim_idempotency_key_iff :
    (now lease : ℕ) (key : String) (fingerprint : Option String) (t : Keys)
    → ((claim_idempotency_key now lease key fingerprint t).0 ≡ true)
      ↔ ((t key ≡ none) ⊎ ((r : IdempotencyRecord) × (t key ≡ some r) × (reclaimable now r ≡ true)))
unfolding claim_idempotency_key
claim_idempotency_key_iff now lease key fingerprint t = claim_row_iff now lease fingerprint (t key)

pub claim_idempotency_key-row :
    (now lease : ℕ) (key : String) (fingerprint : Option String) (t : Keys)
    → (claim_idempotency_key now lease key fingerprint t).0 ≡ true
    → (claim_idempotency_key now lease key fingerprint t).1 key
      ≡ some (pending_row now lease fingerprint)
unfolding claim_idempotency_key
claim_idempotency_key-row now lease key fingerprint t won =
    put_same key _ t ∙ claim_row_won now lease fingerprint (t key) won

-- Requests that claim one key one after the other, each with its time and fingerprint: how many
-- of them own the key.
unfoldable pub owners : ℕ → String → List (ℕ × Option String) → Keys → ℕ
owners lease key [] t = 0
owners lease key ((now, fingerprint) ∷ more) t =
    let c = claim_idempotency_key now lease key fingerprint t in
    let rest = owners lease key more c.1 in if c.0 then rest + 1 else rest

-- Every claim comes at this time or before.
abbrev pub NoneAfter : ℕ → List (ℕ × Option String) → Type 0
NoneAfter last [] = Unit
NoneAfter last ((now, fingerprint) ∷ more) = (now ≤ last) × NoneAfter last more

-- The key is held up to this time.
abbrev pub IsHeld : ℕ → Option IdempotencyRecord → Type 0
IsHeld last o = (r : IdempotencyRecord) × (o ≡ some r) × (r.locked_until ≡ some last)

claim_idempotency_key_held :
    (now lease last : ℕ) (key : String) (fingerprint : Option String) (t : Keys)
    → IsHeld last (t key)
    → now ≤ last
    → ((claim_idempotency_key now lease key fingerprint t).0 ≡ false)
      × ((claim_idempotency_key now lease key fingerprint t).1 key ≡ t key)
unfolding claim_idempotency_key
claim_idempotency_key_held now lease last key fingerprint t (r, found, held) early =
    let lost : reclaimable now r ≡ false = rw held (ground arith) in
    (rw found (rw lost refl), put_same key _ t ∙ rw found (rw lost refl))

owners-held :
    (lease last : ℕ) (key : String) (more : List (ℕ × Option String)) (t : Keys)
    → IsHeld last (t key)
    → NoneAfter last more
    → owners lease key more t ≡ 0
unfolding owners
owners-held lease last key [] t held early = refl
owners-held lease last key ((now, fingerprint) ∷ more) t (r, found, held) (early, rest) =
    let (lost, same) =
      claim_idempotency_key_held now lease last key fingerprint t (r, found, held) early in
    rw lost (owners-held lease last key more _ (r, same ∙ found, held) rest)

-- Of any number of requests that claim a free key before the first one's lease is over, exactly
-- one becomes the owner.
pub owners-one :
    (now lease : ℕ) (key : String) (fingerprint : Option String) (more : List (ℕ × Option String))
    (t : Keys)
    → t key ≡ none
    → NoneAfter (now + lease) more
    → owners lease key ((now, fingerprint) ∷ more) t ≡ 1
unfolding owners
owners-one now lease key fingerprint more t free early =
    let won = (claim_idempotency_key_iff now lease key fingerprint t).1 (inl free) in
    let t' = (claim_idempotency_key now lease key fingerprint t).1 in
    rw won (
      omega (
        arith,
        owners-held lease (now + lease) key more t'
            (
              pending_row now lease fingerprint,
              claim_idempotency_key-row now lease key fingerprint t won,
              refl,
            )
            early,
      ))
