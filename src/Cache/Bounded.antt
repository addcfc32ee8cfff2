-- ===== src/Cache/Bounded.antt =====
-- The size of the store in every history of operations.
use scout_off_backend.Prelude.{
  ℕ, ◌≤◌, ◌≡◌, String, Bool, Option, some, [], ◌∷◌, length, length-append, arith, Bool-cases,
  Option-cases, inl, inr,
}
use scout_off_backend.Cache.{
  Entry, Store, lookup, delete, append, touch, is_expired, get, has, set, del, delete_by_prefix,
  new_entry,
}
use scout_off_backend.Cache.Entries.{
  length-delete, length-delete_found, length-evict_if_needed, length-delete_by_prefix,
}

module _ {A : Type 0} (max : ℕ) where
  -- Any sequence of operations, each at its own time.
  pub data Reach : Store A → Type 0 where
    empty : Reach []
    got : {store : Store A} (now : ℕ) (key : String) → Reach store → Reach (get now key store).1
    tested : {store : Store A} (now : ℕ) (key : String) → Reach store → Reach (has now key store).1
    put :
        {store : Store A} (now : ℕ) (key : String) (value : A) (ttl_ms : Option ℕ)
        → Reach store
        → Reach (set max now key value ttl_ms store)
    removed : {store : Store A} (key : String) → Reach store → Reach (del key store)
    cleared :
        {store : Store A} (starts_with : String → Bool)
        → Reach store
        → Reach (delete_by_prefix starts_with store)

  length-touch :
      (key : String) (e : Entry A) (store : Store A)
      → lookup key store ≡ some e
      → length (touch key e store) ≤ length store
  length-touch key e store found = omega (
    arith,
    length-delete_found key e store found,
    length-append {0} (delete key store) ((key, e) ∷ []),
  )

  pub length-get :
      (now : ℕ) (key : String) (store : Store A) → length (get now key store).1 ≤ length store
  unfolding get
  length-get now key store = elim (Option-cases (lookup key store)) [
    | inl gone ↦ rw gone (omega arith)
    | inr (e, found) ↦ elim (Bool-cases (is_expired now e)) [
      | inl over ↦ rw found (rw over (length-delete key store))
      | inr live ↦ rw found (rw live (length-touch key e store found))
    ]
  ]

  pub length-has :
      (now : ℕ) (key : String) (store : Store A) → length (has now key store).1 ≤ length store
  unfolding has
  length-has now key store = elim (Option-cases (lookup key store)) [
    | inl gone ↦ rw gone (omega arith)
    | inr (e, found) ↦ elim (Bool-cases (is_expired now e)) [
      | inl over ↦ rw found (rw over (length-delete key store))
      | inr live ↦ rw found (rw live (length-touch key e store found))
    ]
  ]

  length-set :
      (now : ℕ) (key : String) (value : A) (ttl_ms : Option ℕ) (store : Store A)
      → length store ≤ max
      → length (set max now key value ttl_ms store) ≤ max
  unfolding set
  length-set now key value ttl_ms store h =
      let e = new_entry now value ttl_ms in
      length-evict_if_needed max (append key e (delete key store)) (
        omega
          (arith, h, length-delete key store, length-append {0} (delete key store) ((key, e) ∷ [])))

  -- In every history of operations that begins with an empty cache, it holds at most `max` entries.
  pub Reach_bounded : {store : Store A} → Reach store → length store ≤ max
  Reach_bounded empty = omega arith
  Reach_bounded (got {store} now key r) = omega (arith, Reach_bounded r, length-get now key store)
  Reach_bounded (tested {store} now key r) =
      omega (arith, Reach_bounded r, length-has now key store)
  Reach_bounded (put {store} now key value ttl_ms r) =
      length-set now key value ttl_ms store (Reach_bounded r)
  Reach_bounded (removed {store} key r) = omega (arith, Reach_bounded r, length-delete key store)
  Reach_bounded (cleared {store} starts_with r) =
      omega (arith, Reach_bounded r, length-delete_by_prefix starts_with store)
