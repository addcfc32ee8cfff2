-- ===== src/Cache/Recency.antt =====
-- What stays in the cache: the entry set last, and the entry read last.
use scout_off_backend.Prelude.{
  ℕ, ◌<◌, ◌≡◌, ◌≢◌, refl, ap, ◌∙◌, String, false, Option, none, some, [], ◌∷◌, arith, Bool-cases,
  inl, inr, str_eq, eq_iff,
}
use scout_off_backend.Cache.{
  Entry, Store, lookup, delete, append, evict_if_needed, is_expired, is_over, expiry, get, set,
  new_entry,
}
use scout_off_backend.Cache.Entries.{
  lookup-append, lookup-append_other, lookup-delete, lookup-delete_other,
}

module _ {A : Type 0} where
  lookup-tail :
      (key k : String) (d : Entry A) (store : Store A)
      → lookup key ((k, d) ∷ store) ≡ none
      → lookup key store ≡ none
  unfolding lookup
  lookup-tail key k d store h = ground (arith, h)

  -- The last entry is not evicted.
  lookup-evict_last :
      (max : ℕ) (key : String) (e : Entry A) (store : Store A)
      → 0 < max
      → lookup key store ≡ none
      → lookup key (evict_if_needed max (append key e store)) ≡ some e
  unfolding evict_if_needed
  lookup-evict_last max key e [] h absent = ground (arith, h, lookup-append key e [] absent)
  lookup-evict_last max key e ((k, d) ∷ store) h absent = ground (
    arith,
    lookup-append key e ((k, d) ∷ store) absent,
    lookup-append key e store (lookup-tail key k d store absent),
  )

  -- With room for an entry, what was set is read back next, unchanged, at any time at which it has
  -- not expired.
  pub get-set :
      (max now later : ℕ) (key : String) (value : A) (ttl_ms : Option ℕ) (store : Store A)
      → 0 < max
      → is_over later (expiry now ttl_ms) ≡ false
      → (get later key (set max now key value ttl_ms store)).0 ≡ some value
  unfolding get set
  get-set max now later key value ttl_ms store h live =
      let e = new_entry now value ttl_ms in
      rw (lookup-evict_last max key e (delete key store) h (lookup-delete key store)) (rw live refl)

  -- The last entry but one is not evicted.
  lookup-evict_before :
      (max : ℕ) (key j : String) (e d : Entry A) (store : Store A)
      → 1 < max
      → key ≢ j
      → lookup key store ≡ none
      → lookup key (evict_if_needed max (append j d (append key e store))) ≡ some e
  unfolding evict_if_needed
  lookup-evict_before max key j e d [] h n absent =
      ground
        (arith, h, lookup-append_other j key d (append key e []) n, lookup-append key e [] absent)
  lookup-evict_before max key j e d ((k, c) ∷ store) h n absent = ground (
    arith,
    lookup-append_other j key d (append key e ((k, c) ∷ store)) n,
    lookup-append key e ((k, c) ∷ store) absent,
    lookup-append_other j key d (append key e store) n,
    lookup-append key e store (lookup-tail key k c store absent),
  )

  delete-append_other :
      (key j : String) (e : Entry A) (store : Store A)
      → key ≢ j
      → delete j (append key e store) ≡ append key e (delete j store)
  unfolding delete
  delete-append_other key j e [] n = ground (arith, eq_iff key j, n)
  delete-append_other key j e ((k, d) ∷ store) n = elim (Bool-cases (str_eq k j)) [
    | inl hit ↦ rw hit (delete-append_other key j e store n)
    | inr miss ↦ rw miss (ap (λ rest. (k, d) ∷ rest) (delete-append_other key j e store n))
  ]

  -- With room for two entries, an entry that has just been read stays when another key is set next.
  pub lookup-set_recent :
      (max now later : ℕ) (key other : String) (value : A) (ttl_ms : Option ℕ) (e : Entry A)
      (store : Store A)
      → 1 < max
      → key ≢ other
      → lookup key store ≡ some e
      → is_expired now e ≡ false
      → lookup key (set max later other value ttl_ms (get now key store).1) ≡ some e
  unfolding get set
  lookup-set_recent max now later key other value ttl_ms e store h n found live =
      let d = new_entry later value ttl_ms in
      let rest = delete key store in
      let absent : lookup key (delete other rest) ≡ none =
        lookup-delete_other other key rest n ∙ lookup-delete key store in
      rw found (
        rw live (
          rw (delete-append_other key other e rest n)
            (lookup-evict_before max key other e d (delete other rest) h n absent)))
