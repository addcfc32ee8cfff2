-- ===== src/Cache/Entries.antt =====
-- Looking up keys, and counting entries, after each change of the store.
use scout_off_backend.Prelude.{
  ℕ, ◌+◌, ◌≤◌, ◌<◌, ◌≡◌, ◌≢◌, refl, String, Bool, none, some, [], ◌∷◌, length, eq_iff, eq_refl,
  arith,
}
use scout_off_backend.Cache.{
  Entry, Store, lookup, delete, append, evict_if_needed, delete_by_prefix,
}

module _ {A : Type 0} where
  pub lookup-append :
      (key : String) (e : Entry A) (store : Store A)
      → lookup key store ≡ none
      → lookup key (append key e store) ≡ some e
  unfolding lookup
  lookup-append key e [] h = ground (arith, eq_refl key)
  lookup-append key e ((k, d) ∷ store) h = ground (arith, h, lookup-append key e store)

  pub lookup-append_other :
      (key j : String) (e : Entry A) (store : Store A)
      → j ≢ key
      → lookup j (append key e store) ≡ lookup j store
  unfolding lookup
  lookup-append_other key j e [] n = ground (arith, eq_iff key j, n)
  lookup-append_other key j e ((k, d) ∷ store) n =
      ground (arith, lookup-append_other key j e store n)

  pub lookup-delete : (key : String) (store : Store A) → lookup key (delete key store) ≡ none
  unfolding lookup delete
  lookup-delete key [] = refl
  lookup-delete key ((k, d) ∷ store) = ground (arith, lookup-delete key store)

  pub lookup-delete_other :
      (key j : String) (store : Store A) → j ≢ key → lookup j (delete key store) ≡ lookup j store
  unfolding lookup delete
  lookup-delete_other key j [] n = refl
  lookup-delete_other key j ((k, d) ∷ store) n =
      ground (arith, eq_iff k key, eq_iff k j, n, lookup-delete_other key j store n)

  pub length-delete : (key : String) (store : Store A) → length (delete key store) ≤ length store
  unfolding delete
  length-delete key [] = omega arith
  length-delete key ((k, d) ∷ store) = ground (arith, length-delete key store)

  -- Deleting a key that is there makes the store shorter.
  pub length-delete_found :
      (key : String) (e : Entry A) (store : Store A)
      → lookup key store ≡ some e
      → length (delete key store) < length store
  unfolding lookup delete
  length-delete_found key e [] h = ground (arith, h)
  length-delete_found key e ((k, d) ∷ store) h =
      ground (arith, h, length-delete key store, length-delete_found key e store)

  pub length-delete_by_prefix :
      (starts_with : String → Bool) (store : Store A)
      → length (delete_by_prefix starts_with store) ≤ length store
  unfolding delete_by_prefix
  length-delete_by_prefix starts_with [] = omega arith
  length-delete_by_prefix starts_with ((k, d) ∷ store) =
      ground (arith, length-delete_by_prefix starts_with store)

  pub length-evict_if_needed :
      (max : ℕ) (store : Store A)
      → length store ≤ max + 1
      → length (evict_if_needed max store) ≤ max
  unfolding evict_if_needed
  length-evict_if_needed max [] h = ground arith
  length-evict_if_needed max (e ∷ store) h = ground (arith, h)
