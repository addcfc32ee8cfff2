-- ===== src/Cache.antt =====
-- The in-process cache: src/services/inMemoryCacheStore.ts. The `Map` is the list of its entries in
-- the order of insertion, the oldest first, with one entry for a key. Each operation takes the time
-- it reads. The metric of evictions is left out.
pub mod Entries
pub mod Bounded
pub mod Recency
pub mod Spec
pub mod Refine
mod Examples
use scout_off_backend.Prelude.{
  ℕ, ◌+◌, String, Bool, true, false, Option, none, some, List, [], ◌∷◌, ◌++◌, length, ltb, leb,
  str_eq, if◌then◌else◌,
}

pub record Entry (A : Type 0) : Type 0 where
  pub value : A
  pub expires_at : Option ℕ

abbrev pub Store : Type 0 → Type 0
Store A = List (String × Entry A)

-- `resolveMaxSize`; the default is `config.cache.maxEntries`.
abbrev pub resolve_max_size : ℕ → Option ℕ → ℕ
resolve_max_size default none = default
resolve_max_size default (some explicit) = if ltb 0 explicit then explicit else default

abbrev pub is_over : ℕ → Option ℕ → Bool
is_over now none = false
is_over now (some at) = leb at now

abbrev pub expiry : ℕ → Option ℕ → Option ℕ
expiry now none = none
expiry now (some ttl_ms) = some (now + ttl_ms)

module _ {A : Type 0} where
  -- `store.get`
  unfoldable pub lookup : String → Store A → Option (Entry A)
  lookup key [] = none
  lookup key ((k, e) ∷ store) = if str_eq k key then some e else lookup key store

  -- `store.delete`
  unfoldable pub delete : String → Store A → Store A
  delete key [] = []
  delete key ((k, e) ∷ store) =
      let rest = delete key store in if str_eq k key then rest else (k, e) ∷ rest

  abbrev pub is_expired : ℕ → Entry A → Bool
  is_expired now e = is_over now e.expires_at

  -- `evictIfNeeded`: the oldest entry goes.
  abbrev pub drop_oldest : Store A → Store A
  drop_oldest [] = []
  drop_oldest (e ∷ store) = store

  unfoldable pub evict_if_needed : ℕ → Store A → Store A
  evict_if_needed max store = if ltb max (length store) then drop_oldest store else store

  -- An insertion of a key that is not there puts it at the end.
  abbrev pub append : String → Entry A → Store A → Store A
  append key e store = store ++ (key, e) ∷ []

  -- `touch`, with the entry that it finds.
  abbrev pub touch : String → Entry A → Store A → Store A
  touch key e store = append key e (delete key store)

  abbrev got : ℕ → String → Store A → Option (Entry A) → Option A × Store A
  got now key store none = (none, store)
  got now key store (some e) =
      if is_expired now e then (none, delete key store) else (some e.value, touch key e store)

  unfoldable pub get : ℕ → String → Store A → Option A × Store A
  get now key store = got now key store (lookup key store)

  abbrev pub new_entry : ℕ → A → Option ℕ → Entry A
  new_entry now value ttl_ms = record { value = value; expires_at = expiry now ttl_ms }

  unfoldable pub set : ℕ → ℕ → String → A → Option ℕ → Store A → Store A
  set max now key value ttl_ms store =
      evict_if_needed max (append key (new_entry now value ttl_ms) (delete key store))

  abbrev pub del : String → Store A → Store A
  del key store = delete key store

  abbrev had : ℕ → String → Store A → Option (Entry A) → Bool × Store A
  had now key store none = (false, store)
  had now key store (some e) =
      if is_expired now e then (false, delete key store) else (true, touch key e store)

  unfoldable pub has : ℕ → String → Store A → Bool × Store A
  has now key store = had now key store (lookup key store)

  -- `starts_with` is JavaScript's `startsWith` with the prefix.
  unfoldable pub delete_by_prefix : (String → Bool) → Store A → Store A
  delete_by_prefix starts_with [] = []
  delete_by_prefix starts_with ((k, e) ∷ store) =
      let rest = delete_by_prefix starts_with store in if starts_with k then rest else (k, e) ∷ rest
