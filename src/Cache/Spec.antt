-- ===== src/Cache/Spec.antt =====
-- The specification of the cache: a map without bound that drops an entry only when it is deleted,
-- or read after its expiry, and the histories of both.
use scout_off_backend.Prelude.{
  ℕ, suc, ◌≡◌, String, Bool, true, not, Option, none, some, List, [], ◌∷◌, str_eq, if◌then◌else◌,
}
use scout_off_backend.Cache.{
  Entry, Store, lookup, is_expired, get, has, set, del, delete_by_prefix, new_entry,
}

-- The operations, with their times.
pub data Op (A : Type 0) : Type 0 where
  read test : ℕ → String → Op A
  write : ℕ → String → A → Option ℕ → Op A
  remove : String → Op A
  clear : (String → Bool) → Op A

-- What an operation answers.
pub data Answer (A : Type 0) : Type 0 where
  value : Option A → Answer A
  there : Bool → Answer A
  nothing : Answer A

abbrev pub Map : Type 0 → Type 0
Map A = String → Option (Entry A)

module _ {A : Type 0} where
  abbrev pub put : String → Option (Entry A) → Map A → Map A
  put key o m k = if str_eq k key then o else m k

  abbrev pub over : ℕ → Option (Entry A) → Bool
  over now none = true
  over now (some e) = is_expired now e

  abbrev pub value_of : ℕ → Option (Entry A) → Option A
  value_of now none = none
  value_of now (some e) = if is_expired now e then none else some e.value

  -- A read leaves the map, or drops the entry that it finds expired.
  abbrev pub after_read : ℕ → String → Map A → Map A
  after_read now key m = if over now (m key) then put key none m else m

  -- The specification of the operations.
  unfoldable pub map_step : Op A → Map A → Answer A × Map A
  map_step (read now key) m = (value (value_of now (m key)), after_read now key m)
  map_step (test now key) m = (there (not (over now (m key))), after_read now key m)
  map_step (write now key v ttl_ms) m = (nothing, put key (some (new_entry now v ttl_ms)) m)
  map_step (remove key) m = (nothing, put key none m)
  map_step (clear starts_with) m = (nothing, λ k. if starts_with k then none else m k)

  unfoldable pub store_step : ℕ → Op A → Store A → Answer A × Store A
  store_step max (read now key) s = (value (get now key s).0, (get now key s).1)
  store_step max (test now key) s = (there (has now key s).0, (has now key s).1)
  store_step max (write now key v ttl_ms) s = (nothing, set max now key v ttl_ms s)
  store_step max (remove key) s = (nothing, del key s)
  store_step max (clear starts_with) s = (nothing, delete_by_prefix starts_with s)

  unfoldable pub map_answers : List (Op A) → Map A → List (Answer A)
  unfolding map_step
  map_answers [] m = []
  map_answers (op ∷ ops) m = (map_step op m).0 ∷ map_answers ops (map_step op m).1

  unfoldable pub store_answers : ℕ → List (Op A) → Store A → List (Answer A)
  unfolding store_step
  store_answers max [] s = []
  store_answers max (op ∷ ops) s =
      (store_step max op s).0 ∷ store_answers max ops (store_step max op s).1

  -- The writes among the operations.
  unfoldable pub writes : List (Op A) → ℕ
  writes [] = 0
  writes (read now key ∷ ops) = writes ops
  writes (test now key ∷ ops) = writes ops
  writes (write now key v ttl_ms ∷ ops) = suc (writes ops)
  writes (remove key ∷ ops) = writes ops
  writes (clear starts_with ∷ ops) = writes ops

  -- The store holds the entries of the map.
  abbrev pub Represents : Store A → Map A → Type 0
  Represents s m = (k : String) → lookup k s ≡ m k
