-- ===== src/Cache/Refine.antt =====
-- The cache answers as its specification as long as it has room.
use scout_off_backend.Prelude.{
  ℕ, suc, ◌+◌, ◌≤◌, ◌≡◌, ◌≢◌, refl, sym, ap, ◌∙◌, String, Bool, false, not, Option, none, some,
  List, [], ◌∷◌, length, length-append, arith, Bool-cases, Option-cases, inl, inr, str_eq, eq_iff,
  ltb, if◌then◌else◌,
}
use mathlib.Core.Path.{ap₂}
use scout_off_backend.Cache.{
  Entry, Store, lookup, delete, append, touch, evict_if_needed, is_expired, get, has, set,
  delete_by_prefix, new_entry,
}
use scout_off_backend.Cache.Entries.{
  lookup-append, lookup-append_other, lookup-delete, lookup-delete_other, length-delete,
  length-delete_by_prefix,
}
use scout_off_backend.Cache.Bounded.{length-get, length-has}
use scout_off_backend.Cache.Spec.{
  Op, read, test, write, remove, clear, value, there, Map, put, over, value_of, after_read,
  map_step, store_step, map_answers, store_answers, writes, Represents,
}

module _ {A : Type 0} where
  lookup-deleted :
      (key k : String) (s : Store A)
      → lookup k (delete key s) ≡ (if str_eq k key then none else lookup k s)
  lookup-deleted key k s = elim (Bool-cases (str_eq k key)) [
    | inl same ↦
        rw same (ap (λ x. lookup x (delete key s)) ((eq_iff k key).0 same) ∙ lookup-delete key s)
    | inr other ↦
        let n : k ≢ key = λ e. cc (sym other ∙ (eq_iff k key).1 e) in
        rw other (lookup-delete_other key k s n)
  ]

  lookup-appended :
      (key k : String) (e : Entry A) (s : Store A)
      → lookup k (append key e (delete key s)) ≡ (if str_eq k key then some e else lookup k s)
  lookup-appended key k e s = elim (Bool-cases (str_eq k key)) [
    | inl same ↦ rw same (
        ap (λ x. lookup x (append key e (delete key s))) ((eq_iff k key).0 same)
        ∙ lookup-append key e (delete key s) (lookup-delete key s))
    | inr other ↦
        let n : k ≢ key = λ e. cc (sym other ∙ (eq_iff k key).1 e) in
        rw other (lookup-append_other key k e (delete key s) n ∙ lookup-delete_other key k s n)
  ]

  lookup-touch :
      (key k : String) (e : Entry A) (s : Store A)
      → lookup key s ≡ some e
      → lookup k (touch key e s) ≡ lookup k s
  lookup-touch key k e s found = lookup-appended key k e s ∙ elim (Bool-cases (str_eq k key)) [
    | inl same ↦ rw same (sym (ap (λ x. lookup x s) ((eq_iff k key).0 same) ∙ found))
    | inr other ↦ rw other refl
  ]

  lookup-cleared :
      (starts_with : String → Bool) (k : String) (s : Store A)
      → lookup k (delete_by_prefix starts_with s) ≡ (if starts_with k then none else lookup k s)
  unfolding lookup delete_by_prefix
  lookup-cleared starts_with k [] = ground arith
  lookup-cleared starts_with k ((j, d) ∷ s) =
      let rest = lookup-cleared starts_with k s in
      elim (Bool-cases (str_eq j k)) [
        | inl same ↦ let e = ap starts_with ((eq_iff j k).0 same) in ground (arith, same, e, rest)
        | inr other ↦ ground (arith, other, rest)
      ]

  -- The store after a read or a test.
  abbrev read_store : ℕ → String → Store A → Option (Entry A) → Store A
  read_store now key s none = s
  read_store now key s (some e) = if is_expired now e then delete key s else touch key e s

  get_lem :
      (now : ℕ) (key : String) (s : Store A)
      → get now key s ≡ (value_of now (lookup key s), read_store now key s (lookup key s))
  unfolding get
  get_lem now key s = elim (Option-cases (lookup key s)) [
    | inl gone ↦ rw gone refl
    | inr (e, found) ↦ rw found (ground arith)
  ]

  has_lem :
      (now : ℕ) (key : String) (s : Store A)
      → has now key s ≡ (not (over now (lookup key s)), read_store now key s (lookup key s))
  unfolding has
  has_lem now key s = elim (Option-cases (lookup key s)) [
    | inl gone ↦ rw gone refl
    | inr (e, found) ↦ rw found (ground arith)
  ]

  read_store-Represents :
      (now : ℕ) (key : String) (s : Store A) (m : Map A)
      → Represents s m
      → Represents (read_store now key s (lookup key s)) (after_read now key m)
  read_store-Represents now key s m rep k = elim (Option-cases (lookup key s)) [
    | inl gone ↦
        rw (gone, sym (rep key) ∙ gone)
          (elim (Bool-cases (str_eq k key)) [
            | inl same ↦ rw same (ap (λ x. lookup x s) ((eq_iff k key).0 same) ∙ gone)
            | inr other ↦ rw other (rep k)
          ])
    | inr (e, found) ↦
        rw (found, sym (rep key) ∙ found)
          (elim (Bool-cases (is_expired now e)) [
            | inl ended ↦
                rw ended
                  (lookup-deleted key k s ∙ ap (λ o. if str_eq k key then none else o) (rep k))
            | inr live ↦ rw live (lookup-touch key k e s found ∙ rep k)
          ])
  ]

  set-Represents :
      (max now : ℕ) (key : String) (v : A) (ttl_ms : Option ℕ) (s : Store A) (m : Map A)
      → suc (length s) ≤ max
      → Represents s m
      → Represents (set max now key v ttl_ms s) (put key (some (new_entry now v ttl_ms)) m)
        × (length (set max now key v ttl_ms s) ≤ suc (length s))
  unfolding set evict_if_needed
  set-Represents max now key v ttl_ms s m room rep =
      let e = new_entry now v ttl_ms in
      let grown = length-append {0} (delete key s) ((key, e) ∷ []) in
      let small : length (append key e (delete key s)) ≤ suc (length s) =
        omega (arith, grown, length-delete key s) in
      let fits : ltb max (length (append key e (delete key s))) ≡ false =
        ground (arith, small, room) in
      rw fits (
        (λ k. lookup-appended key k e s ∙ ap (λ o. if str_eq k key then some e else o) (rep k)),
        small,
      )

  -- A step from a store that represents a map.
  abbrev Agrees : ℕ → Op A → Store A → Map A → Type 0
  Agrees max op s m =
      ((store_step max op s).0 ≡ (map_step op m).0)
      × Represents (store_step max op s).1 (map_step op m).1
      × (length (store_step max op s).1 ≤ length s + writes (op ∷ []))

  step-Agrees :
      (max : ℕ) (op : Op A) (s : Store A) (m : Map A)
      → length s + writes (op ∷ []) ≤ max
      → Represents s m
      → Agrees max op s m
  unfolding store_step map_step writes
  step-Agrees max (read now key) s m room rep =
      let size = length-get max now key s in
      (
        ap (λ x. value x.0) (get_lem now key s) ∙ ap (λ o. value (value_of now o)) (rep key),
        (λ k. ap (λ x. lookup k x.1) (get_lem now key s) ∙ read_store-Represents now key s m rep k),
        omega (arith, size),
      )
  step-Agrees max (test now key) s m room rep =
      let size = length-has max now key s in
      (
        ap (λ x. there x.0) (has_lem now key s) ∙ ap (λ o. there (not (over now o))) (rep key),
        (λ k. ap (λ x. lookup k x.1) (has_lem now key s) ∙ read_store-Represents now key s m rep k),
        omega (arith, size),
      )
  step-Agrees max (write now key v ttl_ms) s m room rep =
      let (kept, size) = set-Represents max now key v ttl_ms s m (omega (arith, room)) rep in
      (refl, kept, omega (arith, size))
  step-Agrees max (remove key) s m room rep = (
    refl,
    (λ k. lookup-deleted key k s ∙ ap (λ o. if str_eq k key then none else o) (rep k)),
    omega (arith, length-delete key s),
  )
  step-Agrees max (clear starts_with) s m room rep = (
    refl,
    (λ k. lookup-cleared starts_with k s ∙ ap (λ o. if starts_with k then none else o) (rep k)),
    omega (arith, length-delete_by_prefix starts_with s),
  )

  writes-cons : (op : Op A) (ops : List (Op A)) → writes (op ∷ ops) ≡ writes (op ∷ []) + writes ops
  unfolding writes
  writes-cons (read now key) ops = omega arith
  writes-cons (test now key) ops = omega arith
  writes-cons (write now key v ttl_ms) ops = omega arith
  writes-cons (remove key) ops = omega arith
  writes-cons (clear starts_with) ops = omega arith

  -- A cache that represents a map and has room for all writes of a history answers each of its
  -- operations as the map does.
  pub store_answers-refines :
      (max : ℕ) (ops : List (Op A)) (s : Store A) (m : Map A)
      → length s + writes ops ≤ max
      → Represents s m
      → store_answers max ops s ≡ map_answers ops m
  unfolding store_answers map_answers
  store_answers-refines max [] s m room rep = refl
  store_answers-refines max (op ∷ ops) s m room rep =
      let count = writes-cons op ops in
      let (same, kept, size) = step-Agrees max op s m (omega (arith, room, count)) rep in
      let rest =
        store_answers-refines max ops (store_step max op s).1 (map_step op m).1
          (omega (arith, room, count, size)) kept in
      ap₂ (λ a l. a ∷ l) same rest
