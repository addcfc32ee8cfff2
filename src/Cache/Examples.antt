-- ===== src/Cache/Examples.antt =====
-- Tests of the cache, and its theorems at caches of one and two entries.
use scout_off_backend.Prelude.{
  ℕ, ◌+◌, refl, List, ◌≡◌, arith, ◌≤◌, ◌≢◌, String, none, some, [], ◌∷◌, length, eq_iff,
}
use scout_off_backend.Cache.{Entry, Store, set, lookup}
use scout_off_backend.Cache.Spec.{
  Op, write, read, test, writes, Represents, store_answers, map_answers,
}
use scout_off_backend.Cache.Refine.{store_answers-refines}
use scout_off_backend.Cache.Bounded.{empty, put, Reach_bounded}

abbrev first : Entry ℕ
first = record { value = 1; expires_at = some 100 }

abbrev one_entry : Store ℕ
one_entry = ("a", first) ∷ []

keys-differ : ◌≢◌ {A = String} "a" "b"
keys-differ e = cc ((eq_iff "a" "b").1 e)

abbrev two_puts : Store ℕ
two_puts = set 1 6 "b" 2 none (set 1 5 "a" 1 (some 10) [])

Reach_bounded_example : length two_puts ≤ 1
Reach_bounded_example =
    Reach_bounded 1 {store = two_puts} (put 6 "b" 2 none (put 5 "a" 1 (some 10) empty))

abbrev history : List (Op ℕ)
history = write 5 "a" 1 (some 10) ∷ read 6 "a" ∷ read 20 "a" ∷ test 21 "b" ∷ []

one_write : length {A = String × Entry ℕ} [] + writes history ≤ 1
unfolding writes
one_write = omega arith

blank : Represents {A = ℕ} [] (λ key. none)
unfolding lookup
blank key = refl

store_answers-refines_example : store_answers 1 history [] ≡ map_answers history (λ key. none)
store_answers-refines_example = store_answers-refines 1 history [] (λ key. none) one_write blank
