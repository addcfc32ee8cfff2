-- ===== src/Reputation/Examples.antt =====
-- A blocked address, pinned and not, with powers that fall by a thousandth a millisecond.
use scout_off_backend.Prelude.{
  String, ℕ, ◌-◌, ◌≡◌, ◌≤◌, refl, true, false, none, some, List, [], ◌∷◌, str_eq, if◌then◌else◌,
  arith,
}
use scout_off_backend.Reputation.{IpReputation, Store, get_score}
use scout_off_backend.Reputation.Histories.{
  Op, points, timer, never_sets, run_all, histories-bounded, histories-pinned,
}

abbrev linear : ℕ → ℕ
linear ms = 1000 - ms

abbrev empty : Store
empty ip = none

abbrev pinned_rep : IpReputation
pinned_rep = record { score = 100; last_seen = 7; pinned_at = some 7; pinned = true }

abbrev seen_rep : IpReputation
seen_rep = record pinned_rep { pinned = false }

abbrev only : IpReputation → Store
only rep ip = if str_eq ip "a" then some rep else none

abbrev busy : List Op
busy = points 8 "a" 90 ∷ points 9 "a" 90 ∷ timer 4000000 ∷ []

never_set : never_sets "a" busy ≡ true
unfolding never_sets
never_set = refl

none_scored : (ip : String) → get_score ip empty ≤ 100
none_scored ip = omega arith

busy_bounded : get_score "a" (run_all 1000 linear busy empty) ≤ 100
busy_bounded =
    histories-bounded 1000 linear (omega arith) (λ ms. omega arith) busy empty none_scored "a"

busy_pinned : run_all 1000 linear busy (only pinned_rep) "a" ≡ some pinned_rep
busy_pinned = histories-pinned 1000 linear busy (only pinned_rep) "a" pinned_rep refl refl never_set
