-- ===== src/Breaker/Plain/Examples.antt =====
-- Tests of the plain breaker, and its theorems at concrete inputs.
use scout_off_backend.Prelude.{◌≡◌, refl, true, [], ◌∷◌, some, ◌↔◌, ◌<◌, ◌+◌}
use scout_off_backend.Breaker.Plain.{
  CircuitBreaker, closed, opened, init, execute, rejected, settle,
}
use scout_off_backend.Breaker.Plain.Opening.{fail_run, execute-rejected_iff}

abbrev fresh : CircuitBreaker
fresh = init 2 100

-- Opened at 20 by two failures.
abbrev tripped : CircuitBreaker
tripped = record {
  state = opened;
  failures = 2;
  last_opened_at = some 20;
  failure_threshold = 2;
  reset_timeout_ms = 100;
  changes = (closed, opened) ∷ [];
}

fail_run-tripped : fail_run (10 ∷ 20 ∷ []) fresh ≡ tripped
unfolding fail_run settle
fail_run-tripped = refl

recovery : (execute 120 130 true tripped).0.state ≡ closed
unfolding execute
recovery = refl

execute-rejected_iff_example : ((execute 119 130 true tripped).1 ≡ rejected) ↔ (119 < 20 + 100)
execute-rejected_iff_example = execute-rejected_iff tripped 20 119 130 true refl refl
