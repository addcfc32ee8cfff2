-- ===== src/RateLimit/Examples.antt =====
-- Tests of the store and of the lockout, and their theorems at concrete inputs.
use scout_off_backend.Prelude.{◌≡◌, refl, String, true, some, [], ◌∷◌, arith}
use scout_off_backend.RateLimit.{Hits, get, set, bump, increment}
use scout_off_backend.RateLimit.Window.{hit_all, hit_all-window}
use scout_off_backend.RateLimit.Lockout.{
  Settings, record_auth_failure, reset_auth_failures, enforce_auth_lockout, auth_locked,
}
use scout_off_backend.RateLimit.Lockout.Cycle.{failures_at, record_auth_failure-locks}
use scout_off_backend.RateLimit.Lockout.Resets.{failures_at-reset}

-- Locks at the second failure.
abbrev strict : Settings
strict = record { threshold = 2; base_ms = 1000; max_ms = 5000; window_ms = 60000 }

alice-ne : ◌≡◌ {A = String} "alice" "" → ⊥
alice-ne e = cc e

hit_all-window_example :
    get "k" (hit_all (10 ∷ 20 ∷ 15 ∷ []) "k" 100 []) ≡ some (record { count = 3; reset_at = 110 })
unfolding get
hit_all-window_example = hit_all-window 10 (20 ∷ 15 ∷ []) "k" 100 [] tt (omega arith)

-- One failure of alice at 100.
abbrev once : Hits
once = (record_auth_failure strict 100 "alice" []).0

record_auth_failure-locks_example :
    (enforce_auth_lockout true 700 (some "alice") (record_auth_failure strict 200 "alice" once).0).1
    ≡ auth_locked 1
unfolding record_auth_failure get set bump increment
record_auth_failure-locks_example =
    record_auth_failure-locks strict 200 700 "alice" once alice-ne (omega arith) tt

failures_at-reset_example :
    failures_at strict 400 "alice" (reset_auth_failures 300 "alice" once) ≡ 3
unfolding record_auth_failure get set bump increment
failures_at-reset_example =
    failures_at-reset strict 300 400 "alice" once (record { count = 1; reset_at = 60100 }) alice-ne
      refl (omega arith) (omega arith)
