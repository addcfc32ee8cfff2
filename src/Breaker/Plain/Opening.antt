-- ===== src/Breaker/Plain/Opening.antt =====
-- When the plain breaker opens, and how long it stays open.
use scout_off_backend.Prelude.{
  ℕ, ◌+◌, ◌≤◌, ◌<◌, ◌≡◌, refl, ◌↔◌, some, true, false, Bool, List, [], ◌∷◌, length, ltb,
  if◌then◌else◌, arith,
}
use scout_off_backend.Breaker.Plain.{
  CircuitState, closed, opened, CircuitBreaker, init, settle, execute, rejected, failed,
}

-- Calls that fail one after the other, at these times.
unfoldable pub fail_run : List ℕ → CircuitBreaker → CircuitBreaker
fail_run [] b = b
fail_run (now ∷ times) b = fail_run times (settle false now b)

abbrev phase : ℕ → ℕ → CircuitState
phase failures threshold = if ltb failures threshold then closed else opened

settle-phase :
    (now : ℕ) (b : CircuitBreaker)
    → b.state ≡ phase b.failures b.failure_threshold
    → ((settle false now b).state ≡ phase (b.failures + 1) b.failure_threshold)
      × ((settle false now b).failures ≡ b.failures + 1)
      × ((settle false now b).failure_threshold ≡ b.failure_threshold)
unfolding settle
settle-phase now b h = ground arith

fail_run-phase :
    (times : List ℕ) (b : CircuitBreaker) (failures threshold : ℕ)
    → b.failures ≡ failures
    → b.failure_threshold ≡ threshold
    → b.state ≡ phase failures threshold
    → (fail_run times b).state ≡ phase (failures + length times) threshold
unfolding fail_run
fail_run-phase [] b failures threshold f t h = ground arith
fail_run-phase (now ∷ times) b failures threshold f t h =
    let (s', f', t') = settle-phase now b (ground arith) in
    let ih =
      fail_run-phase times (settle false now b) (failures + 1) threshold (ground arith)
        (ground arith) (ground arith) in
    ground arith

-- A fresh breaker with a positive threshold is, after any number of consecutive failures, closed
-- if they are fewer than the threshold and open otherwise.
pub fail_run-opens :
    (threshold timeout : ℕ) (times : List ℕ)
    → 0 < threshold
    → (fail_run times (init threshold timeout)).state
      ≡ (if ltb (length times) threshold then closed else opened)
fail_run-opens threshold timeout times h =
    let ih = fail_run-phase times (init threshold timeout) 0 threshold refl refl (ground arith) in
    ground arith

-- A breaker that opened at `t` rejects a call exactly while the call comes before `t` plus the
-- reset timeout.
pub execute-rejected_iff :
    (b : CircuitBreaker) (t now later : ℕ) (result : Bool)
    → b.state ≡ opened
    → b.last_opened_at ≡ some t
    → ((execute now later result b).1 ≡ rejected) ↔ (now < t + b.reset_timeout_ms)
unfolding execute
execute-rejected_iff b t now later true s l = ground arith
execute-rejected_iff b t now later false s l = ground arith

-- If the probe of an open breaker whose timeout is over fails at `later`, then every call before
-- `later` plus the reset timeout is rejected and leaves the breaker as it is.
pub execute-failed_probe :
    (b : CircuitBreaker) (t now later at done : ℕ) (result : Bool)
    → b.state ≡ opened
    → b.last_opened_at ≡ some t
    → t + b.reset_timeout_ms ≤ now
    → at < later + b.reset_timeout_ms
    → ((execute now later false b).1 ≡ failed)
      × (execute at done result (execute now later false b).0
          ≡ ((execute now later false b).0, rejected))
unfolding execute
execute-failed_probe b t now later at done result s l h k = ground arith
