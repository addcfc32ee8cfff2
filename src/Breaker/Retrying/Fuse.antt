-- ===== src/Breaker/Retrying/Fuse.antt =====
-- When the retrying breaker opens and lets calls through again.
use scout_off_backend.Prelude.{ℕ, ◌+◌, ◌≤◌, ◌<◌, ◌≡◌, ◌↔◌, Option, arith}
use scout_off_backend.Breaker.Retrying.{
  opened, RetryingCircuitBreaker, Attempt, thrown, rejected, done, execute,
}

module _ {A : Type 0} (now later : ℕ) (jitter : ℕ → ℕ) (fn : ℕ → Attempt A)
    (b : RetryingCircuitBreaker) where
  -- A call is rejected exactly if the breaker is open and its next attempt is still to come.
  pub execute-rejects_iff :
      ((execute now later jitter fn b).1 ≡ rejected)
      ↔ ((b.state ≡ opened) × (now < b.next_attempt_at))
  unfolding execute
  execute-rejects_iff = ground arith

  -- If a call fails after its retries and that failure reaches the threshold, then every later call
  -- that begins before the end of the call plus the reset timeout is rejected, and leaves the
  -- breaker as it is.
  pub execute-trips :
      (status : Option ℕ) (at end : ℕ) (jitter' : ℕ → ℕ) (fn' : ℕ → Attempt A)
      → (execute now later jitter fn b).1 ≡ done (thrown status)
      → b.config.failure_threshold ≤ b.failure_count + 1
      → at < later + b.config.reset_timeout_ms
      → execute at end jitter' fn' (execute now later jitter fn b).0
        ≡ ((execute now later jitter fn b).0, rejected)
  unfolding execute
  execute-trips status at end jitter' fn' h t e = ground arith
