-- ===== src/Breaker/Retrying/Examples.antt =====
-- Tests of the retrying breaker, and its theorems at concrete inputs.
use scout_off_backend.Prelude.{ℕ, zero, suc, ◌≡◌, refl, some, [], ◌∷◌, ◌<◌, arith}
use scout_off_backend.Breaker.Retrying.{
  RetryingCircuitBreaker, Attempt, value, error, default_config, init, opened, returned, thrown,
  is_retryable, execute_with_retry, execute, done,
}
use scout_off_backend.Breaker.Retrying.Retries.{IsTransient}

-- Unavailable once, then 42.
abbrev flaky : ℕ → Attempt ℕ
flaky zero = error (some 503)
flaky (suc n) = value 42

abbrev broken : ℕ → Attempt ℕ
broken n = error (some 404)

abbrev jitter : ℕ → ℕ
jitter n = 7

abbrev worn : RetryingCircuitBreaker
worn = record (init default_config) { failure_count = 2 }

abbrev tripped : RetryingCircuitBreaker
tripped = record worn { state = opened; failure_count = 3; next_attempt_at = 10500 }

flaky_run :
    execute_with_retry default_config jitter flaky
    ≡ record { outcome = returned 42; sleeps = 1007 ∷ [] }
unfolding execute_with_retry is_retryable
flaky_run = refl

flaky-IsTransient : (j : ℕ) → j < 1 → IsTransient (flaky j)
unfolding is_retryable
flaky-IsTransient zero h = refl
flaky-IsTransient (suc j) h = absurd (omega arith)

broken_run : (execute 400 500 jitter broken worn).1 ≡ done (thrown (some 404))
unfolding execute execute_with_retry is_retryable
broken_run = refl
