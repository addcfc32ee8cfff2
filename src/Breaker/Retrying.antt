-- ===== src/Breaker/Retrying.antt =====
-- `RetryingCircuitBreaker` of src/utils/circuitBreaker.ts. `Date.now()` is an argument. The
-- callback is a function from the number of the attempt to what it does then, an error is seen
-- through `error?.response?.status`, and the part of a backoff that comes from `Math.random()` is
-- the argument `jitter`, in whole milliseconds. The loop takes fuel; its end by lack of fuel is the
-- `throw new Error('Unreachable')` behind the source's loop.
pub mod Retries
pub mod Fuse
mod Examples
use scout_off_backend.Prelude.{
  ℕ, zero, suc, ◌+◌, ◌*◌, ◌^◌, Bool, true, false, not, ◌||◌, ◌&&◌, Option, none, some, List, [],
  ◌∷◌, ltb, leb, ◌==◌, if◌then◌else◌,
}

pub data BreakerState : Type 0 where
  closed opened half_open : BreakerState

pub record CircuitBreakerConfig : Type 0 where
  pub failure_threshold : ℕ
  pub reset_timeout_ms : ℕ
  pub max_retries : ℕ
  pub base_backoff_ms : ℕ

pub record RetryingCircuitBreaker : Type 0 where
  pub state : BreakerState
  pub failure_count : ℕ
  pub next_attempt_at : ℕ
  pub config : CircuitBreakerConfig

abbrev pub default_config : CircuitBreakerConfig
default_config = record {
  failure_threshold = 3;
  reset_timeout_ms = 10000;
  max_retries = 3;
  base_backoff_ms = 1000;
}

abbrev pub init : CircuitBreakerConfig → RetryingCircuitBreaker
init config = record { state = closed; failure_count = 0; next_attempt_at = 0; config = config }

-- What one call of the callback does: an error has the status of its response, if it has one.
pub data Attempt (A : Type 0) : Type 0 where
  value : A → Attempt A
  error : Option ℕ → Attempt A

unfoldable pub is_retryable : Option ℕ → Bool
is_retryable none = true
is_retryable (some status) =
    if status == 408 || status == 429
    then true
    else if leb 400 status && ltb status 500
    then false
    else true

pub data Retried (A : Type 0) : Type 0 where
  returned : A → Retried A
  thrown : Option ℕ → Retried A
  unreachable : Retried A

-- How the loop ended, and the waits before it did.
pub record Run (A : Type 0) : Type 0 where
  pub outcome : Retried A
  pub sleeps : List ℕ

abbrev pub wait : {A : Type 0} → ℕ → Run A → Run A
wait ms r = record r { sleeps = ms ∷ r.sleeps }

module _ {A : Type 0} (config : CircuitBreakerConfig) (jitter : ℕ → ℕ) (fn : ℕ → Attempt A) where
  -- `attempt` has been incremented where the source computes the backoff.
  abbrev pub backoff : ℕ → ℕ
  backoff attempt = config.base_backoff_ms * 2 ^ attempt + jitter attempt

  unfoldable pub retry_loop : ℕ → ℕ → Run A
  retry_loop zero attempt = record { outcome = unreachable; sleeps = [] }
  retry_loop (suc fuel) attempt =
      let again = wait (backoff attempt) (retry_loop fuel (attempt + 1)) in
      if leb attempt config.max_retries
      then elim (fn attempt) [
        | value a ↦ record { outcome = returned a; sleeps = [] }
        | error status ↦
            if not (is_retryable status) || attempt == config.max_retries
            then record { outcome = thrown status; sleeps = [] }
            else again
      ]
      else record { outcome = unreachable; sleeps = [] }

  unfoldable pub execute_with_retry : Run A
  unfolding retry_loop
  execute_with_retry = retry_loop (config.max_retries + 1) 0

unfoldable pub on_success : RetryingCircuitBreaker → RetryingCircuitBreaker
on_success b = record b { state = closed; failure_count = 0 }

unfoldable pub on_failure : ℕ → RetryingCircuitBreaker → RetryingCircuitBreaker
on_failure now b =
    if leb b.config.failure_threshold (b.failure_count + 1)
    then record b {
      state = opened;
      failure_count = b.failure_count + 1;
      next_attempt_at = now + b.config.reset_timeout_ms;
    }
    else record b { failure_count = b.failure_count + 1 }

-- `execute` up to `executeWithRetry`; false is the thrown `CircuitBreakerError`.
unfoldable pub admit : ℕ → RetryingCircuitBreaker → RetryingCircuitBreaker × Bool
admit now b = elim b.state [
  | opened ↦
      if leb b.next_attempt_at now then (record b { state = half_open }, true) else (b, false)
  | _ ↦ (b, true)
]

pub data Answer (A : Type 0) : Type 0 where
  rejected : Answer A
  done : Retried A → Answer A

-- The end of `execute`, from what `executeWithRetry` did: the promise fails if that threw.
abbrev pub settle : {A : Type 0} → Retried A → ℕ → RetryingCircuitBreaker → RetryingCircuitBreaker
settle (returned a) now b = on_success b
settle (thrown s) now b = on_failure now b
settle unreachable now b = on_failure now b

-- A whole `execute` with nothing in between; the retries end at `later`.
unfoldable pub execute :
    {A : Type 0}
    → ℕ
    → ℕ
    → (ℕ → ℕ)
    → (ℕ → Attempt A)
    → RetryingCircuitBreaker
    → RetryingCircuitBreaker × Answer A
unfolding admit on_success on_failure
execute now later jitter fn b =
    let (b', admitted) = admit now b in
    let run = execute_with_retry b.config jitter fn in
    if admitted then (settle run.outcome later b', done run.outcome) else (b', rejected)
