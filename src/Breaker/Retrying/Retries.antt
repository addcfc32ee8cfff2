-- ===== src/Breaker/Retrying/Retries.antt =====
-- Which attempt decides a retried call.
use scout_off_backend.Prelude.{
  ℕ, zero, suc, ◌+◌, ◌≤◌, ◌<◌, ◌≡◌, ◌≢◌, refl, ap, true, Bool, not, ◌||◌, arith, length, ◌==◌, [],
}
use scout_off_backend.Breaker.Retrying.{
  CircuitBreakerConfig, Attempt, value, error, is_retryable, Retried, returned, thrown, unreachable,
  wait, backoff, retry_loop, execute_with_retry,
}

module _ {A : Type 0} where
  -- An attempt after which another one is made, unless it is the last.
  abbrev pub IsTransient : Attempt A → Type 0
  IsTransient (value a) = ⊥
  IsTransient (error status) = is_retryable status ≡ true

  abbrev pub ends_call : Attempt A → Bool
  ends_call (value a) = true
  ends_call (error status) = not (is_retryable status)

  abbrev pub result : Attempt A → Retried A
  result (value a) = returned a
  result (error status) = thrown status

-- One round of the loop, by what the attempt does.
module _ {A : Type 0} (config : CircuitBreakerConfig) (jitter : ℕ → ℕ) (fn : ℕ → Attempt A) where
  loop-stop :
      (fuel attempt : ℕ) (a : Attempt A)
      → fn attempt ≡ a
      → attempt ≤ config.max_retries
      → (ends_call a || attempt == config.max_retries) ≡ true
      → retry_loop config jitter fn (suc fuel) attempt ≡ record { outcome = result a; sleeps = [] }
  unfolding retry_loop
  loop-stop fuel attempt (value a) e h d = ground arith
  loop-stop fuel attempt (error s) e h d = ground arith

  loop-retry :
      (fuel attempt : ℕ) (a : Attempt A)
      → fn attempt ≡ a
      → attempt < config.max_retries
      → IsTransient a
      → retry_loop config jitter fn (suc fuel) attempt
        ≡ wait (backoff config jitter fn attempt) (retry_loop config jitter fn fuel (attempt + 1))
  unfolding retry_loop
  loop-retry fuel attempt (value a) e h d = absurd d
  loop-retry fuel attempt (error s) e h d = ground arith

  loop-decides :
      (k fuel attempt last : ℕ)
      → attempt + k ≡ last
      → last ≤ config.max_retries
      → k < fuel
      → ((j : ℕ) → attempt ≤ j → j < last → IsTransient (fn j))
      → (ends_call (fn last) || last == config.max_retries) ≡ true
      → ((retry_loop config jitter fn fuel attempt).outcome ≡ result (fn last))
        × (length (retry_loop config jitter fn fuel attempt).sleeps ≡ k)
  loop-decides k zero attempt last e m f t d = absurd (omega arith)
  loop-decides zero (suc fuel) attempt last e m f t d =
      let same : attempt ≡ last = omega arith in
      rw (← same, loop-stop fuel attempt (fn attempt) refl (omega arith) (rw (← same) at d))
        (refl, refl)
  loop-decides (suc k) (suc fuel) attempt last e m f t d =
      let (out, count) =
        loop-decides k fuel (attempt + 1) last (omega arith) m (omega arith)
          (λ j p q. t j (omega arith) q) d in
      rw
        (loop-retry fuel attempt (fn attempt) refl (omega arith)
          (t attempt (omega arith) (omega arith)))
        (out, ap suc count)

  -- If every attempt before number `last` fails with an error worth retrying, and attempt `last`
  -- succeeds, fails with another error or is the last that the configuration allows, then the call
  -- ends as that attempt does, after exactly `last` waits.
  pub execute_with_retry-decides :
      (last : ℕ)
      → last ≤ config.max_retries
      → ((j : ℕ) → j < last → IsTransient (fn j))
      → (ends_call (fn last) || last == config.max_retries) ≡ true
      → ((execute_with_retry config jitter fn).outcome ≡ result (fn last))
        × (length (execute_with_retry config jitter fn).sleeps ≡ last)
  unfolding execute_with_retry
  execute_with_retry-decides last m t d =
      loop-decides last (config.max_retries + 1) 0 last (omega arith) m (omega arith)
        (λ j p q. t j q) d

  loop-bounded :
      (fuel attempt : ℕ)
      → attempt ≤ config.max_retries
      → config.max_retries < attempt + fuel
      → ((retry_loop config jitter fn fuel attempt).outcome ≢ unreachable)
        × (attempt + length (retry_loop config jitter fn fuel attempt).sleeps ≤ config.max_retries)
  unfolding retry_loop
  loop-bounded zero attempt m f = absurd (omega arith)
  loop-bounded (suc fuel) attempt m f = ground (arith, loop-bounded fuel (attempt + 1))

  -- Whatever the callback does, the loop ends by one of its returns or throws, never by the error
  -- behind it, and waits at most `maxRetries` times.
  pub execute_with_retry_bounded :
      ((execute_with_retry config jitter fn).outcome ≢ unreachable)
      × (length (execute_with_retry config jitter fn).sleeps ≤ config.max_retries)
  unfolding execute_with_retry
  execute_with_retry_bounded =
      let (out, count) = loop-bounded (config.max_retries + 1) 0 (omega arith) (omega arith) in
      (out, omega arith)
