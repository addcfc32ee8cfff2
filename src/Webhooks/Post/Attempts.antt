-- ===== src/Webhooks/Post/Attempts.antt =====
-- The attempts of a post and the waits between them.
use scout_off_backend.Prelude.{
  ℕ, zero, suc, min, not, ltb→lt, ◌+◌, ◌-◌, ◌≡◌, ◌≤◌, refl, Bool, true, false, Option, none, some,
  List, [], ◌∷◌, ◌++◌, ltb, arith, Bool-cases, Option-cases, inl, inr, length, length-append,
}
use scout_off_backend.Webhooks.Post.{
  Fetch, PostError, RetryOptions, Posted, error_of, delay_ms, retry_after_of, post_loop,
  post_webhook_with_retry,
}

-- The first of `left` attempts from one on that is a delivery.
unfoldable pub first_delivered : (ℕ → Fetch) → ℕ → ℕ → Option ℕ
first_delivered answers zero attempt = none
first_delivered answers (suc left) attempt = elim (error_of (answers attempt)) [
  | none ↦ some attempt
  | some error ↦ first_delivered answers left (attempt + 1)
]

abbrev is_none {ℓ} : {A : Type ℓ} → Option A → Bool
is_none none = true
is_none (some a) = false

abbrev pub attempts_of : Option ℕ → ℕ → ℕ
attempts_of none retries = retries
attempts_of (some attempt) retries = attempt

-- What a post is to leave if `o` is its first delivery.
abbrev pub Follows : ℕ → Option ℕ → Posted → Type 0
Follows retries o p =
    (is_none p.thrown ≡ not (is_none o))
    × (p.attempts ≡ attempts_of o retries)
    × (length p.waits ≡ p.attempts - 1)

post_loop-Follows :
    (o : RetryOptions) (answers : ℕ → Fetch) (jitter : ℕ → ℕ → ℕ) (left attempt : ℕ)
    (last : Option PostError) (waits : List ℕ)
    → 1 ≤ attempt
    → attempt + left ≡ o.retries + 1
    → length waits ≡ min (attempt - 1) (o.retries - 1)
    → Follows o.retries
        (first_delivered answers left attempt)
        (post_loop o answers jitter left attempt last waits)
unfolding post_loop first_delivered
post_loop-Follows o answers jitter zero attempt last waits pos sum waited =
    (refl, omega (arith, sum), omega (arith, sum, waited))
post_loop-Follows o answers jitter (suc left) attempt last waits pos sum waited =
    elim (Option-cases (error_of (answers attempt))) [
      | inl delivered ↦
          rw (delivered, post_loop, first_delivered) (refl, refl, omega (arith, sum, waited))
      | inr (error, found) ↦
          let wait = delay_ms o jitter attempt (retry_after_of (answers attempt)) in
          let longer = length-append {0} waits (wait ∷ []) in
          rw (found, post_loop, first_delivered)
            (elim (Bool-cases (ltb attempt o.retries)) [
              | inl more ↦
                  let lt = ltb→lt attempt o.retries more in
                  rw more (
                    post_loop-Follows o answers jitter left (attempt + 1) (some error)
                      (waits ++ wait ∷ []) (omega arith) (omega (arith, sum))
                      (omega (arith, longer, waited, lt)))
              | inr done ↦ rw done (
                  post_loop-Follows o answers jitter left (attempt + 1) (some error) waits
                    (omega arith) (omega (arith, sum)) (ground (arith, waited, sum, done)))
            ])
    ]

-- A post delivers exactly if one of its attempts is a delivery. It makes the attempts up to the
-- first delivery, or all of its retries, and waits once between each two attempts.
pub post_webhook_with_retry-Follows :
    (o : RetryOptions) (answers : ℕ → Fetch) (jitter : ℕ → ℕ → ℕ)
    → Follows o.retries
        (first_delivered answers o.retries 1)
        (post_webhook_with_retry o answers jitter)
unfolding post_webhook_with_retry
post_webhook_with_retry-Follows o answers jitter =
    post_loop-Follows o answers jitter o.retries 1 none [] (omega arith) (omega arith) (omega arith)
