-- ===== src/Webhooks/Post.antt =====
-- `postWebhookWithRetry` and the signature header of src/services/webhooks.ts. The answer of each
-- attempt, the random part of each wait and the parsers of numbers are arguments; spans are left out.
pub mod Attempts
use scout_off_backend.Prelude.{
  ℕ, zero, suc, ◌+◌, ◌-◌, ◌*◌, ◌^◌, min, String, Bool, not, ◌&&◌, ◌||◌, Option, none, some, List,
  [], ◌∷◌, ◌++◌, ◌==◌, ltb, leb, if◌then◌else◌,
}

-- A fetch of an attempt: a response with its status and its `retry-after` in milliseconds, if it has
-- one that can be read; a rejected fetch; an aborted one.
pub data Fetch : Type 0 where
  response : ℕ → Option ℕ → Fetch
  rejected : String → Fetch
  timed_out : Fetch

pub data PostError : Type 0 where
  failed_with_status : ℕ → PostError
  network : String → PostError
  timeout : PostError

-- `response.ok`
abbrev is_ok : ℕ → Bool
is_ok status = leb 200 status && ltb status 300

-- The error of an attempt; none is a delivery.
abbrev pub error_of : Fetch → Option PostError
error_of (response status after) = if is_ok status then none else some (failed_with_status status)
error_of (rejected message) = some (network message)
error_of timed_out = some timeout

-- `retryAfterMs`
abbrev pub retry_after_of : Fetch → Option ℕ
retry_after_of (response status after) =
    if not (is_ok status) && (status == 429 || status == 503)
    then elim after [ none ↦ none | some ms ↦ some (min ms 2147483647) ]
    else none
retry_after_of (rejected message) = none
retry_after_of timed_out = none

pub record RetryOptions : Type 0 where
  pub retries : ℕ
  pub base_delay_ms : ℕ
  pub max_delay_ms : ℕ

abbrev pub backoff_cap_ms : RetryOptions → ℕ → ℕ
backoff_cap_ms o attempt = min (o.base_delay_ms * 2 ^ (attempt - 1)) o.max_delay_ms

-- The wait after an attempt; `jitter cap` is `Math.floor(Math.random() * (cap + 1))`.
abbrev pub delay_ms : RetryOptions → (ℕ → ℕ → ℕ) → ℕ → Option ℕ → ℕ
delay_ms o jitter attempt none = jitter attempt (backoff_cap_ms o attempt)
delay_ms o jitter attempt (some ms) = ms

-- What a post leaves: none for a delivery, or its last error, which JavaScript throws as `undefined`
-- when no attempt was made; the attempts made; the waits between them.
pub record Posted : Type 0 where
  pub thrown : Option (Option PostError)
  pub attempts : ℕ
  pub waits : List ℕ

-- The loop from an attempt on, `left` attempts before its end.
unfoldable pub post_loop :
    RetryOptions → (ℕ → Fetch) → (ℕ → ℕ → ℕ) → ℕ → ℕ → Option PostError → List ℕ → Posted
post_loop o answers jitter zero attempt last waits = record {
  thrown = some last;
  attempts = attempt - 1;
  waits = waits;
}
post_loop o answers jitter (suc left) attempt last waits = elim (error_of (answers attempt)) [
  | none ↦ record { thrown = none; attempts = attempt; waits = waits }
  | some error ↦
      if ltb attempt o.retries
      then post_loop o answers jitter left (attempt + 1) (some error)
          (waits ++ delay_ms o jitter attempt (retry_after_of (answers attempt)) ∷ [])
      else post_loop o answers jitter left (attempt + 1) (some error) waits
]

unfoldable pub post_webhook_with_retry : RetryOptions → (ℕ → Fetch) → (ℕ → ℕ → ℕ) → Posted
unfolding post_loop
post_webhook_with_retry o answers jitter = post_loop o answers jitter o.retries 1 none []

-- `buildSignatureHeader`: the digests of `v1` in order. `expires_at` is a number of milliseconds, or
-- none for null and for NaN, which are both false.
unfoldable pub build_signature_header :
    (String → String) → ℕ → String → Option String → Option ℕ → List String
build_signature_header hmac now current none expires_at = hmac current ∷ []
build_signature_header hmac now current (some previous) none = hmac current ∷ hmac previous ∷ []
build_signature_header hmac now current (some previous) (some at) =
    if ltb 0 at && ltb at now then hmac current ∷ [] else hmac current ∷ hmac previous ∷ []
