-- ===== src/DeadLetters/Job.antt =====
-- One sweep of src/services/webhookDeadLetterJob.ts. `at_most` and `before` compare texts as
-- JavaScript does.
pub mod Round
pub mod Sweep
use scout_off_backend.Prelude.{
  ℕ, ◌+◌, String, Bool, false, not, ◌&&◌, Option, none, some, List, [], ◌∷◌, ltb, ◌==◌, str_eq,
  if◌then◌else◌,
}
use scout_off_backend.DeadLetters.Table.{
  WebhookDeadLetter, Table, is_pending, list_webhook_dead_letters,
  mark_webhook_dead_letter_replayed, claim_webhook_dead_letter, release_webhook_dead_letter_claim,
  update_webhook_dead_letter_attempt,
}

abbrev pub max_auto_retries : ℕ
max_auto_retries = 5

-- What the sweep reads of a webhook subscription.
pub record WebhookSubscription : Type 0 where
  pub id : ℕ
  pub url : String
  pub suspended : Bool

abbrev has_id : Option ℕ → ℕ → Bool
has_id none id = false
has_id (some i) id = i == id

abbrev or_else :
    Option WebhookSubscription → Option WebhookSubscription → Option WebhookSubscription
or_else none b = b
or_else (some a) b = some a

unfoldable pub find_by_id : Option ℕ → List WebhookSubscription → Option WebhookSubscription
find_by_id i [] = none
find_by_id i (s ∷ subs) = if has_id i s.id then some s else find_by_id i subs

unfoldable pub find_by_url : String → List WebhookSubscription → Option WebhookSubscription
find_by_url url [] = none
find_by_url url (s ∷ subs) = if str_eq s.url url then some s else find_by_url url subs

abbrev pub target : List WebhookSubscription → WebhookDeadLetter → Option WebhookSubscription
target subs r = or_else (find_by_id r.subscription_id subs) (find_by_url r.url subs)

abbrev pub is_suspended : Option WebhookSubscription → Bool
is_suspended none = false
is_suspended (some s) = s.suspended

-- The times a sweep uses: its clock, `cutoff`, which is ten minutes before, and `stale`, fifteen.
pub record Times : Type 0 where
  pub now : String
  pub cutoff : String
  pub stale : String

module _ (at_most before : String → String → Bool) where
  abbrev pub is_eligible : Times → WebhookDeadLetter → Bool
  is_eligible times r =
      is_pending r.status && (ltb r.attempts max_auto_retries && at_most r.created_at times.cutoff)

  unfoldable pub eligible : Times → List WebhookDeadLetter → List WebhookDeadLetter
  eligible times [] = []
  eligible times (r ∷ rows) =
      let rest = eligible times rows in if is_eligible times r then r ∷ rest else rest

  abbrev is_stale : Times → Option String → Bool
  is_stale times none = false
  is_stale times (some at) = before at times.stale

  -- The loop that recovers stale locks.
  unfoldable pub recover : Times → List WebhookDeadLetter → Table → Table
  recover times [] t = t
  recover times (r ∷ rows) t = recover times rows (
      if not (is_pending r.status) && is_stale times r.locked_at
      then release_webhook_dead_letter_claim r.id t
      else t)

-- The delivery of a claimed row: nothing, or the reason why it failed.
module _ (subs : List WebhookSubscription) (worker now : String)
    (deliver : WebhookDeadLetter → Option String) where
  abbrev pub settle : WebhookDeadLetter → Option String → Table → ℕ × Table
  settle r none t = (1, mark_webhook_dead_letter_replayed now r.id t)
  settle r (some reason) t = (
    0,
    release_webhook_dead_letter_claim r.id
        (update_webhook_dead_letter_attempt r.id (r.attempts + 1) reason t),
  )

  abbrev attempt : Option WebhookDeadLetter × Table → ℕ × Table
  attempt (none, t) = (0, t)
  attempt (some r, t) = settle r (deliver r) t

  -- One round of the loop over the eligible rows: the deliveries that succeeded, 0 or 1.
  unfoldable pub process_row : WebhookDeadLetter → Table → ℕ × Table
  process_row r t =
      if is_suspended (target subs r)
      then (0, t)
      else attempt (claim_webhook_dead_letter r.id worker now t)

  unfoldable pub process_rows : List WebhookDeadLetter → Table → ℕ × Table
  process_rows [] t = (0, t)
  process_rows (r ∷ rows) t =
      let p = process_row r t in let rest = process_rows rows p.1 in (p.0 + rest.0, rest.1)

-- `runDeadLetterRetryJob`: the number of rows that were delivered, and the table.
module _ (at_most before : String → String → Bool) where
  abbrev pub swept : List WebhookDeadLetter → Table → ℕ × Table → ℕ × Table
  swept [] t done = (0, t)
  swept (r ∷ rows) t done = done

  unfoldable pub run_dead_letter_retry_job :
      Times
      → List WebhookSubscription
      → String
      → (WebhookDeadLetter → Option String)
      → Table
      → ℕ × Table
  run_dead_letter_retry_job times subs worker deliver t =
      let candidates = eligible at_most before times (list_webhook_dead_letters 200 0 t) in
      let t' = recover at_most before times candidates t in
      let refreshed = eligible at_most before times (list_webhook_dead_letters 200 0 t') in
      swept candidates t (process_rows subs worker times.now deliver refreshed t')
