-- ===== src/Webhooks/Health.antt =====
-- The health of a subscription: the statements of src/db/repositories/webhookSubscriptions.ts on its
-- streak of failures and its status.
use scout_off_backend.Prelude.{
  ℕ, ◌+◌, ◌-◌, Bool, true, false, ◌&&◌, Option, none, some, ltb, leb, if◌then◌else◌,
}
use scout_off_backend.Webhooks.{
  WebhookSubscription, WebhookSubscriptionStatus, active, degraded, suspended, SuspendedReason,
  consecutive_failures_of, failing_for, Subscriptions, is_suspended, update, update_row,
  get_webhook_subscription_by_id,
}

abbrev pub unless_suspended :
    WebhookSubscriptionStatus → WebhookSubscriptionStatus → WebhookSubscriptionStatus
unless_suspended s other = if is_suspended s then s else other

abbrev pub succeeded : ℕ → WebhookSubscription → WebhookSubscription
succeeded now r = record r {
  consecutive_failures = 0;
  failing_since = none;
  last_success_at = some now;
  status = unless_suspended r.status active;
}

abbrev pub record_webhook_subscription_success : ℕ → ℕ → Subscriptions → Subscriptions
record_webhook_subscription_success id now t = update id (succeeded now) t

pub record Limits : Type 0 where
  pub max_failures : ℕ
  pub max_span_ms : ℕ
  pub min_failures_for_span : ℕ

abbrev pub or_now : Option ℕ → ℕ → ℕ
or_now none now = now
or_now (some t) now = t

abbrev pub counted : ℕ → WebhookSubscription → WebhookSubscription
counted now r = record r {
  consecutive_failures = r.consecutive_failures + 1;
  failing_since = some (or_now r.failing_since now);
  last_failure_at = some now;
  status = unless_suspended r.status degraded;
}

abbrev pub reason_of : Limits → ℕ → WebhookSubscription → Option SuspendedReason
reason_of l now r =
    let span = now - or_now r.failing_since now in
    if leb l.max_failures r.consecutive_failures
    then some (consecutive_failures_of r.consecutive_failures)
    else if leb l.min_failures_for_span r.consecutive_failures && ltb l.max_span_ms span
    then some (failing_for span r.consecutive_failures)
    else none

-- The second update, on the row read after the first, and whether it has suspended the row.
abbrev pub suspend_if :
    ℕ → Option SuspendedReason → WebhookSubscription → WebhookSubscription × Bool
suspend_if now none r = (r, false)
suspend_if now (some reason) r = if is_suspended r.status then (r, false) else (
  record r { status = suspended; suspended_at = some now; suspended_reason = some reason },
  true,
)

unfoldable pub failed_row : Limits → ℕ → WebhookSubscription → WebhookSubscription × Bool
failed_row l now r = suspend_if now (reason_of l now (counted now r)) (counted now r)

abbrev failure_result :
    Limits → ℕ → Option WebhookSubscription → Option (WebhookSubscription × Bool)
failure_result l now none = none
failure_result l now (some r) = some (failed_row l now r)

-- The transaction: the updated row with whether it is suspended just now, nothing if there is none.
unfoldable pub record_webhook_subscription_failure :
    ℕ → Limits → ℕ → Subscriptions → Option (WebhookSubscription × Bool) × Subscriptions
unfolding failed_row update_row get_webhook_subscription_by_id
record_webhook_subscription_failure id l now t = (
  failure_result l now (get_webhook_subscription_by_id id t.rows),
  update id (λ r. (failed_row l now r).0) t,
)

abbrev pub reactivated : ℕ → WebhookSubscription → WebhookSubscription
reactivated now r = record r {
  status = active;
  consecutive_failures = 0;
  failing_since = none;
  suspended_at = none;
  suspended_reason = none;
  last_success_at = some now;
}

abbrev pub reactivate_webhook_subscription : ℕ → ℕ → Subscriptions → Subscriptions
reactivate_webhook_subscription id now t = update id (reactivated now) t
