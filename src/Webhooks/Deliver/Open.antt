-- ===== src/Webhooks/Deliver/Open.antt =====
-- Deliveries to an endpoint whose circuit is open, and after its reactivation.
use scout_off_backend.Prelude.{
  ℕ, ◌+◌, ◌≡◌, ◌<◌, refl, ap, String, Bool, true, false, none, some, if◌then◌else◌, ==_iff,
}
use scout_off_backend.Breaker.Plain.{
  CircuitBreaker, rejected, fulfilled, failed, execute, opened, reset,
}
use scout_off_backend.Breaker.Plain.Opening.{execute-rejected_iff}
use scout_off_backend.DeadLetters.Table.{InsertDeadLetterInput, insert_webhook_dead_letter}
use scout_off_backend.Webhooks.{WebhookSubscription}
use scout_off_backend.Webhooks.Post.{Posted}
use scout_off_backend.Webhooks.Deliver.{
  Config, State, settle_delivery, is_delivered, get_webhook_breaker, or_new,
  deliver_to_subscription, reactivate_after_ping,
}

abbrev buried : WebhookSubscription → String → String → String → InsertDeadLetterInput
buried sub event_type body delivery_id = record {
  subscription_id = some sub.id;
  url = sub.url;
  event_type = event_type;
  payload = body;
  delivery_id = delivery_id;
  failure_reason = "circuit_open";
  attempts = 0;
}

-- A delivery to a subscription whose breaker opened less than the reset timeout ago calls no
-- endpoint, changes no subscription, and inserts a dead letter with no attempts and the reason
-- circuit_open.
deliver_to_subscription-open :
    (c : Config) (sub : WebhookSubscription) (event_type body delivery_id : String) (now later : ℕ)
    (posted : Posted) (s : State) (b : CircuitBreaker) (t : ℕ)
    → s.breakers sub.id ≡ some b
    → b.state ≡ opened
    → b.last_opened_at ≡ some t
    → now < t + b.reset_timeout_ms
    → let s' = deliver_to_subscription c sub event_type body delivery_id now later posted s in
      (s'.posts ≡ s.posts)
      × (s'.subscriptions ≡ s.subscriptions)
      × (s'.dead_letters
          ≡ insert_webhook_dead_letter s.next_dead_letter c.created_at
              (buried sub event_type body delivery_id)
              s.dead_letters)
unfolding deliver_to_subscription settle_delivery
deliver_to_subscription-open c sub event_type body delivery_id now later posted s b t known stands
      since early =
    let ok = is_delivered posted.thrown in
    let stopped : (execute now later ok b).1 ≡ rejected =
      (execute-rejected_iff b t now later ok stands since).1 early in
    rw (ap (λ o. or_new c o) known) (rw stopped (refl, refl, refl))

execute-reset :
    (now later : ℕ) (result : Bool) (b : CircuitBreaker)
    → (execute now later result (reset b)).1 ≡ (if result then fulfilled else failed)
unfolding execute reset
execute-reset now later true b = refl
execute-reset now later false b = refl

-- After the reactivation of a subscription by a ping that was delivered, its breaker lets the next
-- call through, whatever its state was.
pub reactivate_after_ping-delivers :
    (c : Config) (sub : WebhookSubscription) (pinged now later : ℕ) (ping : Posted) (s : State)
    (result : Bool)
    → ping.thrown ≡ none
    → (execute now later result
        (get_webhook_breaker c sub.id (reactivate_after_ping c sub pinged ping s).1.breakers)).1
      ≡ (if result then fulfilled else failed)
unfolding reactivate_after_ping
reactivate_after_ping-delivers c sub pinged now later ping s result ok =
    let same_id = (==_iff sub.id sub.id).1 refl in
    rw (ap is_delivered ok)
      (rw same_id (execute-reset now later result (get_webhook_breaker c sub.id s.breakers)))
