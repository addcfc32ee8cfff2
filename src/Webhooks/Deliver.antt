-- ===== src/Webhooks/Deliver.antt =====
-- The delivery of an event to the subscribers: `dispatchEventWebhook` and `deliverToSubscription` of
-- src/services/webhooks.ts, and src/services/webhookHealth.ts. A delivery runs as a whole: its post
-- begins at `now` and has settled at `later`. What each post leaves is an argument, and so is the
-- text of its error. The database may refuse a row of the history, which is logged only. Audit rows,
-- gauges and metrics are left out.
pub mod Settled
pub mod Open
use scout_off_backend.Prelude.{
  ℕ, ◌+◌, String, Bool, true, false, not, ◌&&◌, Option, none, some, List, [], ◌∷◌, ◌++◌, ◌==◌,
  str_eq, if◌then◌else◌,
}
use scout_off_backend.Breaker.Plain
use scout_off_backend.Breaker.Plain.{
  CircuitBreaker, Outcome, rejected, fulfilled, failed, get_state, execute, reset, same, opened,
}
use scout_off_backend.DeadLetters.Table.{WebhookDeadLetter, insert_webhook_dead_letter}
use scout_off_backend.Webhooks.{
  WebhookSubscription, Subscriptions, is_suspended, list_webhook_subscriptions,
}
use scout_off_backend.Webhooks.Health.{
  Limits, record_webhook_subscription_success, record_webhook_subscription_failure,
  reactivate_webhook_subscription,
}
use scout_off_backend.Webhooks.Post.{PostError, Posted, RetryOptions}

-- `RETRY_OPTIONS`
abbrev pub retry_options : RetryOptions
retry_options = record { retries = 3; base_delay_ms = 500; max_delay_ms = 5000 }

-- A row of the delivery history.
pub record WebhookDelivery : Type 0 where
  pub subscription_id : ℕ
  pub event_type : String
  pub delivery_id : String
  pub attempt_count : ℕ
  pub success : Bool
  pub error_message : Option String

-- `posts` are the ids of the subscriptions whose endpoints were called, a notice included.
pub record State : Type 0 where
  pub subscriptions : Subscriptions
  pub breakers : ℕ → Option CircuitBreaker
  pub dead_letters : List WebhookDeadLetter
  pub next_dead_letter : ℕ
  pub deliveries : List WebhookDelivery
  pub posts : List ℕ

pub record Config : Type 0 where
  pub failure_threshold : ℕ
  pub reset_timeout_ms : ℕ
  pub limits : Limits
  pub decrypt : String → String
  pub created_at : String
  pub message : Option PostError → String
  -- whether `insertWebhookDelivery` throws for a subscription
  pub refuses_history : ℕ → Bool

abbrev pub or_new : Config → Option CircuitBreaker → CircuitBreaker
or_new c none = Plain.init c.failure_threshold c.reset_timeout_ms
or_new c (some b) = b

abbrev pub get_webhook_breaker : Config → ℕ → (ℕ → Option CircuitBreaker) → CircuitBreaker
get_webhook_breaker c id breakers = or_new c (breakers id)

abbrev pub put : ℕ → CircuitBreaker → (ℕ → Option CircuitBreaker) → ℕ → Option CircuitBreaker
put id b breakers k = if k == id then some b else breakers k

abbrev same_owner : Option String → Option String → Bool
same_owner none other = false
same_owner (some wallet) none = false
same_owner (some wallet) (some other) = str_eq other wallet

-- The search of `notifySuspension`: `isOpen` may move the breaker of each row that it asks.
unfoldable pub find_healthy :
    Config
    → ℕ
    → WebhookSubscription
    → List WebhookSubscription
    → (ℕ → Option CircuitBreaker)
    → Option ℕ × (ℕ → Option CircuitBreaker)
find_healthy c now gone [] breakers = (none, breakers)
find_healthy c now gone (r ∷ rows) breakers =
    let b = get_state now (get_webhook_breaker c r.id breakers) in
    let asked = put r.id b breakers in
    let next = find_healthy c now gone rows in
    if not (r.id == gone.id)
      && (same_owner gone.scout_wallet r.scout_wallet && not (is_suspended r.status))
    then if same b.state opened then next asked else (some r.id, asked)
    else next breakers

abbrev posted_to : Option ℕ → List ℕ
posted_to none = []
posted_to (some id) = id ∷ []

-- `notifySuspension`, whose post may fail without effect.
unfoldable pub notify_suspension : Config → ℕ → WebhookSubscription → State → State
unfolding find_healthy
notify_suspension c now gone s =
    let found = find_healthy c now gone s.subscriptions.rows s.breakers in
    elim gone.scout_wallet [
      | none ↦ s
      | some wallet ↦ record s { breakers = found.1; posts = s.posts ++ posted_to found.0 }
    ]

abbrev pub after_failure : Config → ℕ → Option (WebhookSubscription × Bool) → State → State
after_failure c now none s = s
after_failure c now (some (r, false)) s = s
after_failure c now (some (r, true)) s = notify_suspension c now r s

unfoldable pub record_delivery_failure : Config → ℕ → ℕ → State → State
unfolding notify_suspension
record_delivery_failure c id now s =
    let (result, subscriptions) =
      record_webhook_subscription_failure id c.limits now s.subscriptions in
    after_failure c now result (record s { subscriptions = subscriptions })

-- The row of `recordDeliveryHistory`
abbrev pub history_row :
    WebhookSubscription → String → String → ℕ → Bool → Option String → WebhookDelivery
history_row sub event_type delivery_id attempts success error = record {
  subscription_id = sub.id;
  event_type = event_type;
  delivery_id = delivery_id;
  attempt_count = attempts;
  success = success;
  error_message = error;
}

-- `recordDeliveryHistory`: the history with the row, if the database takes it.
abbrev pub record_delivery_history :
    Config → WebhookDelivery → List WebhookDelivery → List WebhookDelivery
record_delivery_history c d deliveries =
    if c.refuses_history d.subscription_id then deliveries else deliveries ++ d ∷ []

-- The dead letter and the history row of a delivery that failed.
abbrev pub bury :
    Config → WebhookSubscription → String → String → String → String → ℕ → State → State
bury c sub event_type body delivery_id reason attempts s = record s {
  dead_letters =
      insert_webhook_dead_letter s.next_dead_letter c.created_at
        (record {
          subscription_id = some sub.id;
          url = sub.url;
          event_type = event_type;
          payload = body;
          delivery_id = delivery_id;
          failure_reason = reason;
          attempts = attempts;
        })
        s.dead_letters;
  next_dead_letter = s.next_dead_letter + 1;
  deliveries =
      record_delivery_history c
        (history_row sub event_type delivery_id attempts false (some reason)) s.deliveries;
}

abbrev pub delivered : Config → WebhookSubscription → String → String → ℕ → State → State
delivered c sub event_type delivery_id later s = record s {
  subscriptions = record_webhook_subscription_success sub.id later s.subscriptions;
  deliveries =
      record_delivery_history c (history_row sub event_type delivery_id 1 true none) s.deliveries;
}

abbrev pub is_delivered : Option (Option PostError) → Bool
is_delivered none = true
is_delivered (some error) = false

abbrev pub thrown_message : Config → Option (Option PostError) → String
thrown_message c none = ""
thrown_message c (some error) = c.message error

-- The rest of the delivery once the breaker has answered.
unfoldable pub settle_delivery :
    Config → WebhookSubscription → String → String → String → ℕ → Posted → Outcome → State → State
unfolding record_delivery_failure
settle_delivery c sub event_type body delivery_id later posted rejected s =
    bury c sub event_type body delivery_id "circuit_open" 0 s
settle_delivery c sub event_type body delivery_id later posted fulfilled s =
    delivered c sub event_type delivery_id later (record s { posts = s.posts ++ sub.id ∷ [] })
settle_delivery c sub event_type body delivery_id later posted failed s =
    bury c sub event_type body delivery_id (thrown_message c posted.thrown) retry_options.retries
      (record_delivery_failure c sub.id later (record s { posts = s.posts ++ sub.id ∷ [] }))

unfoldable pub deliver_to_subscription :
    Config → WebhookSubscription → String → String → String → ℕ → ℕ → Posted → State → State
unfolding settle_delivery
deliver_to_subscription c sub event_type body delivery_id now later posted s =
    let (b, outcome) =
      execute now later (is_delivered posted.thrown) (get_webhook_breaker c sub.id s.breakers) in
    settle_delivery c sub event_type body delivery_id later posted outcome
      (record s { breakers = put sub.id b s.breakers })

-- The deliveries to a list of subscriptions, one after the other; suspended ones get none.
unfoldable pub deliver_all :
    Config
    → String
    → String
    → String
    → ℕ
    → ℕ
    → (ℕ → Posted)
    → List WebhookSubscription
    → State
    → State
unfolding deliver_to_subscription
deliver_all c event_type body delivery_id now later posted [] s = s
deliver_all c event_type body delivery_id now later posted (sub ∷ subs) s =
    let rest = deliver_all c event_type body delivery_id now later posted subs in
    if is_suspended sub.status
    then rest s
    else rest
        (deliver_to_subscription c sub event_type body delivery_id now later (posted sub.id) s)

unfoldable pub dispatch_event_webhook :
    Config → String → String → String → ℕ → ℕ → (ℕ → Posted) → State → State
unfolding deliver_all
dispatch_event_webhook c event_type body delivery_id now later posted s =
    deliver_all c event_type body delivery_id now later posted
      (list_webhook_subscriptions c.decrypt s.subscriptions) s

-- `reactivateAfterPing`, after the ping of one attempt: whether it has succeeded.
unfoldable pub reactivate_after_ping :
    Config → WebhookSubscription → ℕ → Posted → State → Bool × State
reactivate_after_ping c sub now ping s =
    let called = record s { posts = s.posts ++ sub.id ∷ [] } in
    if is_delivered ping.thrown
    then (
      true,
      record called {
        subscriptions = reactivate_webhook_subscription sub.id now s.subscriptions;
        breakers = put sub.id (reset (get_webhook_breaker c sub.id s.breakers)) s.breakers;
      },
    )
    else (false, called)
