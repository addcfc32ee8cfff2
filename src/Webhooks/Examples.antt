-- ===== src/Webhooks/Examples.antt =====
-- Two subscriptions of one scout, a healthy and a suspended one, and their deliveries.
use scout_off_backend.Prelude.{
  ℕ, ◌+◌, ◌≡◌, ◌≤◌, refl, String, true, none, some, List, [], ◌∷◌, length, leb, ◌==◌, if◌then◌else◌,
  arith,
}
use scout_off_backend.Breaker.Plain.{CircuitBreaker, opened}
use scout_off_backend.Webhooks.{
  WebhookSubscription, Subscriptions, NewSubscription, active, suspended, is_suspended,
  count_by_scout, max_webhook_subscriptions_per_scout,
}
use scout_off_backend.Webhooks.Health.{Limits}
use scout_off_backend.Webhooks.Limit.{Op, create, failure, run_all, run_all-bounded}
use scout_off_backend.Webhooks.Streak.{fail_all, all_by, fail_all-suspends}
use scout_off_backend.Webhooks.Post.{Fetch, response, timed_out, Posted, post_webhook_with_retry}
use scout_off_backend.Webhooks.Post.Attempts.{
  first_delivered, Follows, post_webhook_with_retry-Follows,
}
use scout_off_backend.Webhooks.Deliver.{
  Config, State, retry_options, deliver_to_subscription, dispatch_event_webhook,
  reactivate_after_ping,
}
use scout_off_backend.Webhooks.Deliver.Settled.{ended, enabled, dispatch_event_webhook-ended}

abbrev healthy : WebhookSubscription
healthy = record {
  id = 1;
  url = "https://a";
  secret = "k";
  scout_wallet = some "W";
  event_types = some ("milestone_approved" ∷ []);
  created_at = "day";
  previous_secret = none;
  previous_secret_expires_at = none;
  consecutive_failures = 0;
  failing_since = none;
  last_failure_at = none;
  last_success_at = none;
  status = active;
  suspended_at = none;
  suspended_reason = none;
}

abbrev stopped : WebhookSubscription
stopped = record healthy { id = 2; status = suspended }

abbrev table : Subscriptions
table = record { rows = healthy ∷ stopped ∷ []; next_id = 3 }

abbrev limits : Limits
limits = record { max_failures = 3; max_span_ms = 100; min_failures_for_span = 2 }

abbrev plain : String → String
plain t = t

abbrev another : NewSubscription
another = record {
  url = "https://b";
  secret = "k";
  scout_wallet = some "W";
  event_types = [];
  previous_secret = none;
  previous_secret_expires_at = none;
}

abbrev statements : List Op
statements = create "day" another ∷ failure 1 limits 50 ∷ []

two_owned : count_by_scout "W" table.rows ≤ max_webhook_subscriptions_per_scout
unfolding count_by_scout
two_owned = omega arith

run_all-bounded_example :
    count_by_scout "W" (run_all plain statements table).rows ≤ max_webhook_subscriptions_per_scout
run_all-bounded_example = run_all-bounded plain statements table "W" refl two_owned

soon : all_by 110 (20 ∷ 110 ∷ []) ≡ true
unfolding all_by
soon = refl

fail_all-suspends_example :
    is_suspended (fail_all limits (10 ∷ 20 ∷ 110 ∷ []) healthy).status
    ≡ leb 3 (length {A = ℕ} (10 ∷ 20 ∷ 110 ∷ []))
fail_all-suspends_example = fail_all-suspends limits 10 (20 ∷ 110 ∷ []) healthy refl refl refl soon

-- The third attempt is the first that is accepted.
abbrev answers : ℕ → Fetch
answers attempt = if attempt == 3 then response 200 none else timed_out

abbrev no_jitter : ℕ → ℕ → ℕ
no_jitter attempt cap = cap

post_webhook_with_retry-Follows_example :
    Follows 3
      (first_delivered answers 3 1)
      (post_webhook_with_retry retry_options answers no_jitter)
post_webhook_with_retry-Follows_example =
    post_webhook_with_retry-Follows retry_options answers no_jitter

abbrev tripped : CircuitBreaker
tripped = record {
  state = opened;
  failures = 5;
  last_opened_at = some 100;
  failure_threshold = 5;
  reset_timeout_ms = 60;
  changes = [];
}

abbrev begun : State
begun = record {
  subscriptions = table;
  breakers = λ id. if id == 1 then some tripped else none;
  dead_letters = [];
  next_dead_letter = 1;
  deliveries = [];
  posts = [];
}

abbrev config : Config
config = record {
  failure_threshold = 5;
  reset_timeout_ms = 60;
  limits = limits;
  decrypt = plain;
  created_at = "day";
  message = λ error. "failed";
  refuses_history = λ id. id == 2;
}

abbrev done : Posted
done = record { thrown = none; attempts = 1; waits = [] }

dispatch_event_webhook-ended_example :
    ended 1 (dispatch_event_webhook config "scout_subscribed" "{}" "d" 120 121 (λ id. done) begun)
    ≡ ended 1 begun + enabled 1 table.rows
dispatch_event_webhook-ended_example =
    dispatch_event_webhook-ended config "scout_subscribed" "{}" "d" 120 121 (λ id. done) begun 1
      refl

abbrev refused : State
refused = deliver_to_subscription config healthy "scout_subscribed" "{}" "d" 120 121 done begun

abbrev pinged : State
pinged = (reactivate_after_ping config healthy 130 done begun).1
