-- ===== src/Webhooks.antt =====
-- The webhook subscriptions and their deliveries. Here the table of
-- src/db/repositories/webhookSubscriptions.ts, its rows in the order of their ids; the post with
-- retries is in `Post`, the delivery to the subscribers and their health in `Deliver`. `encrypt` and
-- `decrypt` are those of the field cipher. A list of event types is the one that JSON stores.
pub mod Health
pub mod Limit
pub mod Streak
pub mod Post
pub mod Deliver
mod Examples
use scout_off_backend.Prelude.{
  ℕ, suc, ◌+◌, String, Bool, true, false, ◌&&◌, ◌||◌, Option, none, some, List, [], ◌∷◌, ◌++◌, map,
  ◌==◌, leb, str_eq, if◌then◌else◌,
}

pub data WebhookSubscriptionStatus : Type 0 where
  active degraded suspended : WebhookSubscriptionStatus

-- The two texts of a reason, as their numbers: the streak, and the span in milliseconds.
pub data SuspendedReason : Type 0 where
  consecutive_failures_of : ℕ → SuspendedReason
  failing_for : ℕ → ℕ → SuspendedReason

pub record WebhookSubscription : Type 0 where
  pub id : ℕ
  pub url : String
  pub secret : String
  pub scout_wallet : Option String
  pub event_types : Option (List String)
  pub created_at : String
  pub previous_secret : Option String
  pub previous_secret_expires_at : Option String
  pub consecutive_failures : ℕ
  pub failing_since : Option ℕ
  pub last_failure_at : Option ℕ
  pub last_success_at : Option ℕ
  pub status : WebhookSubscriptionStatus
  pub suspended_at : Option ℕ
  pub suspended_reason : Option SuspendedReason

pub record Subscriptions : Type 0 where
  pub rows : List WebhookSubscription
  pub next_id : ℕ

abbrev pub is_suspended : WebhookSubscriptionStatus → Bool
is_suspended active = false
is_suspended degraded = false
is_suspended suspended = true

abbrev pub is_degraded : WebhookSubscriptionStatus → Bool
is_degraded active = false
is_degraded degraded = true
is_degraded suspended = false

abbrev pub max_webhook_subscriptions_per_scout : ℕ
max_webhook_subscriptions_per_scout = 10

abbrev pub owns : String → Option String → Bool
owns wallet none = false
owns wallet (some w) = str_eq w wallet

-- `SELECT COUNT(*) ... WHERE scout_wallet = ?`
unfoldable pub count_by_scout : String → List WebhookSubscription → ℕ
count_by_scout wallet [] = 0
count_by_scout wallet (r ∷ rows) =
    let rest = count_by_scout wallet rows in if owns wallet r.scout_wallet then suc rest else rest

-- What a caller gives; the secret is its own or the random one.
pub record NewSubscription : Type 0 where
  pub url : String
  pub secret : String
  pub scout_wallet : Option String
  pub event_types : List String
  pub previous_secret : Option String
  pub previous_secret_expires_at : Option String

abbrev or_null : List String → Option (List String)
or_null [] = none
or_null (t ∷ types) = some (t ∷ types)

-- A text that is there and not empty, under the cipher.
abbrev ciphered : (String → String) → Option String → Option String
ciphered cipher none = none
ciphered cipher (some p) = if str_eq p "" then none else some (cipher p)

abbrev pub new_row : (String → String) → ℕ → String → NewSubscription → WebhookSubscription
new_row encrypt id created_at n = record {
  id = id;
  url = n.url;
  secret = encrypt n.secret;
  scout_wallet = n.scout_wallet;
  event_types = or_null n.event_types;
  created_at = created_at;
  previous_secret = ciphered encrypt n.previous_secret;
  previous_secret_expires_at = n.previous_secret_expires_at;
  consecutive_failures = 0;
  failing_since = none;
  last_failure_at = none;
  last_success_at = none;
  status = active;
  suspended_at = none;
  suspended_reason = none;
}

-- A wallet that is empty is not counted.
abbrev pub at_limit : Option String → List WebhookSubscription → Bool
at_limit none rows = false
at_limit (some wallet) rows =
    if str_eq wallet ""
    then false
    else leb max_webhook_subscriptions_per_scout (count_by_scout wallet rows)

-- The id of the new row, or nothing for `WebhookSubscriptionLimitError`.
unfoldable pub create_webhook_subscription :
    (String → String) → String → NewSubscription → Subscriptions → Option ℕ × Subscriptions
unfolding count_by_scout
create_webhook_subscription encrypt created_at n t =
    if at_limit n.scout_wallet t.rows then (none, t) else (
      some t.next_id,
      record {
        rows = t.rows ++ new_row encrypt t.next_id created_at n ∷ [];
        next_id = t.next_id + 1;
      },
    )

abbrev pub decrypted : (String → String) → WebhookSubscription → WebhookSubscription
decrypted decrypt r = record r {
  secret = decrypt r.secret;
  previous_secret = ciphered decrypt r.previous_secret;
}

abbrev pub list_webhook_subscriptions : (String → String) → Subscriptions → List WebhookSubscription
list_webhook_subscriptions decrypt t = map (decrypted decrypt) t.rows

unfoldable pub get_webhook_subscription_by_id :
    ℕ → List WebhookSubscription → Option WebhookSubscription
get_webhook_subscription_by_id id [] = none
get_webhook_subscription_by_id id (r ∷ rows) =
    if r.id == id then some r else get_webhook_subscription_by_id id rows

unfoldable pub get_webhook_subscriptions_by_scout :
    String → List WebhookSubscription → List WebhookSubscription
get_webhook_subscriptions_by_scout wallet [] = []
get_webhook_subscriptions_by_scout wallet (r ∷ rows) =
    let rest = get_webhook_subscriptions_by_scout wallet rows in
    if owns wallet r.scout_wallet then r ∷ rest else rest

unfoldable pub delete_row : ℕ → String → List WebhookSubscription → List WebhookSubscription
delete_row id wallet [] = []
delete_row id wallet (r ∷ rows) =
    let rest = delete_row id wallet rows in
    if r.id == id && owns wallet r.scout_wallet then rest else r ∷ rest

unfoldable pub delete_webhook_subscription : ℕ → String → Subscriptions → Subscriptions
unfolding delete_row
delete_webhook_subscription id wallet t = record t { rows = delete_row id wallet t.rows }

abbrev has_url : String → List WebhookSubscription → Bool
has_url url [] = false
has_url url (r ∷ rows) = str_eq r.url url || has_url url rows

-- The legacy webhook, whose secret is the configured or a random one; none if it is not configured.
unfoldable pub ensure_legacy_webhook_subscription :
    (String → String) → String → Option (String × String) → Subscriptions → Subscriptions
unfolding create_webhook_subscription
ensure_legacy_webhook_subscription encrypt created_at none t = t
ensure_legacy_webhook_subscription encrypt created_at (some (url, secret)) t =
    if has_url url t.rows
    then t
    else (create_webhook_subscription encrypt created_at
        (record {
          url = url;
          secret = secret;
          scout_wallet = none;
          event_types = [];
          previous_secret = none;
          previous_secret_expires_at = none;
        })
        t).1

-- `UPDATE ... WHERE id = ?`
unfoldable pub update_row :
    ℕ
    → (WebhookSubscription → WebhookSubscription)
    → List WebhookSubscription
    → List WebhookSubscription
update_row id f [] = []
update_row id f (r ∷ rows) = if r.id == id then f r ∷ rows else r ∷ update_row id f rows

abbrev pub update : ℕ → (WebhookSubscription → WebhookSubscription) → Subscriptions → Subscriptions
update id f t = record t { rows = update_row id f t.rows }

abbrev pub update_webhook_subscription_previous_secret :
    ℕ → String → String → Subscriptions → Subscriptions
update_webhook_subscription_previous_secret id secret expires_at t =
    update id
      (λ r. record r {
        previous_secret = some secret;
        previous_secret_expires_at = some expires_at;
      })
      t

abbrev pub clear_webhook_subscription_previous_secret : ℕ → Subscriptions → Subscriptions
clear_webhook_subscription_previous_secret id t =
    update id (λ r. record r { previous_secret = none; previous_secret_expires_at = none }) t
