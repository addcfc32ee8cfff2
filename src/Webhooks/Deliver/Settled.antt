-- ===== src/Webhooks/Deliver/Settled.antt =====
-- The delivery to one subscription ends in the history of successes or in the dead letters.
use scout_off_backend.Prelude.{
  ℕ, suc, ◌+◌, ◌≡◌, refl, ap, ◌∙◌, String, Bool, true, false, Option, none, some, List, [], ◌∷◌,
  ◌++◌, map, if◌then◌else◌, arith, Bool-cases, Option-cases, inl, inr, not, ◌&&◌, ◌==◌, ==_iff,
}
use scout_off_backend.Breaker.Plain.{Outcome, rejected, fulfilled, failed, execute}
use scout_off_backend.DeadLetters.Table.{WebhookDeadLetter, insert_webhook_dead_letter}
use scout_off_backend.Webhooks.{
  WebhookSubscription, is_suspended, decrypted, list_webhook_subscriptions,
}
use scout_off_backend.Webhooks.Health.{record_webhook_subscription_failure}
use scout_off_backend.Webhooks.Post.{Posted}
use scout_off_backend.Webhooks.Deliver.{
  Config, State, WebhookDelivery, delivered, after_failure, bury, retry_options, history_row,
  is_delivered, get_webhook_breaker, put, thrown_message, settle_delivery, record_delivery_failure,
  notify_suspension, deliver_to_subscription, deliver_all, dispatch_event_webhook,
}

-- The successes of one subscription in a delivery history.
unfoldable pub successes : ℕ → List WebhookDelivery → ℕ
successes k [] = 0
successes k (d ∷ deliveries) =
    let rest = successes k deliveries in
    if d.success && d.subscription_id == k then suc rest else rest

successes-append :
    (k : ℕ) (ds : List WebhookDelivery) (d : WebhookDelivery)
    → successes k (ds ++ d ∷ [])
      ≡ successes k ds + (if d.success && d.subscription_id == k then 1 else 0)
unfolding successes
successes-append k [] d = ground arith
successes-append k (e ∷ ds) d = ground (arith, successes-append k ds d)

abbrev is_of : ℕ → Option ℕ → Bool
is_of k none = false
is_of k (some id) = id == k

-- The dead letters of one subscription.
unfoldable pub letters : ℕ → List WebhookDeadLetter → ℕ
letters k [] = 0
letters k (d ∷ rest) = let n = letters k rest in if is_of k d.subscription_id then suc n else n

-- The deliveries to one subscription that have ended, as the tables tell.
abbrev pub ended : ℕ → State → ℕ
ended k s = letters k s.dead_letters + successes k s.deliveries

notify_suspension-ended :
    (c : Config) (now : ℕ) (r : WebhookSubscription) (s : State)
    → ((notify_suspension c now r s).dead_letters ≡ s.dead_letters)
      × ((notify_suspension c now r s).deliveries ≡ s.deliveries)
unfolding notify_suspension
notify_suspension-ended c now r s = elim (Option-cases r.scout_wallet) [
  | inl free ↦ rw free (refl, refl)
  | inr (wallet, owned) ↦ rw owned (refl, refl)
]

after_failure-ended :
    (c : Config) (now : ℕ) (o : Option (WebhookSubscription × Bool)) (s : State)
    → ((after_failure c now o s).dead_letters ≡ s.dead_letters)
      × ((after_failure c now o s).deliveries ≡ s.deliveries)
after_failure-ended c now none s = (refl, refl)
after_failure-ended c now (some (r, false)) s = (refl, refl)
after_failure-ended c now (some (r, true)) s = notify_suspension-ended c now r s

record_delivery_failure-ended :
    (c : Config) (id now : ℕ) (s : State)
    → ((record_delivery_failure c id now s).dead_letters ≡ s.dead_letters)
      × ((record_delivery_failure c id now s).deliveries ≡ s.deliveries)
unfolding record_delivery_failure
record_delivery_failure-ended c id now s =
    let result = record_webhook_subscription_failure id c.limits now s.subscriptions in
    after_failure-ended c now result.0 (record s { subscriptions = result.1 })

bury-ended :
    (c : Config) (sub : WebhookSubscription) (event_type body delivery_id reason : String)
    (attempts k : ℕ) (s : State)
    → ended k (bury c sub event_type body delivery_id reason attempts s)
      ≡ ended k s + (if sub.id == k then 1 else 0)
unfolding insert_webhook_dead_letter letters
bury-ended c sub event_type body delivery_id reason attempts k s =
    let row = history_row sub event_type delivery_id attempts false (some reason) in
    ground (arith, successes-append k s.deliveries row)

delivered-ended :
    (c : Config) (sub : WebhookSubscription) (event_type delivery_id : String) (later k : ℕ)
    (s : State)
    → c.refuses_history k ≡ false
    → ended k (delivered c sub event_type delivery_id later s)
      ≡ ended k s + (if sub.id == k then 1 else 0)
delivered-ended c sub event_type delivery_id later k s takes =
    let row = history_row sub event_type delivery_id 1 true none in
    elim (Bool-cases (sub.id == k)) [
      | inl same ↦
          let free : c.refuses_history sub.id ≡ false =
            ap c.refuses_history ((==_iff sub.id k).0 same) ∙ takes in
          rw free (rw same (ground (arith, same, successes-append k s.deliveries row)))
      | inr other ↦ elim (Bool-cases (c.refuses_history sub.id)) [
        | inl lost ↦ rw (lost, other) (omega arith)
        | inr kept ↦ rw (kept, other) (ground (arith, other, successes-append k s.deliveries row))
      ]
    ]

settle_delivery-ended :
    (c : Config) (sub : WebhookSubscription) (event_type body delivery_id : String) (later : ℕ)
    (posted : Posted) (outcome : Outcome) (k : ℕ) (s : State)
    → c.refuses_history k ≡ false
    → ended k (settle_delivery c sub event_type body delivery_id later posted outcome s)
      ≡ ended k s + (if sub.id == k then 1 else 0)
unfolding settle_delivery
settle_delivery-ended c sub event_type body delivery_id later posted rejected k s takes =
    bury-ended c sub event_type body delivery_id "circuit_open" 0 k s
settle_delivery-ended c sub event_type body delivery_id later posted fulfilled k s takes =
    delivered-ended c sub event_type delivery_id later k
      (record s { posts = s.posts ++ sub.id ∷ [] }) takes
settle_delivery-ended c sub event_type body delivery_id later posted failed k s takes =
    let called : State = record s { posts = s.posts ++ sub.id ∷ [] } in
    let counted = record_delivery_failure c sub.id later called in
    let (dead, history) = record_delivery_failure-ended c sub.id later called in
    let kept : ended k counted ≡ ended k s = rw (dead, history) refl in
    bury-ended c sub event_type body delivery_id (thrown_message c posted.thrown)
      retry_options.retries k counted
    ∙ ap (λ n. n + (if sub.id == k then 1 else 0)) kept

-- The subscriptions with the id that are not suspended.
unfoldable pub enabled : ℕ → List WebhookSubscription → ℕ
enabled k [] = 0
enabled k (sub ∷ subs) =
    let rest = enabled k subs in
    if not (is_suspended sub.status) && sub.id == k then suc rest else rest

deliver_all-ended :
    (c : Config) (event_type body delivery_id : String) (now later : ℕ) (posted : ℕ → Posted)
    (subs : List WebhookSubscription) (k : ℕ) (s : State)
    → c.refuses_history k ≡ false
    → ended k (deliver_all c event_type body delivery_id now later posted subs s)
      ≡ ended k s + enabled k subs
unfolding deliver_all deliver_to_subscription enabled
deliver_all-ended c event_type body delivery_id now later posted [] k s takes = omega arith
deliver_all-ended c event_type body delivery_id now later posted (sub ∷ subs) k s takes =
    elim (Bool-cases (is_suspended sub.status)) [
      | inl off ↦
          rw off (deliver_all-ended c event_type body delivery_id now later posted subs k s takes)
      | inr on ↦
          let t =
            deliver_to_subscription c sub event_type body delivery_id now later (posted sub.id) s in
          let (b, outcome) =
            execute now later (is_delivered (posted sub.id).thrown)
              (get_webhook_breaker c sub.id s.breakers) in
          let one =
            settle_delivery-ended c sub event_type body delivery_id later (posted sub.id) outcome k
              (record s { breakers = put sub.id b s.breakers }) takes in
          let ih =
            deliver_all-ended c event_type body delivery_id now later posted subs k t takes in
          rw on (elim (Bool-cases (sub.id == k)) [
            | inl same ↦
                rw same (omega (arith, ih, one ∙ ap (λ b. ended k s + (if b then 1 else 0)) same))
            | inr other ↦
                rw other (omega (arith, ih, one ∙ ap (λ b. ended k s + (if b then 1 else 0)) other))
          ])
    ]

enabled-list :
    (decrypt : String → String) (k : ℕ) (rows : List WebhookSubscription)
    → enabled k (map (decrypted decrypt) rows) ≡ enabled k rows
unfolding enabled
enabled-list decrypt k [] = refl
enabled-list decrypt k (r ∷ rows) = rw (enabled-list decrypt k rows) refl

-- If the database takes the history rows of a subscription, then a dispatch adds, to its successes
-- in the history and its dead letters taken together, one for each row of the table that has its id
-- and is not suspended, whatever event types it asks for.
pub dispatch_event_webhook-ended :
    (c : Config) (event_type body delivery_id : String) (now later : ℕ) (posted : ℕ → Posted)
    (s : State) (k : ℕ)
    → c.refuses_history k ≡ false
    → ended k (dispatch_event_webhook c event_type body delivery_id now later posted s)
      ≡ ended k s + enabled k s.subscriptions.rows
unfolding dispatch_event_webhook
dispatch_event_webhook-ended c event_type body delivery_id now later posted s k takes =
    deliver_all-ended c event_type body delivery_id now later posted
      (list_webhook_subscriptions c.decrypt s.subscriptions) k s takes
    ∙ ap (λ n. ended k s + n) (enabled-list c.decrypt k s.subscriptions.rows)
