-- ===== src/Webhooks/Limit.antt =====
-- The number of subscriptions of one scout.
use scout_off_backend.Prelude.{
  ℕ, ◌+◌, ◌≡◌, ◌≤◌, refl, sym, ap, ◌∙◌, String, false, Option, none, some, List, [], ◌∷◌, ◌++◌,
  ◌==◌, leb, str_eq, if◌then◌else◌, arith, eq_iff, Bool-cases, inl, inr,
}
use scout_off_backend.Webhooks.{
  WebhookSubscription, Subscriptions, NewSubscription, count_by_scout, create_webhook_subscription,
  delete_webhook_subscription, delete_row, update_row, update, owns, at_limit, new_row,
  max_webhook_subscriptions_per_scout, update_webhook_subscription_previous_secret,
  clear_webhook_subscription_previous_secret,
}
use scout_off_backend.Webhooks.Health.{
  Limits, record_webhook_subscription_success, record_webhook_subscription_failure,
  reactivate_webhook_subscription, failed_row, succeeded, reactivated,
}

-- The statements on the table, with their arguments.
pub data Op : Type 0 where
  create : String → NewSubscription → Op
  delete : ℕ → String → Op
  rotate : ℕ → String → String → Op
  clear success reactivate : ℕ → ℕ → Op
  failure : ℕ → Limits → ℕ → Op

unfoldable pub run : (String → String) → Op → Subscriptions → Subscriptions
unfolding create_webhook_subscription delete_webhook_subscription
    record_webhook_subscription_failure
run encrypt (create at n) t = (create_webhook_subscription encrypt at n t).1
run encrypt (delete id wallet) t = delete_webhook_subscription id wallet t
run encrypt (rotate id secret expires) t =
    update_webhook_subscription_previous_secret id secret expires t
run encrypt (clear id now) t = clear_webhook_subscription_previous_secret id t
run encrypt (success id now) t = record_webhook_subscription_success id now t
run encrypt (reactivate id now) t = reactivate_webhook_subscription id now t
run encrypt (failure id l now) t = (record_webhook_subscription_failure id l now t).1

unfoldable pub run_all : (String → String) → List Op → Subscriptions → Subscriptions
unfolding run
run_all encrypt [] t = t
run_all encrypt (op ∷ ops) t = run_all encrypt ops (run encrypt op t)

count_by_scout-append :
    (wallet : String) (rows : List WebhookSubscription) (r : WebhookSubscription)
    → count_by_scout wallet (rows ++ r ∷ [])
      ≡ count_by_scout wallet rows + (if owns wallet r.scout_wallet then 1 else 0)
unfolding count_by_scout
count_by_scout-append wallet [] r = ground arith
count_by_scout-append wallet (q ∷ rows) r = ground (arith, count_by_scout-append wallet rows r)

count_by_scout-delete_row :
    (wallet : String) (id : ℕ) (owner : String) (rows : List WebhookSubscription)
    → count_by_scout wallet (delete_row id owner rows) ≤ count_by_scout wallet rows
unfolding count_by_scout delete_row
count_by_scout-delete_row wallet id owner [] = omega arith
count_by_scout-delete_row wallet id owner (r ∷ rows) =
    ground (arith, count_by_scout-delete_row wallet id owner rows)

-- The function keeps the owner.
abbrev KeepsOwner : (WebhookSubscription → WebhookSubscription) → Type 0
KeepsOwner f = (r : WebhookSubscription) → (f r).scout_wallet ≡ r.scout_wallet

count_by_scout-update_row :
    (wallet : String) (id : ℕ) (f : WebhookSubscription → WebhookSubscription)
    (rows : List WebhookSubscription)
    → KeepsOwner f
    → count_by_scout wallet (update_row id f rows) ≡ count_by_scout wallet rows
unfolding count_by_scout update_row
count_by_scout-update_row wallet id f [] keeps = refl
count_by_scout-update_row wallet id f (r ∷ rows) keeps = elim (Bool-cases (r.id == id)) [
  | inl here ↦ rw (here, keeps r) refl
  | inr there ↦ rw (there, count_by_scout-update_row wallet id f rows keeps) refl
]

failed_row-KeepsOwner : (l : Limits) (now : ℕ) → KeepsOwner (λ r. (failed_row l now r).0)
unfolding failed_row
failed_row-KeepsOwner l now r = ground arith

below_limit :
    (wallet : String) (o : Option String) (rows : List WebhookSubscription)
    → str_eq wallet "" ≡ false
    → at_limit o rows ≡ false
    → count_by_scout wallet rows ≤ max_webhook_subscriptions_per_scout
    → count_by_scout wallet rows + (if owns wallet o then 1 else 0)
      ≤ max_webhook_subscriptions_per_scout
below_limit wallet none rows named free h = omega (arith, h)
below_limit wallet (some w) rows named free h = elim (Bool-cases (str_eq w wallet)) [
  | inl same ↦
      let e = (eq_iff w wallet).0 same in
      let free' : leb 10 (count_by_scout wallet rows) ≡ false =
        sym (ap (λ b. if b then false else leb 10 (count_by_scout wallet rows)) named)
        ∙ ap (λ v. at_limit (some v) rows) (sym e)
        ∙ free in
      rw same (ground (arith, free'))
  | inr other ↦ rw other (omega (arith, h))
]

create-bounded :
    (encrypt : String → String) (at : String) (n : NewSubscription) (t : Subscriptions)
    (wallet : String)
    → str_eq wallet "" ≡ false
    → count_by_scout wallet t.rows ≤ max_webhook_subscriptions_per_scout
    → count_by_scout wallet (create_webhook_subscription encrypt at n t).1.rows
      ≤ max_webhook_subscriptions_per_scout
unfolding create_webhook_subscription
create-bounded encrypt at n t wallet named h = elim (Bool-cases (at_limit n.scout_wallet t.rows)) [
  | inl full ↦ rw full h
  | inr free ↦
      let r = new_row encrypt t.next_id at n in
      rw free (
        rw (count_by_scout-append wallet t.rows r)
          (below_limit wallet n.scout_wallet t.rows named free h))
]

update-bounded :
    (wallet : String) (id : ℕ) (f : WebhookSubscription → WebhookSubscription) (t : Subscriptions)
    → KeepsOwner f
    → count_by_scout wallet t.rows ≤ max_webhook_subscriptions_per_scout
    → count_by_scout wallet (update id f t).rows ≤ max_webhook_subscriptions_per_scout
update-bounded wallet id f t keeps h = rw (count_by_scout-update_row wallet id f t.rows keeps) h

run-bounded :
    (encrypt : String → String) (op : Op) (t : Subscriptions) (wallet : String)
    → str_eq wallet "" ≡ false
    → count_by_scout wallet t.rows ≤ max_webhook_subscriptions_per_scout
    → count_by_scout wallet (run encrypt op t).rows ≤ max_webhook_subscriptions_per_scout
unfolding run
run-bounded encrypt (create at n) t wallet named h = create-bounded encrypt at n t wallet named h
run-bounded encrypt (delete id owner) t wallet named h =
    omega (arith, h, count_by_scout-delete_row wallet id owner t.rows)
run-bounded encrypt (rotate id secret expires) t wallet named h =
    update-bounded wallet id
      (λ r. record r { previous_secret = some secret; previous_secret_expires_at = some expires }) t
      (λ r. refl) h
run-bounded encrypt (clear id now) t wallet named h =
    update-bounded wallet id
      (λ r. record r { previous_secret = none; previous_secret_expires_at = none }) t (λ r. refl) h
run-bounded encrypt (success id now) t wallet named h =
    update-bounded wallet id (succeeded now) t (λ r. refl) h
run-bounded encrypt (reactivate id now) t wallet named h =
    update-bounded wallet id (reactivated now) t (λ r. refl) h
run-bounded encrypt (failure id l now) t wallet named h =
    update-bounded wallet id (λ r. (failed_row l now r).0) t (failed_row-KeepsOwner l now) h

-- If a wallet that is not empty has at most ten subscriptions in a table, then it has at most ten
-- after any sequence of statements.
pub run_all-bounded :
    (encrypt : String → String) (ops : List Op) (t : Subscriptions) (wallet : String)
    → str_eq wallet "" ≡ false
    → count_by_scout wallet t.rows ≤ max_webhook_subscriptions_per_scout
    → count_by_scout wallet (run_all encrypt ops t).rows ≤ max_webhook_subscriptions_per_scout
unfolding run_all
run_all-bounded encrypt [] t wallet named h = h
run_all-bounded encrypt (op ∷ ops) t wallet named h =
    run_all-bounded encrypt ops (run encrypt op t) wallet named
      (run-bounded encrypt op t wallet named h)
