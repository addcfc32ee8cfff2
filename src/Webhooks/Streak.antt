-- ===== src/Webhooks/Streak.antt =====
-- When a streak of failed deliveries suspends a subscription.
use scout_off_backend.Prelude.{
  ℕ, suc, ◌+◌, ◌≡◌, ◌≤◌, sym, ap, ◌∙◌, Bool, true, false, ◌&&◌, none, some, List, [], ◌∷◌, leb,
  arith, Bool-cases, inl, inr, length,
}
use scout_off_backend.Webhooks.{WebhookSubscription, is_suspended}
use scout_off_backend.Webhooks.Health.{Limits, failed_row, or_now}

-- The row after failures at these times.
unfoldable pub fail_all : Limits → List ℕ → WebhookSubscription → WebhookSubscription
unfolding failed_row
fail_all l [] r = r
fail_all l (now ∷ times) r = fail_all l times (failed_row l now r).0

-- Every time is at most the bound.
unfoldable pub all_by : ℕ → List ℕ → Bool
all_by bound [] = true
all_by bound (now ∷ times) = leb now bound && all_by bound times

failed_row-streak :
    (l : Limits) (now : ℕ) (r : WebhookSubscription)
    → (failed_row l now r).0.consecutive_failures ≡ r.consecutive_failures + 1
unfolding failed_row
failed_row-streak l now r = ground arith

failed_row-since :
    (l : Limits) (now : ℕ) (r : WebhookSubscription)
    → (failed_row l now r).0.failing_since ≡ some (or_now r.failing_since now)
unfolding failed_row
failed_row-since l now r = ground arith

-- A suspended row stays so.
failed_row-suspended :
    (l : Limits) (now : ℕ) (r : WebhookSubscription)
    → is_suspended r.status ≡ true
    → is_suspended (failed_row l now r).0.status ≡ true
unfolding failed_row
failed_row-suspended l now r h = ground (arith, h)

failed_row_within :
    (l : Limits) (now since : ℕ) (r : WebhookSubscription)
    → or_now r.failing_since now ≡ since
    → now ≤ since + l.max_span_ms
    → is_suspended r.status ≡ false
    → is_suspended (failed_row l now r).0.status ≡ leb l.max_failures (r.consecutive_failures + 1)
unfolding failed_row
failed_row_within l now since r start within h = ground (arith, start, within, h)

failed_row-status :
    (l : Limits) (now since : ℕ) (r : WebhookSubscription)
    → r.failing_since ≡ some since
    → now ≤ since + l.max_span_ms
    → is_suspended r.status ≡ leb l.max_failures r.consecutive_failures
    → is_suspended (failed_row l now r).0.status
      ≡ leb l.max_failures (failed_row l now r).0.consecutive_failures
failed_row-status l now since r start within h = elim (Bool-cases (is_suspended r.status)) [
  | inl stopped ↦
      let reached : leb l.max_failures r.consecutive_failures ≡ true = sym h ∙ stopped in
      rw (failed_row-suspended l now r stopped, failed_row-streak l now r) (ground (arith, reached))
  | inr going ↦
      rw (failed_row-streak l now r)
        (failed_row_within l now since r (ap (λ o. or_now o now) start) within going)
]

fail_all-status :
    (l : Limits) (since : ℕ) (times : List ℕ) (r : WebhookSubscription)
    → r.failing_since ≡ some since
    → all_by (since + l.max_span_ms) times ≡ true
    → is_suspended r.status ≡ leb l.max_failures r.consecutive_failures
    → is_suspended (fail_all l times r).status
      ≡ leb l.max_failures (r.consecutive_failures + length times)
unfolding fail_all all_by
fail_all-status l since [] r start within h = rw h (ground arith)
fail_all-status l since (now ∷ times) r start within h =
    let r' = (failed_row l now r).0 in
    let soon : now ≤ since + l.max_span_ms = ground (arith, within) in
    let rest : all_by (since + l.max_span_ms) times ≡ true = ground (arith, within) in
    let start' = failed_row-since l now r ∙ ap (λ o. some (or_now o now)) start in
    let ih =
      fail_all-status l since times r' start' rest (failed_row-status l now since r start soon h) in
    let e : r'.consecutive_failures + length times ≡ r.consecutive_failures + suc (length times) =
      omega (arith, failed_row-streak l now r) in
    ih ∙ ap (λ n. leb l.max_failures n) e

-- A subscription without a streak that is not suspended, and whose deliveries fail at times that
-- are all within the longest span from the first, is suspended exactly if the failures are as many
-- as the threshold or more.
pub fail_all-suspends :
    (l : Limits) (now : ℕ) (times : List ℕ) (r : WebhookSubscription)
    → r.failing_since ≡ none
    → r.consecutive_failures ≡ 0
    → is_suspended r.status ≡ false
    → all_by (now + l.max_span_ms) times ≡ true
    → is_suspended (fail_all l (now ∷ times) r).status ≡ leb l.max_failures (length (now ∷ times))
unfolding fail_all
fail_all-suspends l now times r start fresh going within =
    let r' = (failed_row l now r).0 in
    let since = ap (λ o. or_now o now) start in
    let start' : r'.failing_since ≡ some now = failed_row-since l now r ∙ ap some since in
    let streak : r'.consecutive_failures ≡ 1 = omega (arith, failed_row-streak l now r, fresh) in
    let first = failed_row_within l now now r since (omega arith) going in
    let status : is_suspended r'.status ≡ leb l.max_failures r'.consecutive_failures =
      first ∙ ap (λ n. leb l.max_failures n) (sym (failed_row-streak l now r)) in
    fail_all-status l now times r' start' within status
    ∙ ap (λ n. leb l.max_failures n) (omega (arith, streak))
