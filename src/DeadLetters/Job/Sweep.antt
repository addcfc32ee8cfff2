-- ===== src/DeadLetters/Job/Sweep.antt =====
-- What one sweep of the retry job does to the table.
use scout_off_backend.Prelude.{
  ℕ, ◌+◌, ◌≡◌, ◌⊎◌, refl, String, Bool, false, Option, some, List, [], ◌∷◌, arith, inl, inr,
}
use scout_off_backend.DeadLetters.Table.{
  list_webhook_dead_letters, WebhookDeadLetter, Table, get_webhook_dead_letter_by_id, is_pending,
}
use scout_off_backend.DeadLetters.Job.{
  swept, WebhookSubscription, Times, eligible, recover, process_row, process_rows,
  run_dead_letter_retry_job,
}
use scout_off_backend.DeadLetters.Table.Rows.{replayed_count}
use scout_off_backend.DeadLetters.Job.Round.{process_row-keeps, process_row-counts}

module _ (at_most before : String → String → Bool) where
  -- The loop that recovers stale locks is given eligible rows only, which hold no lock.
  pub recover-eligible :
      (times : Times) (rows : List WebhookDeadLetter) (t : Table)
      → recover at_most before times (eligible at_most before times rows) t ≡ t
  unfolding recover eligible
  recover-eligible times [] t = refl
  recover-eligible times (r ∷ rows) t = ground (arith, recover-eligible times rows t)

module _ (subs : List WebhookSubscription) (worker now : String)
    (deliver : WebhookDeadLetter → Option String) where
  process_rows-keeps :
      (rows : List WebhookDeadLetter) (t : Table) (j : ℕ) (q : WebhookDeadLetter)
      → get_webhook_dead_letter_by_id j t ≡ some q
      → is_pending q.status ≡ false
      → get_webhook_dead_letter_by_id j (process_rows subs worker now deliver rows t).1 ≡ some q
  unfolding process_rows
  process_rows-keeps [] t j q found busy = found
  process_rows-keeps (r ∷ rows) t j q found busy =
      process_rows-keeps rows (process_row subs worker now deliver r t).1 j q
        (process_row-keeps subs worker now deliver r t j q found busy) busy

  process_rows-counts :
      (rows : List WebhookDeadLetter) (t : Table)
      → replayed_count (process_rows subs worker now deliver rows t).1
        ≡ (process_rows subs worker now deliver rows t).0 + replayed_count t
  unfolding process_rows
  process_rows-counts [] t = omega arith
  process_rows-counts (r ∷ rows) t =
      let p = process_row subs worker now deliver r t in
      omega (arith, process_row-counts subs worker now deliver r t, process_rows-counts rows p.1)

module _ (at_most before : String → String → Bool) (times : Times) (subs : List WebhookSubscription)
    (worker : String) (deliver : WebhookDeadLetter → Option String) where
  swept-cases :
      (rows : List WebhookDeadLetter) (t : Table) (done : ℕ × Table)
      → (swept at_most before rows t done ≡ (0, t)) ⊎ (swept at_most before rows t done ≡ done)
  swept-cases [] t done = inl refl
  swept-cases (r ∷ rows) t done = inr refl

  -- A sweep does nothing, or it processes the eligible rows among the newest 200.
  run_dead_letter_retry_job-cases :
      (t : Table)
      → let rows = eligible at_most before times (list_webhook_dead_letters 200 0 t) in
        (run_dead_letter_retry_job at_most before times subs worker deliver t ≡ (0, t))
        ⊎ (run_dead_letter_retry_job at_most before times subs worker deliver t
            ≡ process_rows subs worker times.now deliver rows t)
  unfolding run_dead_letter_retry_job
  run_dead_letter_retry_job-cases t =
      let listed = list_webhook_dead_letters 200 0 t in
      rw (recover-eligible at_most before times listed t) (swept-cases _ t _)

  -- A sweep leaves every row that is not pending as it is. So a row that is in progress because
  -- its worker crashed stays so, however old its lock is.
  pub run_dead_letter_retry_job-keeps :
      (t : Table) (j : ℕ) (q : WebhookDeadLetter)
      → get_webhook_dead_letter_by_id j t ≡ some q
      → is_pending q.status ≡ false
      → get_webhook_dead_letter_by_id j
          (run_dead_letter_retry_job at_most before times subs worker deliver t).1
        ≡ some q
  run_dead_letter_retry_job-keeps t j q found busy = elim (run_dead_letter_retry_job-cases t) [
    | inl idle ↦ rw idle found
    | inr e ↦ rw e (process_rows-keeps subs worker times.now deliver _ t j q found busy)
  ]

  -- The number that a sweep returns is the number of rows that it has made replayed.
  pub run_dead_letter_retry_job-counts :
      (t : Table)
      → replayed_count (run_dead_letter_retry_job at_most before times subs worker deliver t).1
        ≡ (run_dead_letter_retry_job at_most before times subs worker deliver t).0
          + replayed_count t
  run_dead_letter_retry_job-counts t = elim (run_dead_letter_retry_job-cases t) [
    | inl idle ↦ rw idle (omega arith)
    | inr e ↦ rw e (process_rows-counts subs worker times.now deliver _ t)
  ]
