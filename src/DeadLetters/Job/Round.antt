-- ===== src/DeadLetters/Job/Round.antt =====
-- What one round of the retry job does to its row, and to the others.
use scout_off_backend.Prelude.{
  ℕ, ◌+◌, ◌≡◌, ◌≢◌, ◌⊎◌, refl, sym, ap, ◌∙◌, String, false, Option, none, some, List, arith,
  Bool-cases, Option-cases, inl, inr,
}
use scout_off_backend.DeadLetters.Table.{
  DeadLetterStatus, WebhookDeadLetter, Table, pending, in_progress, replayed,
  get_webhook_dead_letter_by_id, update_row, is_pending, claimed_by, marked, unclaimed, attempted,
}
use scout_off_backend.DeadLetters.Job.{
  settle, WebhookSubscription, target, is_suspended, process_row,
}
use scout_off_backend.DeadLetters.Table.Rows.{
  update_row_self, update_row_other, claim_webhook_dead_letter_pending,
  claim_webhook_dead_letter_taken, id-get_webhook_dead_letter, one_if_replayed, replayed_count,
  replayed_count-update_row, claim_webhook_dead_letter_absent, claimed_by-KeepsId, KeepsId,
}

status-cases : (s : DeadLetterStatus) → (s ≡ pending) ⊎ (is_pending s ≡ false)
status-cases pending = inl refl
status-cases in_progress = inr refl
status-cases replayed = inr refl

clash :
    (i j : ℕ) (t : Table) (q r : WebhookDeadLetter)
    → get_webhook_dead_letter_by_id j t ≡ some q
    → is_pending q.status ≡ false
    → get_webhook_dead_letter_by_id i t ≡ some r
    → r.status ≡ pending
    → j ≢ i
clash i j t q r found busy there waiting h =
    let e : q ≡ r = cc (sym found ∙ (ap (λ k. get_webhook_dead_letter_by_id k t) h ∙ there)) in
    cc (busy, ap (λ x. is_pending x.status) e, ap is_pending waiting)

abbrev pub delivered : Option String → ℕ
delivered none = 1
delivered (some reason) = 0

-- The row after its delivery.
abbrev pub settled : String → Option String → WebhookDeadLetter → WebhookDeadLetter
settled now none r = record r {
  status = replayed;
  replayed_at = some now;
  locked_by = none;
  locked_at = none;
}
settled now (some reason) r = record r {
  status = pending;
  attempts = r.attempts + 1;
  failure_reason = reason;
  locked_by = none;
  locked_at = none;
}

module _ (subs : List WebhookSubscription) (worker now : String)
    (deliver : WebhookDeadLetter → Option String) where
  abbrev pub held : WebhookDeadLetter → WebhookDeadLetter
  held r = record r { status = in_progress; locked_by = some worker; locked_at = some now }

  unclaimed-KeepsId : KeepsId unclaimed
  unclaimed-KeepsId r = ground arith

  settle_row :
      (c : WebhookDeadLetter) (o : Option String) (t : Table)
      → get_webhook_dead_letter_by_id c.id t ≡ some c
      → c.status ≡ in_progress
      → ((settle subs worker now deliver c o t).0 ≡ delivered o)
        × (get_webhook_dead_letter_by_id c.id (settle subs worker now deliver c o t).1
            ≡ some (settled now o c))
  settle_row c none t found busy = (refl, update_row_self c.id (marked now) t c (λ r. refl) found)
  settle_row c (some reason) t found busy =
      let f = attempted (c.attempts + 1) reason in
      let tried = update_row_self c.id f t c (λ r. refl) found in
      (
        refl,
        update_row_self c.id unclaimed (update_row c.id f t) (f c) unclaimed-KeepsId tried
            ∙ rw busy refl,
      )

  settle_other :
      (c : WebhookDeadLetter) (o : Option String) (t : Table) (j : ℕ)
      → j ≢ c.id
      → get_webhook_dead_letter_by_id j (settle subs worker now deliver c o t).1
        ≡ get_webhook_dead_letter_by_id j t
  settle_other c none t j n = update_row_other c.id j (marked now) t (λ r. refl) n
  settle_other c (some reason) t j n =
      let f = attempted (c.attempts + 1) reason in
      update_row_other c.id j unclaimed (update_row c.id f t) unclaimed-KeepsId n
      ∙ update_row_other c.id j f t (λ r. refl) n

  settle_count :
      (c : WebhookDeadLetter) (o : Option String) (t : Table)
      → get_webhook_dead_letter_by_id c.id t ≡ some c
      → c.status ≡ in_progress
      → replayed_count (settle subs worker now deliver c o t).1
        ≡ (settle subs worker now deliver c o t).0 + replayed_count t
  settle_count c none t found busy =
      let counted = replayed_count-update_row c.id (marked now) t c found in
      let zero : one_if_replayed c ≡ 0 = rw busy refl in omega (arith, counted, zero)
  settle_count c (some reason) t found busy =
      let f = attempted (c.attempts + 1) reason in
      let t' = update_row c.id f t in
      let tried = update_row_self c.id f t c (λ r. refl) found in
      let first = replayed_count-update_row c.id f t c found in
      let second = replayed_count-update_row c.id unclaimed t' (f c) tried in
      let zero : one_if_replayed c ≡ 0 = rw busy refl in
      let zero' : one_if_replayed (unclaimed (f c)) ≡ 0 = rw busy refl in
      omega (arith, first, second, zero, zero')

  -- The table with the row claimed.
  claimed_row :
      (id : ℕ) (r : WebhookDeadLetter) (t : Table)
      → get_webhook_dead_letter_by_id id t ≡ some r
      → r.status ≡ pending
      → get_webhook_dead_letter_by_id (held r).id (update_row id (claimed_by worker now) t)
        ≡ some (held r)
  claimed_row id r t found waiting =
      let there =
        update_row_self id (claimed_by worker now) t r (claimed_by-KeepsId worker now) found in
      let t' = update_row id (claimed_by worker now) t in
      let claimed : claimed_by worker now r ≡ held r = rw waiting refl in
      ap (λ i. get_webhook_dead_letter_by_id i t') (id-get_webhook_dead_letter id t r found)
      ∙ (there ∙ ap some claimed)

  settled_held :
      (o : Option String) (r : WebhookDeadLetter) → settled now o (held r) ≡ settled now o r
  settled_held none r = refl
  settled_held (some reason) r = refl

  -- After its round, a pending row whose subscription is not suspended is replayed if the delivery
  -- of the claimed row succeeds, and otherwise pending with one attempt more and the reason of the
  -- failure. The round counts 1 in the first case and 0 in the second.
  pub process_row-settles :
      (listed r : WebhookDeadLetter) (t : Table)
      → is_suspended (target subs listed) ≡ false
      → get_webhook_dead_letter_by_id listed.id t ≡ some r
      → r.status ≡ pending
      → ((process_row subs worker now deliver listed t).0 ≡ delivered (deliver (held r)))
        × (get_webhook_dead_letter_by_id listed.id (process_row subs worker now deliver listed t).1
            ≡ some (settled now (deliver (held r)) r))
  unfolding process_row
  process_row-settles listed r t active found waiting =
      let claim = claim_webhook_dead_letter_pending listed.id worker now t r found waiting in
      let t' = update_row listed.id (claimed_by worker now) t in
      let (count, there) =
        settle_row (held r) (deliver (held r)) t' (claimed_row listed.id r t found waiting) refl in
      let same : r.id ≡ listed.id = id-get_webhook_dead_letter listed.id t r found in
      let done = (settle subs worker now deliver (held r) (deliver (held r)) t').1 in
      rw active (
        rw claim (
          count,
          ap (λ i. get_webhook_dead_letter_by_id i done) (sym same)
              ∙ (there ∙ ap some (settled_held (deliver (held r)) r)),
        ))

  -- A listed row: its subscription is suspended, it cannot be claimed, or it is settled.
  process_row-cases :
      (listed : WebhookDeadLetter) (t : Table)
      → (process_row subs worker now deliver listed t ≡ (0, t))
        ⊎ ((r : WebhookDeadLetter) × (get_webhook_dead_letter_by_id listed.id t ≡ some r)
            × (r.status ≡ pending)
            × (process_row subs worker now deliver listed t
                ≡ settle subs worker now deliver
                    (held r)
                    (deliver (held r))
                    (update_row listed.id (claimed_by worker now) t)))
  unfolding process_row
  process_row-cases listed t = elim (Bool-cases (is_suspended (target subs listed))) [
    | inl off ↦ inl (rw off refl)
    | inr on ↦ elim (Option-cases (get_webhook_dead_letter_by_id listed.id t)) [
      | inl gone ↦
          inl (rw on (rw (claim_webhook_dead_letter_absent listed.id worker now t gone) refl))
      | inr (r, found) ↦ elim (status-cases r.status) [
        | inl waiting ↦
            let claim = claim_webhook_dead_letter_pending listed.id worker now t r found waiting in
            inr (r, found, waiting, rw on (rw claim refl))
        | inr taken ↦
            inl (
              rw on
                (rw (claim_webhook_dead_letter_taken listed.id worker now t r found taken) refl))
      ]
    ]
  ]

  pub process_row-keeps :
      (listed : WebhookDeadLetter) (t : Table) (j : ℕ) (q : WebhookDeadLetter)
      → get_webhook_dead_letter_by_id j t ≡ some q
      → is_pending q.status ≡ false
      → get_webhook_dead_letter_by_id j (process_row subs worker now deliver listed t).1 ≡ some q
  process_row-keeps listed t j q found busy = elim (process_row-cases listed t) [
    | inl idle ↦ rw idle found
    | inr (r, there, waiting, e) ↦
        let same : r.id ≡ listed.id = id-get_webhook_dead_letter listed.id t r there in
        let other : j ≢ listed.id = clash listed.id j t q r found busy there waiting in
        let n : j ≢ r.id = λ h. other (h ∙ same) in
        let t' = update_row listed.id (claimed_by worker now) t in
        rw e (
          settle_other (held r) (deliver (held r)) t' j n
          ∙ (update_row_other listed.id j (claimed_by worker now) t (claimed_by-KeepsId worker now)
                other
              ∙ found))
  ]

  pub process_row-counts :
      (listed : WebhookDeadLetter) (t : Table)
      → replayed_count (process_row subs worker now deliver listed t).1
        ≡ (process_row subs worker now deliver listed t).0 + replayed_count t
  process_row-counts listed t = elim (process_row-cases listed t) [
    | inl idle ↦ rw idle (omega arith)
    | inr (r, there, waiting, e) ↦
        let t' = update_row listed.id (claimed_by worker now) t in
        let before = replayed_count-update_row listed.id (claimed_by worker now) t r there in
        let zero : one_if_replayed r ≡ 0 = rw waiting refl in
        let zero' : one_if_replayed (claimed_by worker now r) ≡ 0 = rw waiting refl in
        let after =
          settle_count (held r) (deliver (held r)) t' (claimed_row listed.id r t there waiting)
            refl in
        rw e (omega (arith, before, zero, zero', after))
  ]
