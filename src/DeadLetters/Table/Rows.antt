-- ===== src/DeadLetters/Table/Rows.antt =====
-- Reading a row of the table after a statement on it, or on another row.
use scout_off_backend.Prelude.{
  ℕ, ◌≡◌, ◌≢◌, refl, sym, ap, ◌∙◌, ◌+◌, String, true, false, none, some, [], ◌∷◌, ◌==◌, arith,
  ==_iff, Bool-cases, inl, inr,
}
use scout_off_backend.DeadLetters.Table.{
  WebhookDeadLetter, Table, pending, in_progress, replayed, get_webhook_dead_letter_by_id,
  update_row, claim_webhook_dead_letter, is_pending, claimed_by,
}

-- The function keeps the id.
abbrev pub KeepsId : (WebhookDeadLetter → WebhookDeadLetter) → Type 0
KeepsId f = (r : WebhookDeadLetter) → (f r).id ≡ r.id

pub update_row_self :
    (id : ℕ) (f : WebhookDeadLetter → WebhookDeadLetter) (t : Table) (r : WebhookDeadLetter)
    → KeepsId f
    → get_webhook_dead_letter_by_id id t ≡ some r
    → get_webhook_dead_letter_by_id id (update_row id f t) ≡ some (f r)
unfolding update_row get_webhook_dead_letter_by_id
update_row_self id f [] r keeps found = cc found
update_row_self id f (q ∷ t) r keeps found =
    ground (arith, keeps q, found, update_row_self id f t r keeps)

pub update_row_other :
    (id j : ℕ) (f : WebhookDeadLetter → WebhookDeadLetter) (t : Table)
    → KeepsId f
    → j ≢ id
    → get_webhook_dead_letter_by_id j (update_row id f t) ≡ get_webhook_dead_letter_by_id j t
unfolding update_row get_webhook_dead_letter_by_id
update_row_other id j f [] keeps n = refl
update_row_other id j f (q ∷ t) keeps n =
    ground (arith, keeps q, n, update_row_other id j f t keeps n)

pub claimed_by-KeepsId : (worker now : String) → KeepsId (claimed_by worker now)
claimed_by-KeepsId worker now r = ground arith

-- A claim of a pending row marks it, and returns it as it is then.
pub claim_webhook_dead_letter_pending :
    (id : ℕ) (worker now : String) (t : Table) (r : WebhookDeadLetter)
    → get_webhook_dead_letter_by_id id t ≡ some r
    → r.status ≡ pending
    → claim_webhook_dead_letter id worker now t ≡ (
      some (record r { status = in_progress; locked_by = some worker; locked_at = some now }),
      update_row id (claimed_by worker now) t,
    )
unfolding claim_webhook_dead_letter
claim_webhook_dead_letter_pending id worker now t r found waiting =
    let after =
      update_row_self id (claimed_by worker now) t r (claimed_by-KeepsId worker now) found in
    rw after (rw found (rw waiting refl))

-- A claim of a row that is not pending changes nothing.
pub claim_webhook_dead_letter_taken :
    (id : ℕ) (worker now : String) (t : Table) (r : WebhookDeadLetter)
    → get_webhook_dead_letter_by_id id t ≡ some r
    → is_pending r.status ≡ false
    → claim_webhook_dead_letter id worker now t ≡ (none, t)
unfolding claim_webhook_dead_letter
claim_webhook_dead_letter_taken id worker now t r found taken = rw found (rw taken refl)

read_here :
    (id : ℕ) (q : WebhookDeadLetter) (t : Table)
    → (q.id == id) ≡ true
    → get_webhook_dead_letter_by_id id (q ∷ t) ≡ some q
unfolding get_webhook_dead_letter_by_id
read_here id q t here = rw here refl

read_there :
    (id : ℕ) (q : WebhookDeadLetter) (t : Table)
    → (q.id == id) ≡ false
    → get_webhook_dead_letter_by_id id (q ∷ t) ≡ get_webhook_dead_letter_by_id id t
unfolding get_webhook_dead_letter_by_id
read_there id q t there = rw there refl

pub id-get_webhook_dead_letter :
    (id : ℕ) (t : Table) (r : WebhookDeadLetter)
    → get_webhook_dead_letter_by_id id t ≡ some r
    → r.id ≡ id
unfolding get_webhook_dead_letter_by_id
id-get_webhook_dead_letter id [] r found = cc found
id-get_webhook_dead_letter id (q ∷ t) r found = elim (Bool-cases (q.id == id)) [
  | inl here ↦
      let e : q ≡ r = cc (sym (read_here id q t here) ∙ found) in
      ap (λ x. x.id) (sym e) ∙ (==_iff q.id id).0 here
  | inr there ↦ id-get_webhook_dead_letter id t r (sym (read_there id q t there) ∙ found)
]

abbrev pub one_if_replayed : WebhookDeadLetter → ℕ
one_if_replayed r = elim r.status [ pending ↦ 0 | in_progress ↦ 0 | replayed ↦ 1 ]

-- The number of rows that have been replayed.
unfoldable pub replayed_count : Table → ℕ
replayed_count [] = 0
replayed_count (r ∷ t) = one_if_replayed r + replayed_count t

pub replayed_count-update_row :
    (id : ℕ) (f : WebhookDeadLetter → WebhookDeadLetter) (t : Table) (r : WebhookDeadLetter)
    → get_webhook_dead_letter_by_id id t ≡ some r
    → replayed_count (update_row id f t) + one_if_replayed r
      ≡ replayed_count t + one_if_replayed (f r)
unfolding replayed_count update_row get_webhook_dead_letter_by_id
replayed_count-update_row id f [] r found = cc found
replayed_count-update_row id f (q ∷ t) r found = elim (Bool-cases (q.id == id)) [
  | inl here ↦
      let e : q ≡ r = cc (sym (read_here id q t here) ∙ found) in rw (sym e) (rw here (omega arith))
  | inr there ↦
      let ih = replayed_count-update_row id f t r (sym (read_there id q t there) ∙ found) in
      rw there (omega (arith, ih))
]

pub claim_webhook_dead_letter_absent :
    (id : ℕ) (worker now : String) (t : Table)
    → get_webhook_dead_letter_by_id id t ≡ none
    → claim_webhook_dead_letter id worker now t ≡ (none, t)
unfolding claim_webhook_dead_letter
claim_webhook_dead_letter_absent id worker now t gone = rw gone refl
