-- ===== src/DeadLetters/Table.antt =====
-- The table of src/db/repositories/webhookDeadLetters.ts: the list of its rows, the newest first.
-- `id` is its primary key: a statement on one id stops at its row. Times are the texts that the
-- table stores.
pub mod Rows
use scout_off_backend.Prelude.{
  ℕ, String, Bool, true, false, Option, none, some, List, [], ◌∷◌, take, drop, ◌==◌, if◌then◌else◌,
}

pub data DeadLetterStatus : Type 0 where
  pending in_progress replayed : DeadLetterStatus

pub record WebhookDeadLetter : Type 0 where
  pub id : ℕ
  pub subscription_id : Option ℕ
  pub url : String
  pub event_type : String
  pub payload : String
  pub delivery_id : String
  pub failure_reason : String
  pub attempts : ℕ
  pub status : DeadLetterStatus
  pub locked_by : Option String
  pub locked_at : Option String
  pub created_at : String
  pub replayed_at : Option String

pub record InsertDeadLetterInput : Type 0 where
  pub subscription_id : Option ℕ
  pub url : String
  pub event_type : String
  pub payload : String
  pub delivery_id : String
  pub failure_reason : String
  pub attempts : ℕ

abbrev pub Table : Type 0
Table = List WebhookDeadLetter

abbrev pub is_pending : DeadLetterStatus → Bool
is_pending pending = true
is_pending in_progress = false
is_pending replayed = false

abbrev pub is_in_progress : DeadLetterStatus → Bool
is_in_progress pending = false
is_in_progress in_progress = true
is_in_progress replayed = false

-- `id` is the row id that the database gives, and `created_at` the column's default.
unfoldable pub insert_webhook_dead_letter : ℕ → String → InsertDeadLetterInput → Table → Table
insert_webhook_dead_letter id created_at input t =
    record {
      id = id;
      subscription_id = input.subscription_id;
      url = input.url;
      event_type = input.event_type;
      payload = input.payload;
      delivery_id = input.delivery_id;
      failure_reason = input.failure_reason;
      attempts = input.attempts;
      status = pending;
      locked_by = none;
      locked_at = none;
      created_at = created_at;
      replayed_at = none;
    }
    ∷ t

abbrev pub list_webhook_dead_letters : ℕ → ℕ → Table → List WebhookDeadLetter
list_webhook_dead_letters limit offset t = take limit (drop offset t)

unfoldable pub get_webhook_dead_letter_by_id : ℕ → Table → Option WebhookDeadLetter
get_webhook_dead_letter_by_id id [] = none
get_webhook_dead_letter_by_id id (r ∷ t) =
    if r.id == id then some r else get_webhook_dead_letter_by_id id t

-- `UPDATE ... WHERE id = ?`
unfoldable pub update_row : ℕ → (WebhookDeadLetter → WebhookDeadLetter) → Table → Table
update_row id f [] = []
update_row id f (r ∷ t) = if r.id == id then f r ∷ t else r ∷ update_row id f t

abbrev pub marked : String → WebhookDeadLetter → WebhookDeadLetter
marked now r = record r {
  status = replayed;
  replayed_at = some now;
  locked_by = none;
  locked_at = none;
}

abbrev pub mark_webhook_dead_letter_replayed : String → ℕ → Table → Table
mark_webhook_dead_letter_replayed now id t = update_row id (marked now) t

abbrev pub claimed_by : String → String → WebhookDeadLetter → WebhookDeadLetter
claimed_by worker now r =
    if is_pending r.status
    then record r { status = in_progress; locked_by = some worker; locked_at = some now }
    else r

abbrev pub claim_changes : Option WebhookDeadLetter → Bool
claim_changes none = false
claim_changes (some r) = is_pending r.status

-- The claimed row, read again after the update, or nothing if the update changed no row.
unfoldable pub claim_webhook_dead_letter :
    ℕ → String → String → Table → Option WebhookDeadLetter × Table
claim_webhook_dead_letter id worker now t =
    let t' = update_row id (claimed_by worker now) t in
    if claim_changes (get_webhook_dead_letter_by_id id t)
    then (get_webhook_dead_letter_by_id id t', t')
    else (none, t)

abbrev pub unclaimed : WebhookDeadLetter → WebhookDeadLetter
unclaimed r =
    if is_in_progress r.status
    then record r { status = pending; locked_by = none; locked_at = none }
    else r

abbrev pub release_webhook_dead_letter_claim : ℕ → Table → Table
release_webhook_dead_letter_claim id t = update_row id unclaimed t

abbrev pub attempted : ℕ → String → WebhookDeadLetter → WebhookDeadLetter
attempted attempts reason r = record r { attempts = attempts; failure_reason = reason }

abbrev pub update_webhook_dead_letter_attempt : ℕ → ℕ → String → Table → Table
update_webhook_dead_letter_attempt id attempts reason t =
    update_row id (attempted attempts reason) t
