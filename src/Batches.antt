-- ===== src/Batches.antt =====
-- The replay of a range of ledgers in batches: src/services/eventBatchProcessor.ts. What the server
-- answers, the decoder and the clock are arguments; the loop, which has no bound where the server
-- limits the rate, runs on fuel. The hooks `onProgress` and `onBatchComplete` and the waits are left
-- out, and the hooks of sizes and cancellation are functions.
pub mod Rounds
pub mod Range
pub mod Skipped
mod Examples
use scout_off_backend.Prelude.{
  ℕ, zero, suc, ◌+◌, ◌-◌, min, String, Bool, true, false, ◌&&◌, Option, none, some, List, [], ◌∷◌,
  ltb, leb, if◌then◌else◌, ◌⊎◌, inl, inr,
}
use scout_off_backend.Ordering.{RawIndexerEvent, NormalizedIndexerEvent}
use scout_off_backend.Indexer.{Payload, EventRow, Store, insert_event}

-- The answer to `getEvents`: events, an error that is a rate limit, or another error.
pub data Answer : Type 0 where
  answered : List RawIndexerEvent → Answer
  rate_limited failed : Answer

pub record Options : Type 0 where
  pub from_ledger : ℕ
  pub to_ledger : ℕ
  pub batch_size : ℕ → ℕ
  pub should_cancel : ℕ → Bool
  pub get_events : ℕ → ℕ → Answer
  pub sort : List RawIndexerEvent → List NormalizedIndexerEvent
  pub normalize_soroban_event : List String → Option String → Option (String × Payload)
  pub created_at : NormalizedIndexerEvent → ℕ

pub data Ending : Type 0 where
  completed cancelled : Ending
  decode_failed : Ending

-- `ranges` are the ledger ranges that were asked and answered, the last first; it is not in the code.
pub record Progress : Type 0 where
  pub current_batch_start : ℕ
  pub events_inserted : ℕ
  pub calls : ℕ
  pub store : Store
  pub ranges : List (ℕ × ℕ)

pub record BatchProcessorResult : Type 0 where
  pub events_inserted : ℕ
  pub ledgers_processed : ℕ
  pub ending : Ending
  pub store : Store
  pub ranges : List (ℕ × ℕ)

-- `e.ledger >= currentBatchStart && e.ledger <= batchEnd`
unfoldable pub in_range : ℕ → ℕ → List RawIndexerEvent → List RawIndexerEvent
in_range first last [] = []
in_range first last (e ∷ events) =
    let rest = in_range first last events in
    if leb first e.ledger && leb e.ledger last then e ∷ rest else rest

-- The rows have no ledger hash: the column is null, the empty text here.
abbrev batch_row : Options → String → Payload → NormalizedIndexerEvent → EventRow
batch_row o type p e = record {
  event_type = type;
  ledger = e.ledger;
  ledger_hash = "";
  tx_hash = e.tx_hash;
  payload = p;
  created_at = o.created_at e;
  tx_application_order = e.tx_application_order;
  event_index = e.event_index;
  contract_id = e.contract_id;
}

abbrev pub count_if : Bool → ℕ → ℕ
count_if true n = suc n
count_if false n = n

-- `insertBatch` in its transaction: nothing where an event does not decode, and the batch is undone.
unfoldable pub insert_batch : Options → List NormalizedIndexerEvent → ℕ → Store → Option (ℕ × Store)
insert_batch o [] n s = some (n, s)
insert_batch o (e ∷ events) n s = elim (o.normalize_soroban_event e.raw.topic e.raw.value) [
  | none ↦ none
  | some (type, p) ↦
      let (s', changed) = insert_event (batch_row o type p e) s in
      insert_batch o events (count_if changed n) s'
]

abbrev pub finish : Options → Ending → ℕ → Progress → BatchProcessorResult
finish o ending processed p = record {
  events_inserted = p.events_inserted;
  ledgers_processed = processed;
  ending = ending;
  store = p.store;
  ranges = p.ranges;
}

abbrev pub batch_end : Options → ℕ → ℕ
batch_end o start = min (start + o.batch_size (o.to_ledger - start + 1) - 1) o.to_ledger

-- The events of a batch, whether the batch is counted as asked and answered; nothing for a rate
-- limit, after which the same batch is asked again.
abbrev pub events_of : ℕ → ℕ → Answer → Option (List RawIndexerEvent × Bool)
events_of first last (answered events) = some (in_range first last events, true)
events_of first last failed = some ([], false)
events_of first last rate_limited = none

abbrev pub advance : ℕ → Bool → ℕ → ℕ → Store → Progress → Progress
advance last asked n calls s p = record {
  current_batch_start = last + 1;
  events_inserted = p.events_inserted + n;
  calls = calls;
  store = s;
  ranges = if asked then (p.current_batch_start, last) ∷ p.ranges else p.ranges;
}

-- The end of a round, or the next progress.
abbrev pub after_insert :
    Options → ℕ → Bool → Progress → Option (ℕ × Store) → BatchProcessorResult ⊎ Progress
after_insert o last asked p none =
    inl (finish o decode_failed (p.current_batch_start - o.from_ledger) p)
after_insert o last asked p (some (n, s)) = inr (advance last asked n (p.calls + 1) s p)

abbrev pub after_fetch :
    Options → ℕ → Progress → Option (List RawIndexerEvent × Bool) → BatchProcessorResult ⊎ Progress
after_fetch o last p none = inr (record p { calls = p.calls + 1 })
after_fetch o last p (some (events, asked)) =
    after_insert o last asked p (insert_batch o (o.sort events) 0 p.store)

-- One round of the loop. The count of an empty range is 0, where the code may give less.
unfoldable pub round : Options → Progress → BatchProcessorResult ⊎ Progress
unfolding insert_batch in_range
round o p =
    let start = p.current_batch_start in
    let last = batch_end o start in
    if ltb o.to_ledger start
    then inl (finish o completed (o.to_ledger + 1 - o.from_ledger) p)
    else if o.should_cancel start
    then inl (finish o cancelled (start - o.from_ledger) p)
    else after_fetch o last p (events_of start last (o.get_events p.calls start))

-- None is a loop that has not ended within the fuel.
unfoldable pub run : ℕ → Options → Progress → Option BatchProcessorResult
unfolding round
run zero o p = none
run (suc fuel) o p = elim (round o p) [ inl result ↦ some result | inr next ↦ run fuel o next ]

abbrev pub begin : Options → Store → Progress
begin o s = record {
  current_batch_start = o.from_ledger;
  events_inserted = 0;
  calls = 0;
  store = s;
  ranges = [];
}

unfoldable pub process_event_batches : ℕ → Options → Store → Option BatchProcessorResult
unfolding run
process_event_batches fuel o s = run fuel o (begin o s)
