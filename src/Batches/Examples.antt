-- ===== src/Batches/Examples.antt =====
-- A job of five ledgers in batches of two, with a server that answers and one that is down.
use scout_off_backend.Prelude.{◌+◌, ◌≡◌, refl, true, false, none, some, [], arith}
use scout_off_backend.Ordering.Normalize.{normalize_and_sort_events}
use scout_off_backend.Indexer.{Store}
use scout_off_backend.Batches.{
  Options, answered, failed, BatchProcessorResult, process_event_batches,
}
use scout_off_backend.Batches.Range.{tiles, process_event_batches-covers}
use scout_off_backend.Batches.Skipped.{nothing_done, process_event_batches-skips}

abbrev quiet : Options
quiet = record {
  from_ledger = 10;
  to_ledger = 14;
  batch_size = λ remaining. 2;
  should_cancel = λ start. false;
  get_events = λ calls start. answered [];
  sort = normalize_and_sort_events (λ id. []) (λ text. none) "C" (λ s t. false);
  normalize_soroban_event = λ topic value. none;
  created_at = λ e. 0;
}

abbrev down : Options
down = record quiet { get_events = λ calls start. failed }

abbrev empty : Store
empty = record {
  events = [];
  unprocessed = [];
  next_id = 1;
  players = [];
  milestones = [];
  last_ledger = 0;
}

process_event_batches-covers_example :
    (r : BatchProcessorResult) × (process_event_batches 6 quiet empty ≡ some r)
    × (tiles 10 r.ranges (10 + r.ledgers_processed) ≡ true)
process_event_batches-covers_example =
    process_event_batches-covers quiet empty ((λ calls start. refl), λ remaining. omega arith)
      (λ calls start. refl) (omega arith)

process_event_batches-skips_example :
    process_event_batches 6 down empty ≡ some (nothing_done down empty)
unfolding normalize_and_sort_events
process_event_batches-skips_example =
    process_event_batches-skips down empty
      ((λ calls start. refl), (λ start. refl), (λ remaining. omega arith), refl) (omega arith)
