-- ===== src/Indexer/Poll.antt =====
-- The poll `indexEvents` of src/services/indexer.ts. The answer of the RPC server and the sort are
-- arguments; the code sorts by `normalize_and_sort_events` of Ordering.Normalize. A batch keeps what
-- the poll hands on: the players to invalidate, the events to broadcast and the webhooks to dispatch.
pub mod Flat
pub mod Window
pub mod Cursor
pub mod Parked
pub mod Repeat
use scout_off_backend.Prelude.{
  ℕ, ◌+◌, ◌-◌, String, Bool, true, false, not, ◌&&◌, Option, none, some, List, [], ◌∷◌, ◌++◌, ◌==◌,
  ltb, leb, str_eq, if◌then◌else◌,
}
use scout_off_backend.Ordering.{
  RawIndexerEvent, NormalizedIndexerEvent, group_co_transaction_events,
}
use scout_off_backend.Indexer.{EventRow, Store, rollback_events_from_ledger}
use scout_off_backend.Indexer.Effects.{
  Context, Step, WebhookEvent, IndexerEventOutcome, applied, unknown_type, decode_error,
  is_known_event_type, is_broadcast_type, truthy,
}
use scout_off_backend.Indexer.Apply.{apply_one, incoming_hash}

pub record Batch : Type 0 where
  pub store : Store
  pub invalidated : List String
  pub webhooks : List WebhookEvent
  pub broadcasts : List NormalizedIndexerEvent
  pub earliest_known_failure_ledger : Option ℕ
  pub thrown : Bool

abbrev pub earlier : Option ℕ → ℕ → Option ℕ
earlier none ledger = some ledger
earlier (some l) ledger = if ltb ledger l then some ledger else some l

-- A decode error of a recognised type.
abbrev pub holds_cursor : Context → NormalizedIndexerEvent → IndexerEventOutcome → Bool
holds_cursor c e applied = false
holds_cursor c e unknown_type = false
holds_cursor c e decode_error = is_known_event_type (c.safe_topic_type e.raw.topic)

-- `broadcastIndexedEvent`, of the events of a batch that are applied.
abbrev pub broadcast_of :
    Context → NormalizedIndexerEvent → IndexerEventOutcome → List NormalizedIndexerEvent
broadcast_of c e applied = if is_broadcast_type (c.native_topic e.raw.topic) then e ∷ [] else []
broadcast_of c e unknown_type = []
broadcast_of c e decode_error = []

unfoldable pub record_step : Context → NormalizedIndexerEvent → Step → Batch → Batch
record_step c e st b = elim st.outcome [
  | none ↦ record b {
    store = st.store;
    earliest_known_failure_ledger = earlier b.earliest_known_failure_ledger e.ledger;
    thrown = true;
  }
  | some o ↦ record b {
    store = st.store;
    invalidated = b.invalidated ++ st.invalidated;
    webhooks = b.webhooks ++ st.webhooks;
    broadcasts = b.broadcasts ++ broadcast_of c e o;
    earliest_known_failure_ledger =
        if holds_cursor c e o
        then earlier b.earliest_known_failure_ledger e.ledger
        else b.earliest_known_failure_ledger;
  }
]

-- The inner loop; an exception ends it.
unfoldable pub apply_group : Context → List NormalizedIndexerEvent → Batch → Batch
unfolding record_step apply_one
apply_group c [] b = b
apply_group c (e ∷ events) b =
    let b' = record_step c e (apply_one c e b.store) b in
    if b'.thrown then b' else apply_group c events b'

unfoldable pub apply_groups : Context → List (List NormalizedIndexerEvent) → Batch → Batch
unfolding apply_group
apply_groups c [] b = b
apply_groups c (group ∷ groups) b =
    let b' = apply_group c group b in if b'.thrown then b' else apply_groups c groups b'

abbrev pub start : Store → Batch
start s = record {
  store = s;
  invalidated = [];
  webhooks = [];
  broadcasts = [];
  earliest_known_failure_ledger = none;
  thrown = false;
}

-- The map of ledger hashes: the last row of a ledger that has one wins.
unfoldable pub existing_hash : ℕ → List EventRow → ℕ → Option String
existing_hash from_ledger [] ledger = none
existing_hash from_ledger (r ∷ rows) ledger = elim (existing_hash from_ledger rows ledger) [
  | some hash ↦ some hash
  | none ↦
      if leb from_ledger r.ledger && (r.ledger == ledger && truthy r.ledger_hash)
      then some r.ledger_hash
      else none
]

-- `existingHash && incomingHash && existingHash !== incomingHash`
abbrev pub conflicts : Option String → String → Bool
conflicts none incoming = false
conflicts (some hash) incoming = truthy incoming && not (str_eq hash incoming)

unfoldable pub reorg_ledger : ℕ → List EventRow → List RawIndexerEvent → Option ℕ
unfolding existing_hash
reorg_ledger from_ledger rows [] = none
reorg_ledger from_ledger rows (raw ∷ raws) =
    if conflicts (existing_hash from_ledger rows raw.ledger) (incoming_hash raw)
    then some raw.ledger
    else reorg_ledger from_ledger rows raws

abbrev pub roll_back : Option ℕ → Store → Store
roll_back none s = s
roll_back (some ledger) s = rollback_events_from_ledger ledger s

unfoldable pub from_ledger_of : ℕ → ℕ → ℕ
from_ledger_of margin last_indexed = if ltb margin last_indexed then last_indexed - margin else 0

abbrev pub last_ledger_of : List NormalizedIndexerEvent → ℕ
last_ledger_of [] = 0
last_ledger_of (e ∷ []) = e.ledger
last_ledger_of (e ∷ f ∷ events) = last_ledger_of (f ∷ events)

abbrev pub cursor_of : Option ℕ → ℕ → ℕ
cursor_of none latest = latest + 1
cursor_of (some ledger) latest = ledger

pub record Response : Type 0 where
  pub latest_ledger : ℕ
  pub events : List RawIndexerEvent

-- `indexerLedgerLag`, `indexerLastSuccessAt` and `indexerPollFailuresTotal`.
pub record Gauges : Type 0 where
  pub ledger_lag : ℕ
  pub last_success_at : ℕ
  pub poll_failures : ℕ

abbrev pub lag_after_poll : ℕ → ℕ → ℕ
lag_after_poll latest last_indexed =
    latest - (if ltb 0 last_indexed then last_indexed - 1 else latest)

-- The poll after a batch: an exception leaves the cursor and dispatches nothing.
unfoldable pub finish :
    Context → Response → List NormalizedIndexerEvent → Gauges → Batch → Batch × Gauges
finish c resp ordered g b =
    if b.thrown
    then (
      record b { webhooks = [] },
      record g {
        ledger_lag = lag_after_poll resp.latest_ledger b.store.last_ledger;
        poll_failures = g.poll_failures + 1;
      },
    )
    else (
      record b {
        store = record b.store {
          last_ledger = cursor_of b.earliest_known_failure_ledger (last_ledger_of ordered);
        };
      },
      record g {
        ledger_lag = resp.latest_ledger - last_ledger_of ordered;
        last_success_at = c.now;
      },
    )

-- A poll; `none` is a call of the server that throws. `sort` stands for `normalize_and_sort_events`.
unfoldable pub index_events :
    Context
    → (List RawIndexerEvent → List NormalizedIndexerEvent)
    → ℕ
    → Option Response
    → Gauges
    → Store
    → Batch × Gauges
unfolding finish apply_groups reorg_ledger from_ledger_of
index_events c sort margin none g s =
    (record (start s) { thrown = true }, record g { poll_failures = g.poll_failures + 1 })
index_events c sort margin (some resp) g s = elim resp.events [
  | [] ↦ (
    start s,
    record g {
      ledger_lag = lag_after_poll resp.latest_ledger s.last_ledger;
      last_success_at = c.now;
    },
  )
  | raw ∷ raws ↦
      let ordered = sort (raw ∷ raws) in
      let reorg = reorg_ledger (from_ledger_of margin s.last_ledger) s.events (raw ∷ raws) in
      finish c resp ordered g
        (apply_groups c (group_co_transaction_events ordered) (start (roll_back reorg s)))
]
