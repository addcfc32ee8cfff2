-- ===== src/Indexer/Apply.antt =====
-- `applyOne` of src/services/indexer.ts: decode, classify, insert, and the side effects of a new
-- row. What the decoder, the clock, the random ids and the database answer is a `Context`. The span,
-- the metrics and the logs are left out. `recordUnappliedEvent` does not throw:
-- where the insert of its row fails, it leaves the table as it was.
use scout_off_backend.Prelude.{
  ℕ, String, Bool, true, false, not, ◌&&◌, Option, none, some, [], if◌then◌else◌,
}
use scout_off_backend.Ordering.{RawIndexerEvent, NormalizedIndexerEvent}
use scout_off_backend.Indexer.{
  Payload, EventRow, UnprocessedEventRow, Store, insert_event, insert_unprocessed_event,
}
use scout_off_backend.Indexer.Effects.{
  Context, Step, applied, unknown_type, decode_error, is_known_event_type, truthy, resolve_player,
  side_effects, calls_database, invalidations, webhooks_of,
}

abbrev or_else : Option String → String → String
or_else none d = d
or_else (some t) d = t

abbrev pub incoming_hash : RawIndexerEvent → String
incoming_hash raw = or_else raw.ledger_hash (or_else raw.paging_token raw.tx_hash)

abbrev pub closed_at : Context → Option String → ℕ
closed_at c none = c.now
closed_at c (some t) = if truthy t then c.get_time t else c.now

abbrev pub event_row : Context → String → Payload → NormalizedIndexerEvent → EventRow
event_row c type p e = record {
  event_type = type;
  ledger = e.ledger;
  ledger_hash = incoming_hash e.raw;
  tx_hash = e.tx_hash;
  payload = p;
  created_at = closed_at c e.raw.ledger_closed_at;
  tx_application_order = e.tx_application_order;
  event_index = e.event_index;
  contract_id = e.contract_id;
}

-- The row that `recordUnappliedEvent` inserts; the table gives the id.
abbrev pub unprocessed_event_row :
    Context → NormalizedIndexerEvent → Option String → String → Option Payload → UnprocessedEventRow
unprocessed_event_row c e type reason p = record {
  id = 0;
  event_type = type;
  ledger = e.ledger;
  tx_hash = e.tx_hash;
  event_index = e.event_index;
  contract_id = e.contract_id;
  topic = e.raw.topic;
  value = e.raw.value;
  reason = reason;
  payload = p;
  created_at = c.now;
}

unfoldable pub record_unapplied_event :
    Context → NormalizedIndexerEvent → Option String → String → Option Payload → Store → Store
record_unapplied_event c e type reason p s =
    if c.refuses_parking e.tx_hash e.event_index
    then s
    else insert_unprocessed_event (unprocessed_event_row c e type reason p) s

abbrev pub topic_type : Context → NormalizedIndexerEvent → Option String
topic_type c e =
    if truthy (c.safe_topic_type e.raw.topic) then some (c.safe_topic_type e.raw.topic) else none

-- The step after the insert, of a row that is new or not.
unfoldable pub after_insert :
    Context → String → Payload → NormalizedIndexerEvent → Store × Bool → Step
after_insert c type p e (s, false) = record {
  store = s;
  invalidated = [];
  webhooks = [];
  outcome = some (if is_known_event_type type then applied else unknown_type);
}
after_insert c type p e (s, true) =
    if not (is_known_event_type type)
    then record { store = s; invalidated = []; webhooks = []; outcome = some unknown_type }
    else if calls_database type p && c.refuses e.tx_hash e.event_index
    then record { store = s; invalidated = []; webhooks = []; outcome = none }
    else record {
      store = side_effects type p (closed_at c e.raw.ledger_closed_at) e.raw.ledger s;
      invalidated = invalidations type p;
      webhooks = webhooks_of type p e;
      outcome = some applied;
    }

-- The rest of the step, of a decoded event.
unfoldable pub apply_decoded : Context → NormalizedIndexerEvent → String → Payload → Store → Step
unfolding after_insert record_unapplied_event
apply_decoded c e type decoded s =
    let parked =
      if is_known_event_type type
      then s
      else record_unapplied_event c e (some type) "unknown_type" (some decoded) s in
    let p = resolve_player c e.tx_hash e.event_index type decoded parked in
    after_insert c type p e (insert_event (event_row c type p e) parked)

-- The step on what the decoder gives.
unfoldable pub apply_normalized :
    Context → NormalizedIndexerEvent → Option (String × Payload) → Store → Step
unfolding apply_decoded record_unapplied_event
apply_normalized c e none s = record {
  store = record_unapplied_event c e (topic_type c e) "decode_error" none s;
  invalidated = [];
  webhooks = [];
  outcome = some decode_error;
}
apply_normalized c e (some (type, p)) s = apply_decoded c e type p s

unfoldable pub apply_one : Context → NormalizedIndexerEvent → Store → Step
unfolding apply_normalized
apply_one c e s = apply_normalized c e (c.normalize_soroban_event e.raw.topic e.raw.value) s
