-- ===== src/Indexer.antt =====
-- The tables that the indexer writes: those of src/services/indexer.ts in
-- src/db/repositories/events.ts, players.ts and indexerState.ts. A table is the list of its rows in
-- the order of their insertion. A payload maps a field's name to its text; in JavaScript an absent
-- field and an empty text are both false. The apply step is in `Apply`, the poll in `Poll`.
pub mod Effects
pub mod Apply
pub mod Rows
pub mod Accounts
pub mod Poll
pub mod Replay
pub mod Promotion
mod Examples
use scout_off_backend.Prelude.{
  ℕ, suc, ◌+◌, String, Bool, true, false, ◌&&◌, ◌||◌, Option, none, some, List, [], ◌∷◌, ◌++◌, ◌==◌,
  ltb, str_eq, if◌then◌else◌,
}

abbrev pub Payload : Type 0
Payload = String → Option String

pub record EventRow : Type 0 where
  pub event_type : String
  pub ledger : ℕ
  pub ledger_hash : String
  pub tx_hash : String
  pub payload : Payload
  pub created_at : ℕ
  pub tx_application_order : ℕ
  pub event_index : ℕ
  pub contract_id : String

pub record UnprocessedEventRow : Type 0 where
  pub id : ℕ
  pub event_type : Option String
  pub ledger : ℕ
  pub tx_hash : String
  pub event_index : ℕ
  pub contract_id : String
  pub topic : List String
  pub value : Option String
  pub reason : String
  pub payload : Option Payload
  pub created_at : ℕ

pub record PlayerRow : Type 0 where
  pub player_id : String
  pub on_chain_player_id : Option String
  pub wallet : String
  pub position : Option String
  pub region : Option String
  pub metadata_uri : Option String
  pub progress_level : ℕ
  pub created_at : ℕ
  pub registered_at : ℕ

pub record PendingMilestoneRow : Type 0 where
  pub milestone_id : String
  pub player_id : String
  pub validator_wallet : String
  pub milestone_type : String
  pub evidence_uri : String
  pub submitted_at : ℕ

-- `next_id` is the id that the table of unprocessed events gives next.
pub record Store : Type 0 where
  pub events : List EventRow
  pub unprocessed : List UnprocessedEventRow
  pub next_id : ℕ
  pub players : List PlayerRow
  pub milestones : List PendingMilestoneRow
  pub last_ledger : ℕ

-- The unique index on (tx_hash, event_index).
unfoldable pub has_event : String → ℕ → List EventRow → Bool
has_event tx index [] = false
has_event tx index (r ∷ rows) =
    (str_eq r.tx_hash tx && r.event_index == index) || has_event tx index rows

-- `INSERT OR IGNORE INTO events`, with `changes > 0`.
unfoldable pub insert_event : EventRow → Store → Store × Bool
insert_event r s =
    if has_event r.tx_hash r.event_index s.events
    then (s, false)
    else (record s { events = s.events ++ r ∷ [] }, true)

-- `DELETE FROM events WHERE ledger >= ?`
unfoldable pub below_ledger : ℕ → List EventRow → List EventRow
below_ledger ledger [] = []
below_ledger ledger (r ∷ rows) =
    let rest = below_ledger ledger rows in if ltb r.ledger ledger then r ∷ rest else rest

unfoldable pub rollback_events_from_ledger : ℕ → Store → Store
unfolding below_ledger
rollback_events_from_ledger ledger s = record s { events = below_ledger ledger s.events }

abbrev pub holds : Option String → String → Bool
holds none text = false
holds (some value) text = str_eq value text

-- `getEventsCount(type, { payloadFilter: { player_id } })`
unfoldable pub get_events_count : String → String → List EventRow → ℕ
get_events_count type player_id [] = 0
get_events_count type player_id (r ∷ rows) =
    let rest = get_events_count type player_id rows in
    if str_eq r.event_type type && holds (r.payload "player_id") player_id then suc rest else rest

-- `ON CONFLICT (tx_hash, event_index) DO UPDATE`: the row keeps its id.
unfoldable pub upsert_unprocessed :
    UnprocessedEventRow → List UnprocessedEventRow → List UnprocessedEventRow
upsert_unprocessed p [] = p ∷ []
upsert_unprocessed p (r ∷ rows) =
    if str_eq r.tx_hash p.tx_hash && r.event_index == p.event_index
    then record p { id = r.id } ∷ rows
    else r ∷ upsert_unprocessed p rows

unfoldable pub insert_unprocessed_event : UnprocessedEventRow → Store → Store
unfolding upsert_unprocessed
insert_unprocessed_event p s = record s {
  unprocessed = upsert_unprocessed (record p { id = s.next_id }) s.unprocessed;
  next_id = s.next_id + 1;
}

unfoldable pub get_unprocessed_event_by_id :
    ℕ → List UnprocessedEventRow → Option UnprocessedEventRow
get_unprocessed_event_by_id id [] = none
get_unprocessed_event_by_id id (r ∷ rows) =
    if r.id == id then some r else get_unprocessed_event_by_id id rows

unfoldable pub without_id : ℕ → List UnprocessedEventRow → List UnprocessedEventRow
without_id id [] = []
without_id id (r ∷ rows) = let rest = without_id id rows in if r.id == id then rest else r ∷ rest

unfoldable pub delete_unprocessed_event : ℕ → Store → Store
unfolding without_id
delete_unprocessed_event id s = record s { unprocessed = without_id id s.unprocessed }

unfoldable pub get_player_by_wallet : String → List PlayerRow → Option PlayerRow
get_player_by_wallet wallet [] = none
get_player_by_wallet wallet (r ∷ rows) =
    if str_eq r.wallet wallet then some r else get_player_by_wallet wallet rows

unfoldable pub get_player_by_on_chain_id : String → List PlayerRow → Option PlayerRow
get_player_by_on_chain_id id [] = none
get_player_by_on_chain_id id (r ∷ rows) =
    if holds r.on_chain_player_id id then some r else get_player_by_on_chain_id id rows

abbrev pub coalesce : Option String → Option String → Option String
coalesce none b = b
coalesce (some a) b = some a

-- `ON CONFLICT(player_id) DO UPDATE`: the level and the times of the row stay.
unfoldable pub insert_or_update_player : PlayerRow → List PlayerRow → List PlayerRow
insert_or_update_player p [] = p ∷ []
insert_or_update_player p (r ∷ rows) =
    if str_eq r.player_id p.player_id
    then record r {
      on_chain_player_id = coalesce p.on_chain_player_id r.on_chain_player_id;
      wallet = p.wallet;
      position = p.position;
      region = p.region;
      metadata_uri = p.metadata_uri;
    }
      ∷ rows
    else r ∷ insert_or_update_player p rows

unfoldable pub update_player_progress : String → ℕ → List PlayerRow → List PlayerRow
update_player_progress player_id level [] = []
update_player_progress player_id level (r ∷ rows) =
    let rest = update_player_progress player_id level rows in
    (if str_eq r.player_id player_id then record r { progress_level = level } else r) ∷ rest

-- `ON CONFLICT (milestone_id) DO NOTHING`
unfoldable pub insert_pending_milestone :
    PendingMilestoneRow → List PendingMilestoneRow → List PendingMilestoneRow
insert_pending_milestone p [] = p ∷ []
insert_pending_milestone p (r ∷ rows) =
    if str_eq r.milestone_id p.milestone_id then r ∷ rows else r ∷ insert_pending_milestone p rows
