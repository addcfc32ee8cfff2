-- ===== src/Indexer/Examples.antt =====
-- Two events of one ledger, a registration and an approval, in polls, replays and again.
use mathlib.Core.List.{Permᴰ}
use scout_off_backend.Prelude.{
  ℕ, Bool, ◌++◌, ◌+◌, ◌≡◌, refl, String, true, false, Option, none, some, List, [], ◌∷◌, str_eq,
  if◌then◌else◌, arith,
}
use scout_off_backend.Tiers.{tier_for_approved_milestones}
use scout_off_backend.Ordering.Sorting.{compare_event_ordinals}
use scout_off_backend.Ordering.Normalize.{normalize_and_sort_events, parse_event_id_ordinals}
use scout_off_backend.Ordering.Normalize.Kept.{raws_of}
use scout_off_backend.Ordering.{
  RawIndexerEvent, NormalizedIndexerEvent, group_co_transaction_events, add_events, add_event,
}
use scout_off_backend.Indexer.{
  Payload, PlayerRow, UnprocessedEventRow, Store, has_event, insert_event, get_events_count,
  get_unprocessed_event_by_id,
}
use scout_off_backend.Indexer.Effects.{
  Context, Step, applied, calls_database, side_effects, is_known_event_type, resolve_player,
}
use scout_off_backend.Indexer.Apply.{
  apply_one, apply_normalized, apply_decoded, after_insert, event_row,
}
use scout_off_backend.Indexer.Replay.{
  replay_unprocessed_event, replay_unprocessed_event-applies, IsReplayed, not_found,
}
use scout_off_backend.Indexer.Promotion.{level_of, apply_one-promotes}
use scout_off_backend.Indexer.Poll.{
  Batch, start, apply_groups, apply_group, record_step, Gauges, reorg_ledger, existing_hash,
  from_ledger_of, finish, index_events,
}
use scout_off_backend.Indexer.Accounts.{stored}
use scout_off_backend.Indexer.Poll.Flat.{poll, response}
use scout_off_backend.Indexer.Poll.Parked.{all_accounted, index_events-accounts}
use scout_off_backend.Indexer.Poll.Cursor.{cursor_is_right, index_events-cursor}
use scout_off_backend.Indexer.Poll.Repeat.{
  all_again, broadcast_again, apply_groups-repeats, apply_one-loses, reorg_ledger-tokens,
}

abbrev approval : Payload
approval field = if str_eq field "player_id" then some "p1" else none

-- The topic is the type's name here; a value decodes to the approval, and none does not decode.
abbrev decoded : List String → Option String → Option (String × Payload)
decoded [] value = none
decoded (topic ∷ topics) none = none
decoded (topic ∷ topics) (some v) = some (topic, approval)

abbrev first_topic : List String → String
first_topic [] = ""
first_topic (topic ∷ topics) = topic

abbrev up : Context
up = record {
  normalize_soroban_event = decoded;
  safe_topic_type = first_topic;
  native_topic = first_topic;
  get_time = λ t. 0;
  now = 1000;
  create_id = λ tx index. "new";
  refuses = λ tx index. false;
  refuses_parking = λ tx index. false;
}

abbrev down : Context
down = record up { refuses = λ tx index. true }

abbrev raw_approval : RawIndexerEvent
raw_approval = record {
  ledger = 70;
  tx_hash = "t";
  id = none;
  contract_id = none;
  topic = "milestone_approved" ∷ [];
  value = some "v";
  ledger_closed_at = none;
  ledger_hash = none;
  paging_token = some "70-1";
  tx_index = none;
  event_index = none;
}

abbrev raw_broken : RawIndexerEvent
raw_broken = record raw_approval { tx_hash = "u"; value = none; paging_token = some "70-2" }

abbrev event_of : RawIndexerEvent → NormalizedIndexerEvent
event_of raw = record {
  ledger = raw.ledger;
  tx_application_order = 0;
  event_index = 0;
  contract_id = "C";
  tx_hash = raw.tx_hash;
  raw = raw;
}

-- No event of the example has an id.
abbrev no_parts : String → List String
no_parts id = []

abbrev no_number : String → Option ℕ
no_number text = none

abbrev never_before : String → String → Bool
never_before s t = false

abbrev events_of : List RawIndexerEvent → List NormalizedIndexerEvent
events_of raws = normalize_and_sort_events no_parts no_number "C" never_before raws

abbrev player : PlayerRow
player = record {
  player_id = "p1";
  on_chain_player_id = none;
  wallet = "W";
  position = none;
  region = none;
  metadata_uri = none;
  progress_level = 0;
  created_at = 5;
  registered_at = 5;
}

abbrev parked_row : UnprocessedEventRow
parked_row = record {
  id = 3;
  event_type = none;
  ledger = 70;
  tx_hash = "t";
  event_index = 0;
  contract_id = "C";
  topic = "milestone_approved" ∷ [];
  value = some "v";
  reason = "decode_error";
  payload = none;
  created_at = 900;
}

abbrev before : Store
before = record {
  events = [];
  unprocessed = parked_row ∷ [];
  next_id = 4;
  players = player ∷ [];
  milestones = [];
  last_ledger = 60;
}

abbrev after : Store
after = record before {
  events = event_row up "milestone_approved" approval (event_of raw_approval) ∷ [];
}

abbrev gauges : Gauges
gauges = record { ledger_lag = 0; last_success_at = 0; poll_failures = 0 }

abbrev answered : Batch
answered = poll up events_of 10 (response 75 raw_approval (raw_broken ∷ [])) gauges before

answered_whole : answered.thrown ≡ false
unfolding index_events finish apply_groups apply_group record_step apply_one apply_normalized
    apply_decoded after_insert insert_event has_event side_effects is_known_event_type
    resolve_player reorg_ledger from_ledger_of group_co_transaction_events add_events add_event
    existing_hash normalize_and_sort_events compare_event_ordinals parse_event_id_ordinals
answered_whole = refl

-- The broken event holds the cursor at its ledger.
answered_cursor : answered.store.last_ledger ≡ 70
unfolding index_events finish apply_groups apply_group record_step apply_one apply_normalized
    apply_decoded after_insert insert_event has_event side_effects is_known_event_type
    resolve_player reorg_ledger from_ledger_of group_co_transaction_events add_events add_event
    existing_hash normalize_and_sort_events compare_event_ordinals parse_event_id_ordinals
answered_cursor = refl

index_events-accounts_example :
    Permᴰ (raws_of (events_of (raw_approval ∷ raw_broken ∷ []))) (raw_approval ∷ raw_broken ∷ [])
    × (all_accounted up (events_of (raw_approval ∷ raw_broken ∷ [])) answered.store ≡ true)
index_events-accounts_example =
    index_events-accounts no_parts no_number "C" never_before up 10 75 raw_approval
      (raw_broken ∷ []) gauges before answered_whole

index_events-cursor_example :
    cursor_is_right up
      (events_of (raw_approval ∷ raw_broken ∷ []))
      10
      60
      answered.thrown
      answered.store.last_ledger
    ≡ true
index_events-cursor_example =
    index_events-cursor up events_of 10 75 raw_approval (raw_broken ∷ []) gauges before

abbrev approvals : List NormalizedIndexerEvent
approvals = event_of raw_approval ∷ []

approvals_again : all_again up approvals after ≡ true
unfolding all_again has_event is_known_event_type
approvals_again = refl

apply_groups-repeats_example :
    ((apply_groups up (group_co_transaction_events approvals) (start after)).store ≡ after)
    × ((apply_groups up (group_co_transaction_events approvals) (start after)).broadcasts
        ≡ broadcast_again up approvals)
    × ((apply_groups up (group_co_transaction_events approvals) (start after)).webhooks ≡ [])
    × ((apply_groups up (group_co_transaction_events approvals) (start after)).invalidated ≡ [])
    × ((apply_groups up (group_co_transaction_events approvals) (start after)).thrown ≡ false)
apply_groups-repeats_example = apply_groups-repeats up approvals after approvals_again

approved_known : is_known_event_type "milestone_approved" ≡ true
unfolding is_known_event_type
approved_known = refl

approved_calls :
    calls_database "milestone_approved"
      (resolve_player down "t" 0 "milestone_approved" approval before)
    ≡ true
unfolding resolve_player
approved_calls = refl

approval_new : stored (event_of raw_approval) before ≡ false
unfolding has_event
approval_new = refl

abbrev failed : Step
failed = apply_one down (event_of raw_approval) before

apply_one-loses_example :
    (failed.outcome ≡ none)
    × (failed.store.players ≡ before.players)
    × (failed.store.milestones ≡ before.milestones)
    × ((apply_one up (event_of raw_approval) failed.store).store ≡ failed.store)
    × ((apply_one up (event_of raw_approval) failed.store).outcome ≡ some applied)
apply_one-loses_example =
    apply_one-loses down up (event_of raw_approval) before "milestone_approved" approval refl
      approved_known approval_new approved_calls refl approved_known

reorg_ledger-tokens_example :
    (l : ℕ) × (reorg_ledger 60
        (after.events ++ event_row up "milestone_approved" approval (event_of raw_broken) ∷ [])
        (raw_approval ∷ raw_broken ∷ [])
      ≡ some l)
reorg_ledger-tokens_example =
    reorg_ledger-tokens up 60 after.events (event_of raw_broken) "milestone_approved" approval []
      (raw_broken ∷ []) raw_approval "70-1" "70-2" (omega arith) refl refl refl refl refl refl refl
      refl

approved_player :
    resolve_player up "t" 0 "milestone_approved" approval before "player_id" ≡ some "p1"
unfolding resolve_player
approved_player = refl

player_level : level_of "p1" before.players ≡ some 0
unfolding level_of
player_level = refl

apply_one-promotes_example :
    level_of "p1" (apply_one up (event_of raw_approval) before).store.players
    ≡ some (
        tier_for_approved_milestones (get_events_count "milestone_approved" "p1" before.events + 1))
apply_one-promotes_example =
    apply_one-promotes up (event_of raw_approval) before approval "p1" 0 refl approval_new refl
      approved_player refl player_level

parked_here : get_unprocessed_event_by_id 3 before.unprocessed ≡ some parked_row
unfolding get_unprocessed_event_by_id
parked_here = refl

replay_unprocessed_event-applies_example :
    IsReplayed 3 parked_row (replay_unprocessed_event up 3 before)
    × ((replay_unprocessed_event up 3 (replay_unprocessed_event up 3 before).1).0 ≡ some not_found)
replay_unprocessed_event-applies_example =
    replay_unprocessed_event-applies up 3 parked_row "milestone_approved" approval before
      parked_here refl approved_known refl
