-- ===== src/Indexer/Replay.antt =====
-- `replayUnprocessedEvent` of src/services/indexer.ts. A parked row keeps the topic and the value of
-- its event. A refused side effect is an exception: the result is nothing.
use scout_off_backend.Prelude.{
  ℕ, ◌≡◌, refl, sym, ap, ◌∙◌, String, Bool, true, false, not, ◌&&◌, Option, none, some, List, [],
  ◌∷◌, ◌==◌, str_eq, if◌then◌else◌, Bool-cases, inl, inr,
}
use mathlib.Core.Path.{subst}
use scout_off_backend.Indexer.Poll.Repeat.{is_known_as}
use scout_off_backend.Indexer.{
  Payload, EventRow, UnprocessedEventRow, Store, has_event, insert_event, without_id,
  get_unprocessed_event_by_id, delete_unprocessed_event,
}
use scout_off_backend.Indexer.Effects.{
  Context, is_known_event_type, truthy, text, resolve_player, side_effects, calls_database,
}
use scout_off_backend.Indexer.Rows.{has_event-insert_event_self, side_effects-tables}

pub data ReplayStatus : Type 0 where
  replayed still_failing not_found : ReplayStatus

abbrev replayed_row : Context → String → Payload → UnprocessedEventRow → EventRow
replayed_row c type p r = record {
  event_type = type;
  ledger = r.ledger;
  ledger_hash = r.tx_hash;
  tx_hash = r.tx_hash;
  payload = p;
  created_at = c.now;
  tx_application_order = 0;
  event_index = r.event_index;
  contract_id = r.contract_id;
}

-- A registration without a player id has no side effect here.
abbrev pub has_effects : String → Payload → Bool
has_effects type p = not (str_eq type "player_registered" && not (truthy (text p "player_id")))

-- The end of a replay: whether there are side effects, and whether the database refuses them.
unfoldable pub settle_replay :
    Context → ℕ → String → Payload → ℕ → Bool → Bool → Store → Option ReplayStatus × Store
settle_replay c id type p ledger false refused s = (some replayed, delete_unprocessed_event id s)
settle_replay c id type p ledger true true s = (none, s)
settle_replay c id type p ledger true false s =
    (some replayed, delete_unprocessed_event id (side_effects type p c.now ledger s))

-- The replay of a decoded row of a recognised type; the side effects run on an old row too.
unfoldable pub replay_decoded :
    Context → ℕ → UnprocessedEventRow → String → Payload → Store → Option ReplayStatus × Store
unfolding settle_replay
replay_decoded c id r type decoded s =
    let p = resolve_player c r.tx_hash r.event_index type decoded s in
    let refused = calls_database type p && c.refuses r.tx_hash r.event_index in
    settle_replay c id type p r.ledger (has_effects type p) refused
      (insert_event (replayed_row c type p r) s).0

unfoldable pub replay_normalized :
    Context
    → ℕ
    → UnprocessedEventRow
    → Option (String × Payload)
    → Store
    → Option ReplayStatus × Store
unfolding replay_decoded
replay_normalized c id r none s = (some still_failing, s)
replay_normalized c id r (some (type, p)) s =
    if is_known_event_type type then replay_decoded c id r type p s else (some still_failing, s)

abbrev pub replay_row :
    Context → ℕ → Option UnprocessedEventRow → Store → Option ReplayStatus × Store
replay_row c id none s = (some not_found, s)
replay_row c id (some r) s = replay_normalized c id r (c.normalize_soroban_event r.topic r.value) s

unfoldable pub replay_unprocessed_event : Context → ℕ → Store → Option ReplayStatus × Store
unfolding replay_normalized
replay_unprocessed_event c id s = replay_row c id (get_unprocessed_event_by_id id s.unprocessed) s

get-without_id :
    (id : ℕ) (rows : List UnprocessedEventRow)
    → get_unprocessed_event_by_id id (without_id id rows) ≡ none
unfolding get_unprocessed_event_by_id without_id
get-without_id id [] = refl
get-without_id id (r ∷ rows) = elim (Bool-cases (r.id == id)) [
  | inl here ↦ rw here (get-without_id id rows)
  | inr there ↦ rw there (rw there (get-without_id id rows))
]

-- What a replay leaves: the event's row, and no parked row.
abbrev pub IsReplayed : ℕ → UnprocessedEventRow → Option ReplayStatus × Store → Type 0
IsReplayed id r (status, s) =
    (status ≡ some replayed)
    × (has_event r.tx_hash r.event_index s.events ≡ true)
    × (get_unprocessed_event_by_id id s.unprocessed ≡ none)

settle_replay-IsReplayed :
    (c : Context) (id : ℕ) (r : UnprocessedEventRow) (type : String) (p : Payload) (due : Bool)
    (s : Store)
    → has_event r.tx_hash r.event_index s.events ≡ true
    → IsReplayed id r (settle_replay c id type p r.ledger due false s)
unfolding settle_replay delete_unprocessed_event
settle_replay-IsReplayed c id r type p false s here = (refl, here, get-without_id id s.unprocessed)
settle_replay-IsReplayed c id r type p true s here =
    let done = side_effects type p c.now r.ledger s in
    (
      refl,
      rw ((side_effects-tables type p c.now r.ledger s).0) here,
      get-without_id id done.unprocessed,
    )

and_false : (b : Bool) → b && false ≡ false
and_false true = refl
and_false false = refl

replay_decoded-IsReplayed :
    (c : Context) (id : ℕ) (r : UnprocessedEventRow) (type : String) (p : Payload) (s : Store)
    → c.refuses r.tx_hash r.event_index ≡ false
    → IsReplayed id r (replay_decoded c id r type p s)
unfolding replay_decoded
replay_decoded-IsReplayed c id r type decoded s accepted =
    let p = resolve_player c r.tx_hash r.event_index type decoded s in
    let row = replayed_row c type p r in
    let calls = calls_database type p in
    let kept : calls && c.refuses r.tx_hash r.event_index ≡ false =
      ap (λ b. calls && b) accepted ∙ and_false calls in
    subst
      (λ b.
        IsReplayed id r
          (settle_replay c id type p r.ledger (has_effects type p) b (insert_event row s).0))
      (sym kept)
      (settle_replay-IsReplayed c id r type p (has_effects type p) (insert_event row s).0
        (has_event-insert_event_self row s))

-- The replay of a parked row that now decodes under a recognised type, and whose side effects are
-- not refused, answers applied, leaves a row of the events with its transaction and index, and no
-- parked row with its id: a second replay answers not found.
pub replay_unprocessed_event-applies :
    (c : Context) (id : ℕ) (r : UnprocessedEventRow) (type : String) (p : Payload) (s : Store)
    → get_unprocessed_event_by_id id s.unprocessed ≡ some r
    → c.normalize_soroban_event r.topic r.value ≡ some (type, p)
    → is_known_event_type type ≡ true
    → c.refuses r.tx_hash r.event_index ≡ false
    → IsReplayed id r (replay_unprocessed_event c id s)
      × ((replay_unprocessed_event c id (replay_unprocessed_event c id s).1).0 ≡ some not_found)
unfolding replay_unprocessed_event replay_normalized
replay_unprocessed_event-applies c id r type p s found decoded known accepted =
    let once : replay_unprocessed_event c id s ≡ replay_decoded c id r type p s =
      rw found (rw decoded (rw known refl)) in
    let (status, here, gone) = replay_decoded-IsReplayed c id r type p s accepted in
    rw (once, replay_unprocessed_event) ((status, here, gone), rw gone refl)

still :
    (c : Context) (id : ℕ) (r : UnprocessedEventRow) (o : Option (String × Payload)) (s : Store)
    → is_known_as o ≡ false
    → replay_normalized c id r o s ≡ (some still_failing, s)
unfolding replay_normalized
still c id r none s h = refl
still c id r (some (type, p)) s h = rw h refl

-- A replay of a row that does not decode, or decodes under no recognised type, changes nothing.
pub replay_unprocessed_event-keeps :
    (c : Context) (id : ℕ) (r : UnprocessedEventRow) (s : Store)
    → get_unprocessed_event_by_id id s.unprocessed ≡ some r
    → is_known_as (c.normalize_soroban_event r.topic r.value) ≡ false
    → replay_unprocessed_event c id s ≡ (some still_failing, s)
unfolding replay_unprocessed_event replay_normalized
replay_unprocessed_event-keeps c id r s found unknown =
    rw found (still c id r (c.normalize_soroban_event r.topic r.value) s unknown)
