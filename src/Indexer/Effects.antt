-- ===== src/Indexer/Effects.antt =====
-- What one event does beyond its row: the classification, the player that it is about, and the side
-- effects of a new row, as `applyOne` of src/services/indexer.ts runs them.
use scout_off_backend.Prelude.{
  ℕ, String, Bool, false, not, ◌&&◌, ◌||◌, Option, none, some, List, [], ◌∷◌, str_eq, if◌then◌else◌,
}
use scout_off_backend.Tiers.{tier_for_approved_milestones}
use scout_off_backend.Ordering.{NormalizedIndexerEvent}
use scout_off_backend.Indexer.{
  Payload, PlayerRow, Store, get_events_count, get_player_by_wallet, get_player_by_on_chain_id,
  insert_or_update_player, update_player_progress, insert_pending_milestone,
}

-- `normalize_soroban_event` of a topic and a value, which is nothing where it throws, and
-- `safe_topic_type`; the first topic where `scValToNative` makes a text of it, and else the empty text;
-- the parser of dates; `Date.now()`; `createId` for an event; whether the database
-- refuses the side effect of an event, and whether it refuses the event's unprocessed row.
pub record Context : Type 0 where
  pub normalize_soroban_event : List String → Option String → Option (String × Payload)
  pub safe_topic_type : List String → String
  pub native_topic : List String → String
  pub get_time : String → ℕ
  pub now : ℕ
  pub create_id : String → ℕ → String
  pub refuses : String → ℕ → Bool
  pub refuses_parking : String → ℕ → Bool

abbrev contract_event_types : List String
contract_event_types =
    "role_granted" ∷ "role_revoked" ∷ "role_admin_changed" ∷ "player_registered" ∷ "profile_updated"
    ∷ "milestone_submitted" ∷ "milestone_approved" ∷ "milestone_rejected" ∷ "scout_subscribed"
    ∷ "contact_unlocked" ∷ "connection_created" ∷ "trial_offer_logged" ∷ "trial_offer_accepted"
    ∷ "trial_offer_rejected" ∷ "trial_offer_cancelled" ∷ "fees_withdrawn" ∷ "player_deactivated"
    ∷ "player_reactivated" ∷ []

abbrev contains : String → List String → Bool
contains t [] = false
contains t (u ∷ types) = str_eq t u || contains t types

-- The cases of `broadcastIndexedEvent`
abbrev pub is_broadcast_type : String → Bool
is_broadcast_type type = contains type (
    "player_registered" ∷ "milestone_submitted" ∷ "milestone_approved" ∷ "scout_subscribed"
    ∷ "contact_unlocked" ∷ "trial_offer_logged" ∷ [])

unfoldable pub is_known_event_type : String → Bool
is_known_event_type type = contains type contract_event_types

pub data IndexerEventOutcome : Type 0 where
  applied unknown_type decode_error : IndexerEventOutcome

pub record WebhookEvent : Type 0 where
  pub event_type : String
  pub payload : Payload
  pub tx_hash : String
  pub ledger : ℕ

-- What is left of a step: the tables, the players whose cache entries are invalidated, the webhooks
-- to dispatch, and the outcome, which is nothing where the step throws.
pub record Step : Type 0 where
  pub store : Store
  pub invalidated : List String
  pub webhooks : List WebhookEvent
  pub outcome : Option IndexerEventOutcome

abbrev pub or_empty : Option String → String
or_empty none = ""
or_empty (some t) = t

abbrev pub text : Payload → String → String
text p field = or_empty (p field)

-- JavaScript's truth of a text
abbrev pub truthy : String → Bool
truthy t = not (str_eq t "")

abbrev with_player_id : String → Payload → Payload
with_player_id id p field = if str_eq field "player_id" then some id else p field

unfoldable pub resolve_player : Context → String → ℕ → String → Payload → Store → Payload
resolve_player c tx index type p s =
    let on_chain = text p "on_chain_player_id" in
    let wallet = text p "wallet" in
    if str_eq type "player_registered" && (truthy on_chain && truthy wallet)
    then elim (get_player_by_wallet wallet s.players) [
      | none ↦ with_player_id (c.create_id tx index) p
      | some r ↦ with_player_id r.player_id p
    ]
    else if truthy on_chain
    then elim (get_player_by_on_chain_id on_chain s.players) [
      | none ↦ p
      | some r ↦ with_player_id r.player_id p
    ]
    else p

abbrev player_of : Payload → ℕ → PlayerRow
player_of p registered_at = record {
  player_id = text p "player_id";
  on_chain_player_id = p "on_chain_player_id";
  wallet = text p "wallet";
  position = p "position";
  region = p "region";
  metadata_uri = p "metadata_uri";
  progress_level = 0;
  created_at = registered_at;
  registered_at = registered_at;
}

-- All five fields that the table of pending milestones needs.
abbrev pub is_complete : Payload → Bool
is_complete p =
    truthy (text p "milestone_id")
    && (truthy (text p "player_id")
        && (truthy (text p "validator")
            && (truthy (text p "milestone_type") && truthy (text p "evidence_uri"))))

-- The side effects on the tables; an absent key is the empty text here.
unfoldable pub side_effects : String → Payload → ℕ → ℕ → Store → Store
side_effects type p registered_at ledger s =
    if str_eq type "player_registered"
    then record s { players = insert_or_update_player (player_of p registered_at) s.players }
    else if str_eq type "milestone_submitted"
    then if is_complete p
      then record s {
        milestones =
            insert_pending_milestone
              (record {
                milestone_id = text p "milestone_id";
                player_id = text p "player_id";
                validator_wallet = text p "validator";
                milestone_type = text p "milestone_type";
                evidence_uri = text p "evidence_uri";
                submitted_at = ledger;
              })
              s.milestones;
      }
      else s
    else if str_eq type "milestone_approved" && truthy (text p "player_id")
    then record s {
      players =
          update_player_progress (text p "player_id")
            (tier_for_approved_milestones
              (get_events_count "milestone_approved" (text p "player_id") s.events))
            s.players;
    }
    else s

-- The types and payloads whose side effects call the database.
abbrev pub calls_database : String → Payload → Bool
calls_database type p =
    str_eq type "player_registered"
    || (str_eq type "milestone_submitted" && is_complete p)
    || (str_eq type "milestone_approved" && truthy (text p "player_id"))

abbrev pub invalidations : String → Payload → List String
invalidations type p =
    if str_eq type "player_registered"
      || (str_eq type "milestone_approved" && truthy (text p "player_id"))
    then text p "player_id" ∷ []
    else []

abbrev pub webhooks_of : String → Payload → NormalizedIndexerEvent → List WebhookEvent
webhooks_of type p e =
    if str_eq type "milestone_submitted" || str_eq type "milestone_approved"
    then record { event_type = type; payload = p; tx_hash = e.tx_hash; ledger = e.ledger } ∷ []
    else []
