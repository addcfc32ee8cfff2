-- ===== src/Broadcast.antt =====
-- The event stream of the clients: src/services/eventBroadcaster.ts. A payload maps the name of a
-- field to its text; a field that is absent or holds no text is `none`, which no comparison with a
-- text finds equal. A subscriber is known by its number, the identity of the object; each holds
-- the listener that `subscribe` made last. The messages of Redis carry the instance they come from.
pub mod Isolation
pub mod Wiring
pub mod Delivery
mod Examples
use scout_off_backend.Prelude.{
  ℕ, ◌+◌, String, Bool, true, false, not, ◌&&◌, ◌||◌, Option, none, some, List, [], ◌∷◌, ◌==◌,
  str_eq, if◌then◌else◌,
}

-- The types of events; `other_event` stands for those that the stream has no rule for.
pub data ContractEventType : Type 0 where
  milestone_approved scout_subscribed contact_unlocked trial_offer_logged trial_offer_accepted
        trial_offer_rejected player_registered milestone_submitted fees_withdrawn player_deactivated
        player_reactivated :
      ContractEventType
  other_event : ℕ → ContractEventType

abbrev pub Payload : Type 0
Payload = String → Option String

pub record BroadcastEvent : Type 0 where
  pub event_type : ContractEventType
  pub payload : Payload

-- `value === text`
abbrev pub holds : Option String → String → Bool
holds none text = false
holds (some value) text = str_eq value text

-- `playerId !== undefined && p.player_id === playerId`
abbrev pub is_player : Payload → Option String → Bool
is_player p none = false
is_player p (some id) = holds (p "player_id") id

unfoldable pub is_event_relevant_to_wallet : BroadcastEvent → String → Option String → Bool
is_event_relevant_to_wallet event wallet player_id =
    let p = event.payload in
    elim event.event_type [
      | milestone_approved ↦
          is_player p player_id || (holds (p "wallet") wallet || holds (p "scout") wallet)
      | scout_subscribed ↦ holds (p "scout") wallet || holds (p "wallet") wallet
      | contact_unlocked ↦ holds (p "scout") wallet || holds (p "wallet") wallet
      | trial_offer_logged ↦ holds (p "scout") wallet || is_player p player_id
      | trial_offer_accepted ↦ holds (p "scout") wallet || is_player p player_id
      | trial_offer_rejected ↦ holds (p "scout") wallet || is_player p player_id
      | player_registered ↦ holds (p "wallet") wallet || is_player p player_id
      | milestone_submitted ↦ is_player p player_id || holds (p "validator") wallet
      | fees_withdrawn ↦ holds (p "recipient") wallet || holds (p "wallet") wallet
      | player_deactivated ↦
          is_player p player_id || (holds (p "wallet") wallet || holds (p "scout_wallet") wallet)
      | player_reactivated ↦ is_player p player_id || holds (p "wallet") wallet
      | other_event n ↦ false
    ]

-- `eventTypes` as the set's members and its test.
pub record SseFilterCriteria : Type 0 where
  pub restricted : Bool
  pub has_type : ContractEventType → Bool
  pub player_id : Option String

abbrev player_in_payload : Payload → Option String → Bool
player_in_payload p none = true
player_in_payload p (some id) =
    holds (p "player_id") id
    || (holds (p "wallet") id
        || (holds (p "scout") id || (holds (p "recipient") id || holds (p "validator") id)))

unfoldable pub is_event_matching_filter : BroadcastEvent → Option SseFilterCriteria → Bool
is_event_matching_filter event none = true
is_event_matching_filter event (some filter) =
    if filter.restricted && not (filter.has_type event.event_type)
    then false
    else player_in_payload event.payload filter.player_id

pub record SseSubscriber : Type 0 where
  pub key : ℕ
  pub wallet : String
  pub player_id : Option String
  pub filter : Option SseFilterCriteria

-- A listener of the emitter, with its own identity.
pub record Listener : Type 0 where
  pub number : ℕ
  pub subscriber : SseSubscriber

pub record EventBroadcaster : Type 0 where
  pub subscribers : List SseSubscriber
  pub listeners : List Listener
  -- `_listener` of each subscriber.
  pub attached : ℕ → Option ℕ
  pub next : ℕ

abbrev pub new_broadcaster : EventBroadcaster
new_broadcaster = record { subscribers = []; listeners = []; attached = λ key. none; next = 0 }

unfoldable pub remove_subscriber : ℕ → List SseSubscriber → List SseSubscriber
remove_subscriber key [] = []
remove_subscriber key (s ∷ subs) =
    let rest = remove_subscriber key subs in if s.key == key then rest else s ∷ rest

unfoldable pub has_subscriber : ℕ → List SseSubscriber → Bool
has_subscriber key [] = false
has_subscriber key (s ∷ subs) = (s.key == key) || has_subscriber key subs

unfoldable pub subscribe : SseSubscriber → EventBroadcaster → EventBroadcaster
subscribe s b = record {
  subscribers = if has_subscriber s.key b.subscribers then b.subscribers else s ∷ b.subscribers;
  listeners = record { number = b.next; subscriber = s } ∷ b.listeners;
  attached = λ key. if key == s.key then some b.next else b.attached key;
  next = b.next + 1;
}

unfoldable pub off : ℕ → List Listener → List Listener
off number [] = []
off number (l ∷ ls) = if l.number == number then ls else l ∷ off number ls

abbrev pub detach : Option ℕ → List Listener → List Listener
detach none ls = ls
detach (some number) ls = off number ls

unfoldable pub unsubscribe : SseSubscriber → EventBroadcaster → EventBroadcaster
unsubscribe s b = record {
  subscribers = remove_subscriber s.key b.subscribers;
  listeners = detach (b.attached s.key) b.listeners;
  attached = b.attached;
  next = b.next;
}

unfoldable pub get_subscriber_count_for_wallet : String → List SseSubscriber → ℕ
get_subscriber_count_for_wallet wallet [] = 0
get_subscriber_count_for_wallet wallet (s ∷ subs) =
    let rest = get_subscriber_count_for_wallet wallet subs in
    if str_eq s.wallet wallet then rest + 1 else rest

-- The test of a listener.
abbrev pub accepts : BroadcastEvent → SseSubscriber → Bool
accepts event s =
    is_event_relevant_to_wallet event s.wallet s.player_id
    && is_event_matching_filter event s.filter

-- The subscribers whose `send` is called, one for each listener that accepts the event. A `send`
-- that throws is caught by its listener, so it does not reach the others.
unfoldable pub emit : BroadcastEvent → List Listener → List SseSubscriber
emit event [] = []
emit event (l ∷ ls) =
    let rest = emit event ls in if accepts event l.subscriber then l.subscriber ∷ rest else rest

pub record Message : Type 0 where
  pub event : BroadcastEvent
  pub origin : String

-- `broadcast`: the message that is handed to Redis, and the local deliveries.
unfoldable pub broadcast : String → BroadcastEvent → EventBroadcaster → Message × List SseSubscriber
broadcast instance_id event b =
    (record { event = event; origin = instance_id }, emit event b.listeners)

-- The listener of the Redis channel.
unfoldable pub receive : String → Message → EventBroadcaster → List SseSubscriber
receive instance_id m b = if str_eq m.origin instance_id then [] else emit m.event b.listeners
