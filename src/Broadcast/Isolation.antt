-- ===== src/Broadcast/Isolation.antt =====
-- Who can see an event.
use scout_off_backend.Prelude.{
  ◌≡◌, ◌⊎◌, inl, inr, refl, String, Bool, true, false, ◌&&◌, ◌||◌, Option, none, some, List, [],
  ◌∷◌, eq_iff, arith, Bool-cases,
}
use scout_off_backend.Broadcast.{
  ContractEventType, milestone_approved, scout_subscribed, contact_unlocked, trial_offer_logged,
  trial_offer_accepted, trial_offer_rejected, player_registered, milestone_submitted,
  fees_withdrawn, player_deactivated, player_reactivated, other_event, Payload, BroadcastEvent,
  holds, is_player, is_event_relevant_to_wallet, SseSubscriber, Listener, accepts, emit,
  is_event_matching_filter,
}

-- The payload names the wallet, in the field of a player, a scout, a validator or a recipient, or
-- the player in `player_id`.
abbrev pub Names : Payload → String → Option String → Type 0
Names p wallet player_id =
    ((field : String) × (p field ≡ some wallet))
    ⊎ ((id : String) × (player_id ≡ some id) × (p "player_id" ≡ some id))

holds-some : (o : Option String) (text : String) → holds o text ≡ true → o ≡ some text
holds-some none text h = ground (arith, h)
holds-some (some v) text h = ground (arith, eq_iff v text, h)

Names-field :
    (p : Payload) (wallet : String) (player_id : Option String) (field : String)
    → holds (p field) wallet ≡ true
    → Names p wallet player_id
Names-field p wallet player_id field h = inl (field, holds-some (p field) wallet h)

Names-player :
    (p : Payload) (wallet : String) (player_id : Option String)
    → is_player p player_id ≡ true
    → Names p wallet player_id
Names-player p wallet none h = ground (arith, h)
Names-player p wallet (some id) h = inr (id, refl, holds-some (p "player_id") id h)

or_names : (a b : Bool) {P : Type 0} → (a ≡ true → P) → (b ≡ true → P) → (a || b) ≡ true → P
or_names true b f g h = f refl
or_names false b f g h = g h

relevant-Names :
    (ty : ContractEventType) (p : Payload) (wallet : String) (player_id : Option String)
    → is_event_relevant_to_wallet (record { event_type = ty; payload = p }) wallet player_id ≡ true
    → Names p wallet player_id
unfolding is_event_relevant_to_wallet
relevant-Names ty p wallet player_id h =
    let player = Names-player p wallet player_id in
    let by = Names-field p wallet player_id in
    elim ty
        as (λ ty.
          is_event_relevant_to_wallet (record { event_type = ty; payload = p }) wallet player_id
            ≡ true
          → Names p wallet player_id) [
            | milestone_approved ↦ or_names _ _ player (or_names _ _ (by "wallet") (by "scout"))
            | scout_subscribed ↦ or_names _ _ (by "scout") (by "wallet")
            | contact_unlocked ↦ or_names _ _ (by "scout") (by "wallet")
            | trial_offer_logged ↦ or_names _ _ (by "scout") player
            | trial_offer_accepted ↦ or_names _ _ (by "scout") player
            | trial_offer_rejected ↦ or_names _ _ (by "scout") player
            | player_registered ↦ or_names _ _ (by "wallet") player
            | milestone_submitted ↦ or_names _ _ player (by "validator")
            | fees_withdrawn ↦ or_names _ _ (by "recipient") (by "wallet")
            | player_deactivated ↦
                or_names _ _ player (or_names _ _ (by "wallet") (by "scout_wallet"))
            | player_reactivated ↦ or_names _ _ player (by "wallet")
            | other_event n ↦ λ e. cc e
          ]
      h

-- What the stream promises about each subscriber that an event is sent to.
abbrev pub AllNamed : BroadcastEvent → List SseSubscriber → Type 0
AllNamed event [] = Unit
AllNamed event (s ∷ subs) =
    Names event.payload s.wallet s.player_id
    × (is_event_matching_filter event s.filter ≡ true)
    × AllNamed event subs

and_both : (a b : Bool) → (a && b) ≡ true → (a ≡ true) × (b ≡ true)
and_both a b h = (ground (arith, h), ground (arith, h))

-- An event is sent only to subscribers whose own wallet or player its payload names, and whose
-- filter it matches.
pub emit-isolated : (event : BroadcastEvent) (ls : List Listener) → AllNamed event (emit event ls)
unfolding emit
emit-isolated event [] = tt
emit-isolated event (l ∷ ls) = elim (Bool-cases (accepts event l.subscriber)) [
  | inl passed ↦
      let (relevant, matching) = and_both _ _ passed in
      rw passed (
        relevant-Names event.event_type event.payload l.subscriber.wallet l.subscriber.player_id
            relevant,
        matching,
        emit-isolated event ls,
      )
  | inr refused ↦ rw refused (emit-isolated event ls)
]
