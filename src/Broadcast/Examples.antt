-- ===== src/Broadcast/Examples.antt =====
-- Tests of the stream, and its theorems for two instances with a subscriber each.
use scout_off_backend.Prelude.{
  ◌≡◌, ◌≢◌, refl, String, false, none, some, [], str_eq, eq_iff, if◌then◌else◌,
}
use scout_off_backend.Broadcast.{
  BroadcastEvent, Payload, contact_unlocked, SseSubscriber, EventBroadcaster, new_broadcaster,
  has_subscriber, subscribe, emit,
}
use scout_off_backend.Broadcast.Isolation.{AllNamed, emit-isolated}
use scout_off_backend.Broadcast.Wiring.{Reach, start, connect}

abbrev by_scout : Payload
by_scout field = if str_eq field "scout" then some "G1" else none

abbrev unlocked : BroadcastEvent
unlocked = record { event_type = contact_unlocked; payload = by_scout }

abbrev scout : SseSubscriber
scout = record { key = 1; wallet = "G1"; player_id = none; filter = none }

abbrev one_scout : EventBroadcaster
one_scout = subscribe scout new_broadcaster

alone : has_subscriber 1 [] ≡ false
unfolding has_subscriber
alone = refl

one_scout-Reach : Reach one_scout
one_scout-Reach = connect scout start alone

names-differ : ◌≢◌ {A = String} "local:a" "local:b"
names-differ e = cc ((eq_iff "local:a" "local:b").1 e)

emit-isolated_example : AllNamed unlocked (emit unlocked one_scout.listeners)
emit-isolated_example = emit-isolated unlocked one_scout.listeners
