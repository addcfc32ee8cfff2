-- ===== src/Broadcast/Delivery.antt =====
-- How often an event reaches each connected subscriber.
use scout_off_backend.Prelude.{
  ℕ, ◌≡◌, ◌≢◌, refl, sym, ap, ◌∙◌, String, false, List, [], ◌∷◌, map, eq_iff, eq_refl, arith,
  if◌then◌else◌,
}
use scout_off_backend.Broadcast.{
  BroadcastEvent, SseSubscriber, Listener, EventBroadcaster, has_subscriber, unsubscribe, accepts,
  emit, broadcast, receive,
}
use scout_off_backend.Broadcast.Wiring.{
  Reach, subscriber_of, has_subscriber-removed, unsubscribe-IsWired, Reach-IsWired,
}

-- The subscribers that accept an event.
unfoldable pub accepting : BroadcastEvent → List SseSubscriber → List SseSubscriber
accepting event [] = []
accepting event (s ∷ subs) =
    let rest = accepting event subs in if accepts event s then s ∷ rest else rest

emit-accepting :
    (event : BroadcastEvent) (ls : List Listener)
    → emit event ls ≡ accepting event (map subscriber_of ls)
unfolding emit accepting
emit-accepting event [] = refl
emit-accepting event (l ∷ ls) = rw (emit-accepting event ls) refl

has_subscriber-accepting :
    (key : ℕ) (event : BroadcastEvent) (subs : List SseSubscriber)
    → has_subscriber key subs ≡ false
    → has_subscriber key (accepting event subs) ≡ false
unfolding accepting has_subscriber
has_subscriber-accepting key event [] h = refl
has_subscriber-accepting key event (s ∷ subs) h =
    ground (arith, h, has_subscriber-accepting key event subs)

emit-Reach :
    (event : BroadcastEvent) (b : EventBroadcaster)
    → Reach b
    → emit event b.listeners ≡ accepting event b.subscribers
emit-Reach event b r =
    emit-accepting event b.listeners ∙ ap (accepting event) (sym (Reach-IsWired b r).same)

-- An event that one instance broadcasts is sent once to each connected subscriber of that
-- instance that accepts it, not again when its own message comes back, and once to each connected
-- subscriber of another instance that accepts it, when the message arrives there.
pub broadcast-reaches :
    (here there : String) (event : BroadcastEvent) (b c : EventBroadcaster)
    → here ≢ there
    → Reach b
    → Reach c
    → ((broadcast here event b).1 ≡ accepting event b.subscribers)
      × (receive here (broadcast here event b).0 b ≡ [])
      × (receive there (broadcast here event b).0 c ≡ accepting event c.subscribers)
unfolding broadcast receive
broadcast-reaches here there event b c n rb rc = (
  emit-Reach event b rb,
  rw (eq_refl here) refl,
  ground (arith, eq_iff here there, n, emit-Reach event c rc),
)

unsubscribed :
    (s : SseSubscriber) (b : EventBroadcaster)
    → has_subscriber s.key (unsubscribe s b).subscribers ≡ false
unfolding unsubscribe
unsubscribed s b = has_subscriber-removed s.key b.subscribers

-- After `unsubscribe` no event is sent to the subscriber.
pub unsubscribe-silences :
    (s : SseSubscriber) (event : BroadcastEvent) (b : EventBroadcaster)
    → Reach b
    → has_subscriber s.key (emit event (unsubscribe s b).listeners) ≡ false
unsubscribe-silences s event b r =
    let w = unsubscribe-IsWired s b (Reach-IsWired b r) in
    let gone : has_subscriber s.key (unsubscribe s b).subscribers ≡ false = unsubscribed s b in
    ap (has_subscriber s.key) (emit-accepting event (unsubscribe s b).listeners)
    ∙ has_subscriber-accepting s.key event _ (ap (has_subscriber s.key) (sym w.same) ∙ gone)
