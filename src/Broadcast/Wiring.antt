-- ===== src/Broadcast/Wiring.antt =====
-- Connections that come and go: each connected subscriber has one listener, its own.
use scout_off_backend.Prelude.{
  ℕ, ◌<◌, ◌≡◌, inl, inr, refl, sym, ap, ◌∙◌, true, false, Option, none, some, List, [], ◌∷◌, map,
  arith, ==_iff, ◌==◌, if◌then◌else◌, Bool-cases, Option-cases,
}
use scout_off_backend.Broadcast.{
  SseSubscriber, Listener, EventBroadcaster, new_broadcaster, remove_subscriber, has_subscriber,
  subscribe, off, unsubscribe,
}

-- The broadcasters that arise when each connection subscribes once, as the route does, and
-- unsubscribes at most when it ends.
pub data Reach : EventBroadcaster → Type 0 where
  start : Reach new_broadcaster
  connect :
      {b : EventBroadcaster} (s : SseSubscriber)
      → Reach b
      → has_subscriber s.key b.subscribers ≡ false
      → Reach (subscribe s b)
  disconnect : {b : EventBroadcaster} (s : SseSubscriber) → Reach b → Reach (unsubscribe s b)

abbrev pub subscriber_of : Listener → SseSubscriber
subscriber_of l = l.subscriber

-- The listener is the one that its subscriber holds, and nobody else holds it.
record Owns (attached : ℕ → Option ℕ) (l : Listener) : Type 0 where
  held : attached l.subscriber.key ≡ some l.number
  only : (key : ℕ) → attached key ≡ some l.number → key ≡ l.subscriber.key

-- All listeners are held, and no two have the same subscriber.
abbrev AllOwned : (ℕ → Option ℕ) → List Listener → Type 0
AllOwned attached [] = Unit
AllOwned attached (l ∷ ls) =
    Owns attached l
    × (has_subscriber l.subscriber.key (map subscriber_of ls) ≡ false)
    × AllOwned attached ls

pub record IsWired (b : EventBroadcaster) : Type 0 where
  pub same : b.subscribers ≡ map subscriber_of b.listeners
  owned : AllOwned b.attached b.listeners
  below : (key n : ℕ) → b.attached key ≡ some n → n < b.next

remove_subscriber_absent :
    (key : ℕ) (subs : List SseSubscriber)
    → has_subscriber key subs ≡ false
    → remove_subscriber key subs ≡ subs
unfolding has_subscriber remove_subscriber
remove_subscriber_absent key [] h = refl
remove_subscriber_absent key (s ∷ subs) h = ground (arith, h, remove_subscriber_absent key subs)

has_subscriber-remove :
    (k key : ℕ) (subs : List SseSubscriber)
    → has_subscriber k subs ≡ false
    → has_subscriber k (remove_subscriber key subs) ≡ false
unfolding has_subscriber remove_subscriber
has_subscriber-remove k key [] h = refl
has_subscriber-remove k key (s ∷ subs) h = ground (arith, h, has_subscriber-remove k key subs)

pub has_subscriber-removed :
    (key : ℕ) (subs : List SseSubscriber) → has_subscriber key (remove_subscriber key subs) ≡ false
unfolding has_subscriber remove_subscriber
has_subscriber-removed key [] = refl
has_subscriber-removed key (s ∷ subs) = ground (arith, has_subscriber-removed key subs)

has_subscriber-off :
    (k n : ℕ) (ls : List Listener)
    → has_subscriber k (map subscriber_of ls) ≡ false
    → has_subscriber k (map subscriber_of (off n ls)) ≡ false
unfolding has_subscriber off
has_subscriber-off k n [] h = refl
has_subscriber-off k n (l ∷ ls) h = elim (Bool-cases (l.number == n)) [
  | inl here ↦ rw here (ground (arith, h))
  | inr there ↦ rw there (ground (arith, h, has_subscriber-off k n ls))
]

off-removes :
    (attached : ℕ → Option ℕ) (key n : ℕ) (ls : List Listener)
    → AllOwned attached ls
    → attached key ≡ some n
    → map subscriber_of (off n ls) ≡ remove_subscriber key (map subscriber_of ls)
unfolding off remove_subscriber
off-removes attached key n [] h e = refl
off-removes attached key n (l ∷ ls) (own, alone, h) e = elim (Bool-cases (l.number == n)) [
  | inl here ↦
      let number : l.number ≡ n = (==_iff l.number n).0 here in
      let owner : key ≡ l.subscriber.key = own.only key (e ∙ ap some (sym number)) in
      let hit : (l.subscriber.key == key) ≡ true = (==_iff l.subscriber.key key).1 (sym owner) in
      let rest : has_subscriber key (map subscriber_of ls) ≡ false =
        ap (λ k. has_subscriber k (map subscriber_of ls)) owner ∙ alone in
      rw here (rw hit (sym (remove_subscriber_absent key (map subscriber_of ls) rest)))
  | inr there ↦ elim (Bool-cases (l.subscriber.key == key)) [
    | inl hit ↦
        let owner : l.subscriber.key ≡ key = (==_iff l.subscriber.key key).0 hit in
        let number : l.number ≡ n = cc (sym own.held ∙ (ap attached owner ∙ e)) in
        ground (arith, there, number)
    | inr miss ↦
        rw there (rw miss (ap (λ xs. l.subscriber ∷ xs) (off-removes attached key n ls h e)))
  ]
]

AllOwned-off :
    (attached : ℕ → Option ℕ) (n : ℕ) (ls : List Listener)
    → AllOwned attached ls
    → AllOwned attached (off n ls)
unfolding off
AllOwned-off attached n [] h = tt
AllOwned-off attached n (l ∷ ls) (own, alone, h) = elim (Bool-cases (l.number == n)) [
  | inl here ↦ rw here h
  | inr there ↦
      rw there (own, has_subscriber-off l.subscriber.key n ls alone, AllOwned-off attached n ls h)
]

-- Nobody with this key is among the listeners if its subscriber holds none.
unheld-absent :
    (attached : ℕ → Option ℕ) (key : ℕ) (ls : List Listener)
    → AllOwned attached ls
    → attached key ≡ none
    → has_subscriber key (map subscriber_of ls) ≡ false
unfolding has_subscriber
unheld-absent attached key [] h e = refl
unheld-absent attached key (l ∷ ls) (own, alone, h) e =
    elim (Bool-cases (l.subscriber.key == key)) [
      | inl hit ↦
          let owner : l.subscriber.key ≡ key = (==_iff l.subscriber.key key).0 hit in
          cc (sym own.held ∙ (ap attached owner ∙ e))
      | inr miss ↦ rw miss (unheld-absent attached key ls h e)
    ]

pub unsubscribe-IsWired :
    (s : SseSubscriber) (b : EventBroadcaster) → IsWired b → IsWired (unsubscribe s b)
unfolding unsubscribe
unsubscribe-IsWired s b w = elim (Option-cases (b.attached s.key)) [
  | inl free ↦
      let absent = unheld-absent b.attached s.key b.listeners w.owned free in
      record {
        same = rw free (
            ap (remove_subscriber s.key) w.same
            ∙ remove_subscriber_absent s.key (map subscriber_of b.listeners) absent);
        owned = rw free w.owned;
        below = w.below;
      }
  | inr (n, found) ↦ record {
    same = rw found (
        ap (remove_subscriber s.key) w.same
        ∙ sym (off-removes b.attached s.key n b.listeners w.owned found));
    owned = rw found (AllOwned-off b.attached n b.listeners w.owned);
    below = w.below;
  }
]

-- What `subscribe` makes of the listeners that subscribers hold.
abbrev attach : ℕ → ℕ → (ℕ → Option ℕ) → ℕ → Option ℕ
attach key next attached k = if k == key then some next else attached k

AllOwned-attach :
    (attached : ℕ → Option ℕ) (key next : ℕ) (ls : List Listener)
    → AllOwned attached ls
    → ((k n : ℕ) → attached k ≡ some n → n < next)
    → has_subscriber key (map subscriber_of ls) ≡ false
    → AllOwned (attach key next attached) ls
unfolding has_subscriber
AllOwned-attach attached key next [] h below absent = tt
AllOwned-attach attached key next (l ∷ ls) (own, alone, h) below absent =
    let old = below l.subscriber.key l.number own.held in
    (
      record {
        held = ground (arith, own.held, absent);
        only = λ k e. ground (arith, own.only k, e, old);
      },
      alone,
      AllOwned-attach attached key next ls h below (ground (arith, absent)),
    )

subscribe-IsWired :
    (s : SseSubscriber) (b : EventBroadcaster)
    → has_subscriber s.key b.subscribers ≡ false
    → IsWired b
    → IsWired (subscribe s b)
unfolding subscribe
subscribe-IsWired s b free w =
    let absent = ap (has_subscriber s.key) (sym w.same) ∙ free in
    record {
      same = rw free (ap (λ subs. s ∷ subs) w.same);
      owned = (
        record { held = ground arith; only = λ k e. ground (arith, e, w.below k b.next) },
        absent,
        AllOwned-attach b.attached s.key b.next b.listeners w.owned w.below absent,
      );
      below = λ k n e. ground (arith, e, w.below k n);
    }

new-IsWired : IsWired new_broadcaster
new-IsWired = record { same = refl; owned = tt; below = λ key n e. cc e }

pub Reach-IsWired : (b : EventBroadcaster) → Reach b → IsWired b
Reach-IsWired b start = new-IsWired
Reach-IsWired b (connect {b = b'} s r free) = subscribe-IsWired s b' free (Reach-IsWired b' r)
Reach-IsWired b (disconnect {b = b'} s r) = unsubscribe-IsWired s b' (Reach-IsWired b' r)
