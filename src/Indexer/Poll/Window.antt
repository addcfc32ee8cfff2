-- ===== src/Indexer/Poll/Window.antt =====
-- The cursor of the poll and the ledgers that the next poll asks for.
use scout_off_backend.Prelude.{
  ℕ, ◌+◌, ◌≡◌, ◌≤◌, refl, sym, ◌∙◌, Bool, true, false, not, ◌&&◌, ◌||◌, Option, none, some, List,
  [], ◌∷◌, arith, leb, Bool-cases, Option-cases, inl, inr, String,
}
use scout_off_backend.Ordering.{NormalizedIndexerEvent}
use scout_off_backend.Indexer.{Payload}
use scout_off_backend.Indexer.Effects.{Context, Step, is_known_event_type}
use scout_off_backend.Indexer.Apply.{apply_one}
use scout_off_backend.Indexer.Rows.{apply_one_undecoded}
use scout_off_backend.Indexer.Poll.{
  Batch, record_step, apply_group, from_ledger_of, cursor_of, earlier, holds_cursor,
}

abbrev undecoded : Option (String × Payload) → Bool
undecoded none = true
undecoded (some normalized) = false

-- The event does not decode although its topic names a recognised type.
abbrev pub is_blocking : Context → NormalizedIndexerEvent → Bool
is_blocking c e =
    undecoded (c.normalize_soroban_event e.raw.topic e.raw.value)
    && is_known_event_type (c.safe_topic_type e.raw.topic)

abbrev at_most : Option ℕ → ℕ → Bool
at_most none n = false
at_most (some l) n = leb l n

-- `n` is at most the ledger of each blocking event.
unfoldable pub all_held : Context → List NormalizedIndexerEvent → ℕ → Bool
all_held c [] n = true
all_held c (e ∷ events) n = (not (is_blocking c e) || leb n e.ledger) && all_held c events n

earlier-at_most : (o : Option ℕ) (l n : ℕ) → at_most o n ≡ true → at_most (earlier o l) n ≡ true
earlier-at_most none l n h = cc h
earlier-at_most (some m) l n h = ground (arith, h)

earlier-at_most_self : (o : Option ℕ) (l : ℕ) → at_most (earlier o l) l ≡ true
earlier-at_most_self none l = ground arith
earlier-at_most_self (some m) l = ground arith

record_step-at_most :
    (c : Context) (e : NormalizedIndexerEvent) (st : Step) (b : Batch) (n : ℕ)
    → at_most b.earliest_known_failure_ledger n ≡ true
    → at_most (record_step c e st b).earliest_known_failure_ledger n ≡ true
unfolding record_step
record_step-at_most c e st b n h =
    let lower = earlier-at_most b.earliest_known_failure_ledger e.ledger n h in
    elim (Option-cases st.outcome) [
      | inl gone ↦ rw gone lower
      | inr (o, found) ↦ rw found (elim (Bool-cases (holds_cursor c e o)) [
        | inl holding ↦ rw holding lower
        | inr free ↦ rw free h
      ])
    ]

record_step-blocking :
    (c : Context) (e : NormalizedIndexerEvent) (b : Batch)
    → is_blocking c e ≡ true
    → at_most (record_step c e (apply_one c e b.store) b).earliest_known_failure_ledger e.ledger
      ≡ true
unfolding record_step
record_step-blocking c e b h =
    elim (Option-cases (c.normalize_soroban_event e.raw.topic e.raw.value)) [
      | inl gone ↦
          let known : is_known_event_type (c.safe_topic_type e.raw.topic) ≡ true =
            ground (arith, h) in
          rw (apply_one_undecoded c e b.store gone)
            (rw known (earlier-at_most_self b.earliest_known_failure_ledger e.ledger))
      | inr (a, found) ↦ ground (arith, h, found)
    ]

apply_group-at_most :
    (c : Context) (events : List NormalizedIndexerEvent) (b : Batch) (n : ℕ)
    → at_most b.earliest_known_failure_ledger n ≡ true
    → at_most (apply_group c events b).earliest_known_failure_ledger n ≡ true
unfolding apply_group
apply_group-at_most c [] b n h = h
apply_group-at_most c (e ∷ events) b n h =
    let b' = record_step c e (apply_one c e b.store) b in
    let h' = record_step-at_most c e (apply_one c e b.store) b n h in
    elim (Bool-cases b'.thrown) [
      | inl stop ↦ rw stop h'
      | inr on ↦ rw on (apply_group-at_most c events b' n h')
    ]

-- The first failure is at most the ledger of each blocking event.
abbrev pub AreAbove : Context → List NormalizedIndexerEvent → Option ℕ → Type 0
AreAbove c [] o = Unit
AreAbove c (e ∷ events) o =
    (is_blocking c e ≡ true → at_most o e.ledger ≡ true) × AreAbove c events o

pub apply_group-AreAbove :
    (c : Context) (events : List NormalizedIndexerEvent) (b : Batch)
    → (apply_group c events b).thrown ≡ false
    → AreAbove c events (apply_group c events b).earliest_known_failure_ledger
unfolding apply_group
apply_group-AreAbove c [] b = λ done. tt
apply_group-AreAbove c (e ∷ events) b =
    let b' = record_step c e (apply_one c e b.store) b in
    elim (Bool-cases b'.thrown) [
      | inl stop ↦ rw stop (λ done. cc (sym stop ∙ done))
      | inr on ↦ rw on (λ done. (
        (λ h. apply_group-at_most c events b' e.ledger (record_step-blocking c e b h)),
        apply_group-AreAbove c events b' done,
      ))
    ]

from_ledger_of_lem : (margin n : ℕ) → from_ledger_of margin n ≤ n
unfolding from_ledger_of
from_ledger_of_lem margin n = ground arith

AreAbove-all_held :
    (c : Context) (events : List NormalizedIndexerEvent) (l n : ℕ)
    → n ≤ l
    → AreAbove c events (some l)
    → all_held c events n ≡ true
unfolding all_held
AreAbove-all_held c [] l n le h = refl
AreAbove-all_held c (e ∷ events) l n le (here, h) =
    let rest = AreAbove-all_held c events l n le h in
    elim (Bool-cases (is_blocking c e)) [
      | inl blocking ↦ rw blocking (ground (arith, here blocking, le, rest))
      | inr free ↦ rw free rest
    ]

none_blocking :
    (c : Context) (events : List NormalizedIndexerEvent) (n : ℕ)
    → AreAbove c events none
    → all_held c events n ≡ true
unfolding all_held
none_blocking c [] n h = refl
none_blocking c (e ∷ events) n (here, h) = elim (Bool-cases (is_blocking c e)) [
  | inl blocking ↦ cc (here blocking)
  | inr free ↦ rw free (none_blocking c events n h)
]

pub all_held-cursor_of :
    (c : Context) (events : List NormalizedIndexerEvent) (o : Option ℕ) (margin latest : ℕ)
    → AreAbove c events o
    → all_held c events (from_ledger_of margin (cursor_of o latest)) ≡ true
all_held-cursor_of c events none margin latest h =
    none_blocking c events (from_ledger_of margin (latest + 1)) h
all_held-cursor_of c events (some l) margin latest h =
    AreAbove-all_held c events l (from_ledger_of margin l) (from_ledger_of_lem margin l) h
