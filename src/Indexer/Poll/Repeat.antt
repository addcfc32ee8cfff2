-- ===== src/Indexer/Poll/Repeat.antt =====
-- Events that a poll meets again: those of the ledgers within the finality margin, and those of a
-- batch that failed.
use scout_off_backend.Prelude.{
  ℕ, ◌≡◌, refl, sym, ap, ◌∙◌, String, Bool, true, false, ◌&&◌, Option, none, some, List, [], ◌∷◌,
  ◌++◌, str_eq, arith, Option-cases, inl, inr, ◌≤◌, if◌then◌else◌, Bool-cases, leb, ==_iff,
}
use scout_off_backend.Ordering.{
  RawIndexerEvent, NormalizedIndexerEvent, group_co_transaction_events,
}
use scout_off_backend.Indexer.{Store, Payload, EventRow, insert_event}
use scout_off_backend.Indexer.Effects.{
  Context, is_known_event_type, resolve_player, calls_database, applied, is_broadcast_type,
}
use scout_off_backend.Indexer.Apply.{
  apply_one, after_insert, apply_decoded, event_row, incoming_hash,
}
use scout_off_backend.Indexer.Rows.{apply_one_decoded, has_event-append_self}
use scout_off_backend.Indexer.Accounts.{stored}
use scout_off_backend.Indexer.Poll.{
  Batch, broadcast_of, record_step, apply_group, apply_groups, start, reorg_ledger, existing_hash,
  conflicts,
}
use scout_off_backend.Indexer.Poll.Flat.{apply_groups-ordered}

abbrev pub is_known_as : Option (String × Payload) → Bool
is_known_as none = false
is_known_as (some (type, p)) = is_known_event_type type

-- The event decodes under a recognised type.
abbrev pub is_known : Context → NormalizedIndexerEvent → Bool
is_known c e = is_known_as (c.normalize_soroban_event e.raw.topic e.raw.value)

apply_decoded_again :
    (c : Context) (e : NormalizedIndexerEvent) (s : Store) (type : String) (p : Payload)
    → is_known_event_type type ≡ true
    → stored e s ≡ true
    → apply_decoded c e type p s
      ≡ record { store = s; invalidated = []; webhooks = []; outcome = some applied }
unfolding apply_decoded after_insert insert_event
apply_decoded_again c e s type p known there = rw (known, there, known) refl

pub apply_one_again :
    (c : Context) (e : NormalizedIndexerEvent) (s : Store)
    → is_known c e ≡ true
    → stored e s ≡ true
    → apply_one c e s
      ≡ record { store = s; invalidated = []; webhooks = []; outcome = some applied }
apply_one_again c e s known there =
    elim (Option-cases (c.normalize_soroban_event e.raw.topic e.raw.value)) [
      | inl gone ↦ cc (sym (ap is_known_as gone) ∙ known)
      | inr ((type, p), found) ↦
          apply_one_decoded c e s type p found
          ∙ apply_decoded_again c e s type p (sym (ap is_known_as found) ∙ known) there
    ]

-- Each event decodes under a recognised type and has a row.
unfoldable pub all_again : Context → List NormalizedIndexerEvent → Store → Bool
all_again c [] s = true
all_again c (e ∷ events) s = (is_known c e && stored e s) && all_again c events s

append_nil {ℓ} : {A : Type ℓ} (xs : List A) → xs ++ [] ≡ xs
append_nil [] = refl
append_nil (x ∷ xs) = ap (λ l. x ∷ l) (append_nil xs)

append_assoc {ℓ} : {A : Type ℓ} (xs ys zs : List A) → (xs ++ ys) ++ zs ≡ xs ++ (ys ++ zs)
append_assoc [] ys zs = refl
append_assoc (x ∷ xs) ys zs = ap (λ l. x ∷ l) (append_assoc xs ys zs)

-- The events whose first topic is one of the six types of a broadcast.
unfoldable pub broadcast_again : Context → List NormalizedIndexerEvent → List NormalizedIndexerEvent
broadcast_again c [] = []
broadcast_again c (e ∷ events) =
    let rest = broadcast_again c events in
    if is_broadcast_type (c.native_topic e.raw.topic) then e ∷ rest else rest

broadcast_again-cons :
    (c : Context) (e : NormalizedIndexerEvent) (events : List NormalizedIndexerEvent)
    → broadcast_of c e applied ++ broadcast_again c events ≡ broadcast_again c (e ∷ events)
unfolding broadcast_again
broadcast_again-cons c e events =
    elim (Bool-cases (is_broadcast_type (c.native_topic e.raw.topic))) [
      | inl sent ↦ rw sent refl
      | inr kept ↦ rw kept refl
    ]

-- What a batch of events met again leaves of the batch before it.
abbrev Repeats : Context → List NormalizedIndexerEvent → Batch → Batch → Type 0
Repeats c events b b' =
    (b'.store ≡ b.store)
    × (b'.broadcasts ≡ b.broadcasts ++ broadcast_again c events)
    × (b'.webhooks ≡ b.webhooks)
    × (b'.invalidated ≡ b.invalidated)
    × (b'.thrown ≡ false)

apply_group-Repeats :
    (c : Context) (events : List NormalizedIndexerEvent) (b : Batch)
    → b.thrown ≡ false
    → all_again c events b.store ≡ true
    → Repeats c events b (apply_group c events b)
unfolding apply_group all_again record_step broadcast_again
apply_group-Repeats c [] b going h = (refl, sym (append_nil b.broadcasts), refl, refl, going)
apply_group-Repeats c (e ∷ events) b going h =
    let known : is_known c e ≡ true = ground (arith, h) in
    let there : stored e b.store ≡ true = ground (arith, h) in
    let rest : all_again c events b.store ≡ true = ground (arith, h) in
    let b' : Batch = record b {
      invalidated = b.invalidated ++ [];
      webhooks = b.webhooks ++ [];
      broadcasts = b.broadcasts ++ broadcast_of c e applied;
      thrown = false;
    } in
    let (same, sent, hooks, caches, on) = apply_group-Repeats c events b' refl rest in
    rw (apply_one_again c e b.store known there, going)
      (
        same,
        sent
            ∙ append_assoc b.broadcasts (broadcast_of c e applied) (broadcast_again c events)
            ∙ ap (λ l. b.broadcasts ++ l) (broadcast_again-cons c e events),
        hooks ∙ append_nil b.webhooks,
        caches ∙ append_nil b.invalidated,
        on,
      )

-- A batch of events that all decode under a recognised type and have rows changes no table,
-- invalidates no cache entry and dispatches no webhook, and it broadcasts again every one of them
-- whose first topic is one of the six types of a broadcast.
pub apply_groups-repeats :
    (c : Context) (events : List NormalizedIndexerEvent) (s : Store)
    → all_again c events s ≡ true
    → ((apply_groups c (group_co_transaction_events events) (start s)).store ≡ s)
      × ((apply_groups c (group_co_transaction_events events) (start s)).broadcasts
          ≡ broadcast_again c events)
      × ((apply_groups c (group_co_transaction_events events) (start s)).webhooks ≡ [])
      × ((apply_groups c (group_co_transaction_events events) (start s)).invalidated ≡ [])
      × ((apply_groups c (group_co_transaction_events events) (start s)).thrown ≡ false)
apply_groups-repeats c events s h =
    rw (apply_groups-ordered c events (start s) refl)
      (apply_group-Repeats c events (start s) refl h)

-- The side effects of a new event that the database refuses are lost: the step throws with the
-- event's row inserted, and a later step of the event, refused or not, changes no table.
pub apply_one-loses :
    (c later : Context) (e : NormalizedIndexerEvent) (s : Store) (type : String) (p : Payload)
    → c.normalize_soroban_event e.raw.topic e.raw.value ≡ some (type, p)
    → is_known_event_type type ≡ true
    → stored e s ≡ false
    → calls_database type (resolve_player c e.tx_hash e.event_index type p s) ≡ true
    → c.refuses e.tx_hash e.event_index ≡ true
    → is_known later e ≡ true
    → ((apply_one c e s).outcome ≡ none)
      × ((apply_one c e s).store.players ≡ s.players)
      × ((apply_one c e s).store.milestones ≡ s.milestones)
      × ((apply_one later e (apply_one c e s).store).store ≡ (apply_one c e s).store)
      × ((apply_one later e (apply_one c e s).store).outcome ≡ some applied)
unfolding apply_decoded after_insert insert_event
apply_one-loses c later e s type p found known new calls refused readable =
    let p' = resolve_player c e.tx_hash e.event_index type p s in
    let r = event_row c type p' e in
    let s' : Store = record s { events = s.events ++ r ∷ [] } in
    let first : apply_one c e s
        ≡ record { store = s'; invalidated = []; webhooks = []; outcome = none } =
      apply_one_decoded c e s type p found ∙ rw (known, new, known, calls, refused) refl in
    let again = apply_one_again later e s' readable (has_event-append_self s.events r) in
    rw first (rw again (refl, refl, refl, refl, refl))

existing_hash-last :
    (from_ledger : ℕ) (rows : List EventRow) (r : EventRow)
    → from_ledger ≤ r.ledger
    → str_eq r.ledger_hash "" ≡ false
    → existing_hash from_ledger (rows ++ r ∷ []) r.ledger ≡ some r.ledger_hash
unfolding existing_hash
existing_hash-last from_ledger [] r le named =
    let within : leb from_ledger r.ledger ≡ true = ground (arith, le) in
    rw (within, (==_iff r.ledger r.ledger).1 refl, named) refl
existing_hash-last from_ledger (q ∷ rows) r le named =
    rw (existing_hash-last from_ledger rows r le named) refl

-- A conflict is found, if not of this event then of one before it.
reorg_ledger-found :
    (from_ledger : ℕ) (rows : List EventRow) (raws later : List RawIndexerEvent)
    (raw : RawIndexerEvent)
    → conflicts (existing_hash from_ledger rows raw.ledger) (incoming_hash raw) ≡ true
    → (l : ℕ) × (reorg_ledger from_ledger rows (raws ++ raw ∷ later) ≡ some l)
unfolding reorg_ledger
reorg_ledger-found from_ledger rows [] later raw found = (raw.ledger, rw found refl)
reorg_ledger-found from_ledger rows (q ∷ raws) later raw found =
    let (l, rest) = reorg_ledger-found from_ledger rows raws later raw found in
    elim (Bool-cases (conflicts (existing_hash from_ledger rows q.ledger) (incoming_hash q))) [
      | inl here ↦ (q.ledger, rw here refl)
      | inr there ↦ (l, rw there rest)
    ]

-- Without ledger hashes the paging token of an event stands for its ledger: if the newest row is that
-- of an event within the margin, then a response that has, among others, an event of the same ledger
-- with another token makes the poll take some ledger for reorganised.
pub reorg_ledger-tokens :
    (c : Context) (from_ledger : ℕ) (rows : List EventRow) (b : NormalizedIndexerEvent)
    (type : String) (p : Payload) (earlier later : List RawIndexerEvent) (a : RawIndexerEvent)
    (first second : String)
    → from_ledger ≤ b.ledger
    → a.ledger ≡ b.ledger
    → a.ledger_hash ≡ none
    → b.raw.ledger_hash ≡ none
    → a.paging_token ≡ some first
    → b.raw.paging_token ≡ some second
    → str_eq first "" ≡ false
    → str_eq second "" ≡ false
    → str_eq second first ≡ false
    → (l : ℕ) × (reorg_ledger from_ledger (rows ++ event_row c type p b ∷ []) (earlier ++ a ∷ later)
        ≡ some l)
reorg_ledger-tokens c from_ledger rows b type p earlier later a first second le same ha hb pa pb na
      nb differ =
    let r = event_row c type p b in
    let stands : incoming_hash b.raw ≡ second = rw (hb, pb) refl in
    let comes : incoming_hash a ≡ first = rw (ha, pa) refl in
    let named : str_eq r.ledger_hash "" ≡ false = ap (λ t. str_eq t "") stands ∙ nb in
    let known : existing_hash from_ledger (rows ++ r ∷ []) a.ledger ≡ some second =
      ap (existing_hash from_ledger (rows ++ r ∷ [])) same
      ∙ existing_hash-last from_ledger rows r le named
      ∙ ap some stands in
    reorg_ledger-found from_ledger (rows ++ r ∷ []) earlier later a
      (rw (known, comes) (rw (na, differ) refl))
