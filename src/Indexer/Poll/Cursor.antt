-- ===== src/Indexer/Poll/Cursor.antt =====
-- Where the cursor stands after a poll.
use scout_off_backend.Prelude.{
  ℕ, ◌+◌, ◌≡◌, refl, sym, ap, ◌∙◌, String, Bool, true, false, not, ◌&&◌, ◌||◌, ◌==◌, ==_iff, Option,
  none, some, List, [], ◌∷◌, arith, Bool-cases, Option-cases, inl, inr,
}
use mathlib.Core.Path.{ap₂}
use scout_off_backend.Ordering.{RawIndexerEvent, NormalizedIndexerEvent}
use scout_off_backend.Indexer.{
  Store, Payload, EventRow, insert_event, insert_unprocessed_event, rollback_events_from_ledger,
}
use scout_off_backend.Indexer.Effects.{Context, is_known_event_type, resolve_player}
use scout_off_backend.Indexer.Apply.{
  apply_one, after_insert, apply_decoded, event_row, record_unapplied_event, topic_type,
}
use scout_off_backend.Indexer.Rows.{apply_one_undecoded, apply_one_decoded, after_insert-tables}
use scout_off_backend.Indexer.Poll.{
  Batch, record_step, apply_group, from_ledger_of, cursor_of, last_ledger_of, Gauges, Response,
  finish, reorg_ledger, roll_back, start,
}
use scout_off_backend.Indexer.Poll.Parked.{record_step-store}
use scout_off_backend.Indexer.Poll.Flat.{poll, response, applied_batch, poll_batch}
use scout_off_backend.Indexer.Poll.Window.{
  all_held, is_blocking, apply_group-AreAbove, all_held-cursor_of,
}

insert_event-last_ledger :
    (r : EventRow) (s : Store) → (insert_event r s).0.last_ledger ≡ s.last_ledger
unfolding insert_event
insert_event-last_ledger r s = ground arith

record_unapplied_event-last_ledger :
    (c : Context) (e : NormalizedIndexerEvent) (type : Option String) (reason : String)
    (p : Option Payload) (s : Store)
    → (record_unapplied_event c e type reason p s).last_ledger ≡ s.last_ledger
unfolding record_unapplied_event insert_unprocessed_event
record_unapplied_event-last_ledger c e type reason p s = ground arith

apply_decoded-last_ledger :
    (c : Context) (e : NormalizedIndexerEvent) (type : String) (p : Payload) (s : Store)
    → (apply_decoded c e type p s).store.last_ledger ≡ s.last_ledger
unfolding apply_decoded
apply_decoded-last_ledger c e type p s = elim (Bool-cases (is_known_event_type type)) [
  | inl known ↦
      let p' = resolve_player c e.tx_hash e.event_index type p s in
      let r = event_row c type p' e in
      let after = after_insert-tables c type p' e (insert_event r s).0 (insert_event r s).1 in
      rw known (after.2 ∙ insert_event-last_ledger r s)
  | inr unknown ↦
      let t = record_unapplied_event c e (some type) "unknown_type" (some p) s in
      let p' = resolve_player c e.tx_hash e.event_index type p t in
      let r = event_row c type p' e in
      let after = after_insert-tables c type p' e (insert_event r t).0 (insert_event r t).1 in
      rw unknown (
        after.2
        ∙ insert_event-last_ledger r t
        ∙ record_unapplied_event-last_ledger c e (some type) "unknown_type" (some p) s)
]

apply_one-last_ledger :
    (c : Context) (e : NormalizedIndexerEvent) (s : Store)
    → (apply_one c e s).store.last_ledger ≡ s.last_ledger
apply_one-last_ledger c e s =
    elim (Option-cases (c.normalize_soroban_event e.raw.topic e.raw.value)) [
      | inl gone ↦
          rw (apply_one_undecoded c e s gone)
            (record_unapplied_event-last_ledger c e (topic_type c e) "decode_error" none s)
      | inr ((type, p), found) ↦
          rw (apply_one_decoded c e s type p found) (apply_decoded-last_ledger c e type p s)
    ]

apply_group-last_ledger :
    (c : Context) (events : List NormalizedIndexerEvent) (b : Batch)
    → (apply_group c events b).store.last_ledger ≡ b.store.last_ledger
unfolding apply_group
apply_group-last_ledger c [] b = refl
apply_group-last_ledger c (e ∷ events) b =
    let b' = record_step c e (apply_one c e b.store) b in
    let step : b'.store.last_ledger ≡ b.store.last_ledger =
      ap (λ s. s.last_ledger) (record_step-store c e (apply_one c e b.store) b)
      ∙ apply_one-last_ledger c e b.store in
    elim (Bool-cases b'.thrown) [
      | inl stop ↦ rw stop step
      | inr on ↦ rw on (apply_group-last_ledger c events b' ∙ step)
    ]

-- A decoded event has another outcome than a decode error.
decoded_free :
    (c : Context) (e : NormalizedIndexerEvent) (type : String) (p : Payload) (s : Store) (b : Bool)
    (batch : Batch)
    → (record_step c e (after_insert c type p e (s, b)) batch).thrown ≡ false
    → (record_step c e (after_insert c type p e (s, b)) batch).earliest_known_failure_ledger
      ≡ batch.earliest_known_failure_ledger
unfolding record_step after_insert
decoded_free c e type p s false batch = ground arith
decoded_free c e type p s true batch = ground arith

apply_decoded-free :
    (c : Context) (e : NormalizedIndexerEvent) (type : String) (p : Payload) (s : Store)
    (batch : Batch)
    → (record_step c e (apply_decoded c e type p s) batch).thrown ≡ false
    → (record_step c e (apply_decoded c e type p s) batch).earliest_known_failure_ledger
      ≡ batch.earliest_known_failure_ledger
unfolding apply_decoded
apply_decoded-free c e type p s batch = elim (Bool-cases (is_known_event_type type)) [
  | inl known ↦
      let p' = resolve_player c e.tx_hash e.event_index type p s in
      let new = insert_event (event_row c type p' e) s in
      rw known (decoded_free c e type p' new.0 new.1 batch)
  | inr unknown ↦
      let t = record_unapplied_event c e (some type) "unknown_type" (some p) s in
      let p' = resolve_player c e.tx_hash e.event_index type p t in
      let new = insert_event (event_row c type p' e) t in
      rw unknown (decoded_free c e type p' new.0 new.1 batch)
]

record_step-free :
    (c : Context) (e : NormalizedIndexerEvent) (b : Batch)
    → is_blocking c e ≡ false
    → (record_step c e (apply_one c e b.store) b).thrown ≡ false
    → (record_step c e (apply_one c e b.store) b).earliest_known_failure_ledger
      ≡ b.earliest_known_failure_ledger
unfolding record_step
record_step-free c e b free =
    elim (Option-cases (c.normalize_soroban_event e.raw.topic e.raw.value)) [
      | inl gone ↦
          let unknown : is_known_event_type (c.safe_topic_type e.raw.topic) ≡ false =
            ground (arith, free, gone) in
          rw (apply_one_undecoded c e b.store gone) (rw unknown (λ done. refl))
      | inr ((type, p), found) ↦
          rw (apply_one_decoded c e b.store type p found) (apply_decoded-free c e type p b.store b)
    ]

unfoldable pub none_blocks : Context → List NormalizedIndexerEvent → Bool
none_blocks c [] = true
none_blocks c (e ∷ events) = not (is_blocking c e) && none_blocks c events

apply_group-free :
    (c : Context) (events : List NormalizedIndexerEvent) (b : Batch)
    → none_blocks c events ≡ true
    → (apply_group c events b).thrown ≡ false
    → (apply_group c events b).earliest_known_failure_ledger ≡ b.earliest_known_failure_ledger
unfolding apply_group none_blocks
apply_group-free c [] b free = λ done. refl
apply_group-free c (e ∷ events) b free =
    let b' = record_step c e (apply_one c e b.store) b in
    let here : is_blocking c e ≡ false = ground (arith, free) in
    let there : none_blocks c events ≡ true = ground (arith, free) in
    elim (Bool-cases b'.thrown) [
      | inl stop ↦ rw stop (λ done. cc (sym stop ∙ done))
      | inr on ↦
          rw on (λ done. apply_group-free c events b' there done ∙ record_step-free c e b here on)
    ]

finish-last_ledger :
    (c : Context) (resp : Response) (ordered : List NormalizedIndexerEvent) (g : Gauges) (b : Batch)
    → ((finish c resp ordered g b).0.thrown ≡ b.thrown)
      × (b.thrown ≡ true → (finish c resp ordered g b).0.store.last_ledger ≡ b.store.last_ledger)
      × (b.thrown ≡ false
          → (finish c resp ordered g b).0.store.last_ledger
            ≡ cursor_of b.earliest_known_failure_ledger (last_ledger_of ordered))
unfolding finish
finish-last_ledger c resp ordered g b = elim (Bool-cases b.thrown) [
  | inl stop ↦ rw stop (refl, (λ x. refl), (λ x. cc x))
  | inr on ↦ rw on (refl, (λ x. cc x), (λ x. refl))
]

roll_back-last_ledger : (o : Option ℕ) (s : Store) → (roll_back o s).last_ledger ≡ s.last_ledger
unfolding rollback_events_from_ledger
roll_back-last_ledger none s = refl
roll_back-last_ledger (some l) s = refl

-- What the cursor has to be after a poll that has thrown or not, from the one before it.
unfoldable pub cursor_is_right : Context → List NormalizedIndexerEvent → ℕ → ℕ → Bool → ℕ → Bool
cursor_is_right c ordered margin before true cursor = cursor == before
cursor_is_right c ordered margin before false cursor =
    all_held c ordered (from_ledger_of margin cursor)
    && (not (none_blocks c ordered) || cursor == last_ledger_of ordered + 1)

cursor_of-right :
    (c : Context) (events : List NormalizedIndexerEvent) (margin before : ℕ) (begun : Batch)
    → (apply_group c events begun).thrown ≡ false
    → begun.earliest_known_failure_ledger ≡ none
    → cursor_is_right c events margin before false (
        cursor_of
          (apply_group c events begun).earliest_known_failure_ledger
          (last_ledger_of events))
      ≡ true
unfolding cursor_is_right
cursor_of-right c events margin before begun on fresh =
    let o = (apply_group c events begun).earliest_known_failure_ledger in
    let latest = last_ledger_of events in
    rw (all_held-cursor_of c events o margin latest (apply_group-AreAbove c events begun on))
      (elim (Bool-cases (none_blocks c events)) [
        | inl free ↦
            let none_left : o ≡ none = apply_group-free c events begun free on ∙ fresh in
            rw (free, none_left) ((==_iff (latest + 1) (latest + 1)).1 refl)
        | inr blocked ↦ rw blocked refl
      ])

-- A poll of a response with events that fails leaves the cursor. After any other, no event that
-- failed to decode under a recognised topic is older than the first ledger of the next poll, and if
-- there is no such event the cursor is the ledger after that of the last event.
pub index_events-cursor :
    (c : Context) (sort : List RawIndexerEvent → List NormalizedIndexerEvent) (margin latest : ℕ)
    (raw : RawIndexerEvent) (raws : List RawIndexerEvent) (g : Gauges) (s : Store)
    → cursor_is_right c
        (sort (raw ∷ raws))
        margin
        s.last_ledger
        (poll c sort margin (response latest raw raws) g s).thrown
        (poll c sort margin (response latest raw raws) g s).store.last_ledger
      ≡ true
unfolding cursor_is_right
index_events-cursor c sort margin latest raw raws g s =
    let ordered = sort (raw ∷ raws) in
    let reorg = reorg_ledger (from_ledger_of margin s.last_ledger) s.events (raw ∷ raws) in
    let begun = start (roll_back reorg s) in
    let b = applied_batch c sort margin (raw ∷ raws) s in
    let (same, stopped, moved) = finish-last_ledger c (response latest raw raws) ordered g b in
    let kept = apply_group-last_ledger c ordered begun ∙ roll_back-last_ledger reorg s in
    let right = cursor_is_right c ordered margin s.last_ledger in
    ap (λ r. right r.thrown r.store.last_ledger) (poll_batch c sort margin latest raw raws g s)
    ∙ elim (Bool-cases b.thrown) [
      | inl stop ↦
          ap₂ right (same ∙ stop) (stopped stop ∙ kept)
          ∙ (==_iff s.last_ledger s.last_ledger).1 refl
      | inr on ↦
          ap₂ right (same ∙ on) (moved on)
          ∙ cursor_of-right c ordered margin s.last_ledger begun on refl
    ]
