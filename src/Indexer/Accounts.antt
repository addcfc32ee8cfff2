-- ===== src/Indexer/Accounts.antt =====
-- What one step leaves of its event: a row of the events, or a parked row, or both.
use scout_off_backend.Prelude.{
  ◌≡◌, refl, String, Bool, true, Option, ◌&&◌, ◌||◌, none, some, arith, Bool-cases, Option-cases,
  inl, inr,
}
use scout_off_backend.Ordering.{NormalizedIndexerEvent}
use scout_off_backend.Indexer.{Payload, Store, has_event, insert_event}
use scout_off_backend.Indexer.Effects.{Context, Step, is_known_event_type, resolve_player}
use scout_off_backend.Indexer.Apply.{
  after_insert, apply_decoded, apply_one, event_row, record_unapplied_event, topic_type,
  unprocessed_event_row,
}
use scout_off_backend.Indexer.Rows.{
  apply_one_undecoded, apply_one_decoded, has_unprocessed, has_event-insert_event,
  has_event-insert_event_self, after_insert-tables, has_unprocessed-insert,
  has_unprocessed-insert_self, insert_event-unprocessed, insert_unprocessed_event-events,
}

abbrev pub stored : NormalizedIndexerEvent → Store → Bool
stored e s = has_event e.tx_hash e.event_index s.events

abbrev pub parked : NormalizedIndexerEvent → Store → Bool
parked e s = has_unprocessed e.tx_hash e.event_index s.unprocessed

-- The event is parked, or the database has refused its unprocessed row.
abbrev pub parked_or_refused : Context → NormalizedIndexerEvent → Store → Bool
parked_or_refused c e s = parked e s || c.refuses_parking e.tx_hash e.event_index

-- An event that decodes has a row, and is parked too if its type is not recognised; one that does
-- not decode is parked. An unprocessed row that the database refuses is not parked.
abbrev pub accounted_as :
    Context → Option (String × Payload) → NormalizedIndexerEvent → Store → Bool
accounted_as c none e s = parked_or_refused c e s
accounted_as c (some (type, p)) e s =
    stored e s && (is_known_event_type type || parked_or_refused c e s)

abbrev pub accounted : Context → NormalizedIndexerEvent → Store → Bool
accounted c e s = accounted_as c (c.normalize_soroban_event e.raw.topic e.raw.value) e s

-- The rows of the first store are in the second.
abbrev pub Keeps : Store → Store → Type 0
Keeps s s' =
    (e : NormalizedIndexerEvent)
    → (stored e s ≡ true → stored e s' ≡ true) × (parked e s ≡ true → parked e s' ≡ true)

pub accounted-Keeps :
    (c : Context) (e : NormalizedIndexerEvent) (s s' : Store)
    → Keeps s s'
    → accounted c e s ≡ true
    → accounted c e s' ≡ true
accounted-Keeps c e s s' keeps h = ground (arith, h, (keeps e).0, (keeps e).1)

module _ (c : Context) (e : NormalizedIndexerEvent) where
  insert_step : String → Payload → Store → Step
  insert_step type p s = after_insert c type p e (insert_event (event_row c type p e) s)

  insert_step-Keeps :
      (type : String) (p : Payload) (s : Store) → Keeps s (insert_step type p s).store
  unfolding insert_step
  insert_step-Keeps type p s f =
      let r = event_row c type p e in
      let after = after_insert-tables c type p e (insert_event r s).0 (insert_event r s).1 in
      (
        (λ h. rw (after.0) (has_event-insert_event f.tx_hash f.event_index r s h)),
        (λ h. rw (after.1, insert_event-unprocessed r s) h),
      )

  insert_step-stored :
      (type : String) (p : Payload) (s : Store) → stored e (insert_step type p s).store ≡ true
  unfolding insert_step
  insert_step-stored type p s =
      let r = event_row c type p e in
      let after = after_insert-tables c type p e (insert_event r s).0 (insert_event r s).1 in
      rw (after.0) (has_event-insert_event_self r s)

  unapplied-Keeps :
      (type : Option String) (reason : String) (p : Option Payload) (s : Store)
      → Keeps s (record_unapplied_event c e type reason p s)
  unfolding record_unapplied_event
  unapplied-Keeps type reason p s f =
      let q = unprocessed_event_row c e type reason p in
      elim (Bool-cases (c.refuses_parking e.tx_hash e.event_index)) [
        | inl refused ↦ rw refused ((λ h. h), (λ h. h))
        | inr taken ↦ rw taken (
          (λ h. rw (insert_unprocessed_event-events q s) h),
          (λ h. has_unprocessed-insert f.tx_hash f.event_index q s h),
        )
      ]

  unapplied-parked :
      (type : Option String) (reason : String) (p : Option Payload) (s : Store)
      → parked_or_refused c e (record_unapplied_event c e type reason p s) ≡ true
  unfolding record_unapplied_event
  unapplied-parked type reason p s =
      ground (arith, has_unprocessed-insert_self (unprocessed_event_row c e type reason p) s)

  apply_decoded-settles :
      (type : String) (p : Payload) (s : Store)
      → Keeps s (apply_decoded c e type p s).store
        × (stored e (apply_decoded c e type p s).store ≡ true)
        × ((is_known_event_type type || parked_or_refused c e (apply_decoded c e type p s).store)
            ≡ true)
  unfolding apply_decoded insert_step
  apply_decoded-settles type p s = elim (Bool-cases (is_known_event_type type)) [
    | inl known ↦
        let p' = resolve_player c e.tx_hash e.event_index type p s in
        rw known (insert_step-Keeps type p' s, insert_step-stored type p' s, refl)
    | inr unknown ↦
        let t = record_unapplied_event c e (some type) "unknown_type" (some p) s in
        let p' = resolve_player c e.tx_hash e.event_index type p t in
        let keeps = unapplied-Keeps (some type) "unknown_type" (some p) s in
        let waits = unapplied-parked (some type) "unknown_type" (some p) s in
        let after = insert_step-Keeps type p' t in
        rw unknown (
          (λ f. ((λ h. (after f).0 ((keeps f).0 h)), (λ h. (after f).1 ((keeps f).1 h)))),
          insert_step-stored type p' t,
          ground (arith, (after e).1, waits),
        )
  ]

  pub apply_one-accounts :
      (s : Store) → Keeps s (apply_one c e s).store × (accounted c e (apply_one c e s).store ≡ true)
  apply_one-accounts s = elim (Option-cases (c.normalize_soroban_event e.raw.topic e.raw.value)) [
    | inl gone ↦ rw (apply_one_undecoded c e s gone) (
      unapplied-Keeps (topic_type c e) "decode_error" none s,
      rw gone (unapplied-parked (topic_type c e) "decode_error" none s),
    )
    | inr ((type, p), found) ↦
        let (keeps, row, waits) = apply_decoded-settles type p s in
        rw (apply_one_decoded c e s type p found) (keeps, rw found (ground (arith, row, waits)))
  ]
