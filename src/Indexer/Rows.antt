-- ===== src/Indexer/Rows.antt =====
-- Which rows the statements on the event tables leave, and that side effects keep both tables.
use scout_off_backend.Prelude.{
  ℕ, ◌≡◌, refl, sym, String, Bool, true, false, ◌&&◌, ◌||◌, none, some, List, [], ◌∷◌, ◌++◌, ◌==◌,
  str_eq, arith, eq_refl, eq_iff, Bool-cases, inl, inr, ==_iff,
}
use scout_off_backend.Ordering.{NormalizedIndexerEvent}
use scout_off_backend.Indexer.{
  Payload, EventRow, UnprocessedEventRow, Store, has_event, insert_event, upsert_unprocessed,
  insert_unprocessed_event,
}
use scout_off_backend.Indexer.Effects.{Context, decode_error, is_known_event_type, side_effects}
use scout_off_backend.Indexer.Apply.{
  after_insert, closed_at, apply_decoded, apply_normalized, apply_one, record_unapplied_event,
  topic_type,
}

unfoldable pub has_unprocessed : String → ℕ → List UnprocessedEventRow → Bool
has_unprocessed tx index [] = false
has_unprocessed tx index (r ∷ rows) =
    (str_eq r.tx_hash tx && r.event_index == index) || has_unprocessed tx index rows

pub has_event-append :
    (tx : String) (i : ℕ) (rows : List EventRow) (r : EventRow)
    → has_event tx i rows ≡ true
    → has_event tx i (rows ++ r ∷ []) ≡ true
unfolding has_event
has_event-append tx i [] r h = cc h
has_event-append tx i (q ∷ rows) r h = ground (arith, h, has_event-append tx i rows r)

pub has_event-append_self :
    (rows : List EventRow) (r : EventRow)
    → has_event r.tx_hash r.event_index (rows ++ r ∷ []) ≡ true
unfolding has_event
has_event-append_self [] r =
    rw (eq_refl r.tx_hash) (ground (arith, (==_iff r.event_index r.event_index).1 refl))
has_event-append_self (q ∷ rows) r = ground (arith, has_event-append_self rows r)

pub has_event-insert_event_self :
    (r : EventRow) (s : Store)
    → has_event r.tx_hash r.event_index (insert_event r s).0.events ≡ true
unfolding insert_event
has_event-insert_event_self r s = elim (Bool-cases (has_event r.tx_hash r.event_index s.events)) [
  | inl there ↦ rw there there
  | inr new ↦ rw new (has_event-append_self s.events r)
]

pub has_event-insert_event :
    (tx : String) (i : ℕ) (r : EventRow) (s : Store)
    → has_event tx i s.events ≡ true
    → has_event tx i (insert_event r s).0.events ≡ true
unfolding insert_event
has_event-insert_event tx i r s h = elim (Bool-cases (has_event r.tx_hash r.event_index s.events)) [
  | inl there ↦ rw there h
  | inr new ↦ rw new (has_event-append tx i s.events r h)
]

has_unprocessed-upsert_self :
    (p : UnprocessedEventRow) (rows : List UnprocessedEventRow)
    → has_unprocessed p.tx_hash p.event_index (upsert_unprocessed p rows) ≡ true
unfolding has_unprocessed upsert_unprocessed
has_unprocessed-upsert_self p [] =
    rw (eq_refl p.tx_hash) (ground (arith, (==_iff p.event_index p.event_index).1 refl))
has_unprocessed-upsert_self p (r ∷ rows) =
    ground (arith, eq_refl p.tx_hash, has_unprocessed-upsert_self p rows)

has_unprocessed-upsert :
    (tx : String) (i : ℕ) (p : UnprocessedEventRow) (rows : List UnprocessedEventRow)
    → has_unprocessed tx i rows ≡ true
    → has_unprocessed tx i (upsert_unprocessed p rows) ≡ true
unfolding has_unprocessed upsert_unprocessed
has_unprocessed-upsert tx i p [] h = cc h
has_unprocessed-upsert tx i p (r ∷ rows) h =
    elim (Bool-cases (str_eq r.tx_hash p.tx_hash && r.event_index == p.event_index)) [
      | inl same ↦
          let tx_same : str_eq r.tx_hash p.tx_hash ≡ true = ground (arith, same) in
          let index_same : r.event_index ≡ p.event_index = ground (arith, same) in
          rw same (rw (sym ((eq_iff r.tx_hash p.tx_hash).0 tx_same)) (rw (sym index_same) h))
      | inr other ↦ rw other (ground (arith, h, has_unprocessed-upsert tx i p rows))
    ]

pub side_effects-tables :
    (type : String) (p : Payload) (at ledger : ℕ) (s : Store)
    → ((side_effects type p at ledger s).events ≡ s.events)
      × ((side_effects type p at ledger s).unprocessed ≡ s.unprocessed)
      × ((side_effects type p at ledger s).last_ledger ≡ s.last_ledger)
unfolding side_effects
side_effects-tables type p at ledger s = ground arith

pub after_insert-tables :
    (c : Context) (type : String) (p : Payload) (e : NormalizedIndexerEvent) (s : Store) (b : Bool)
    → ((after_insert c type p e (s, b)).store.events ≡ s.events)
      × ((after_insert c type p e (s, b)).store.unprocessed ≡ s.unprocessed)
      × ((after_insert c type p e (s, b)).store.last_ledger ≡ s.last_ledger)
unfolding after_insert
after_insert-tables c type p e s false = (refl, refl, refl)
after_insert-tables c type p e s true =
    ground (arith, side_effects-tables type p (closed_at c e.raw.ledger_closed_at) e.raw.ledger s)

pub has_unprocessed-insert_self :
    (p : UnprocessedEventRow) (s : Store)
    → has_unprocessed p.tx_hash p.event_index (insert_unprocessed_event p s).unprocessed ≡ true
unfolding insert_unprocessed_event
has_unprocessed-insert_self p s =
    has_unprocessed-upsert_self (record p { id = s.next_id }) s.unprocessed

pub has_unprocessed-insert :
    (tx : String) (i : ℕ) (p : UnprocessedEventRow) (s : Store)
    → has_unprocessed tx i s.unprocessed ≡ true
    → has_unprocessed tx i (insert_unprocessed_event p s).unprocessed ≡ true
unfolding insert_unprocessed_event
has_unprocessed-insert tx i p s h =
    has_unprocessed-upsert tx i (record p { id = s.next_id }) s.unprocessed h

pub insert_event-unprocessed :
    (r : EventRow) (s : Store) → (insert_event r s).0.unprocessed ≡ s.unprocessed
unfolding insert_event
insert_event-unprocessed r s = ground arith

pub insert_unprocessed_event-events :
    (p : UnprocessedEventRow) (s : Store) → (insert_unprocessed_event p s).events ≡ s.events
unfolding insert_unprocessed_event
insert_unprocessed_event-events p s = refl

pub apply_one_undecoded :
    (c : Context) (e : NormalizedIndexerEvent) (s : Store)
    → c.normalize_soroban_event e.raw.topic e.raw.value ≡ none
    → apply_one c e s ≡ record {
      store = record_unapplied_event c e (topic_type c e) "decode_error" none s;
      invalidated = [];
      webhooks = [];
      outcome = some decode_error;
    }
unfolding apply_one apply_normalized
apply_one_undecoded c e s gone = rw gone refl

pub apply_one_decoded :
    (c : Context) (e : NormalizedIndexerEvent) (s : Store) (type : String) (p : Payload)
    → c.normalize_soroban_event e.raw.topic e.raw.value ≡ some (type, p)
    → apply_one c e s ≡ apply_decoded c e type p s
unfolding apply_one apply_normalized
apply_one_decoded c e s type p found = rw found refl

pub after_insert_accepted :
    (c : Context) (type : String) (p : Payload) (e : NormalizedIndexerEvent) (s : Store)
    → is_known_event_type type ≡ true
    → c.refuses e.tx_hash e.event_index ≡ false
    → (after_insert c type p e (s, true)).store
      ≡ side_effects type p (closed_at c e.raw.ledger_closed_at) e.raw.ledger s
unfolding after_insert
after_insert_accepted c type p e s known accepted = ground (arith, known, accepted)
