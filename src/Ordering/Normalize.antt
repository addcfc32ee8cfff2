-- ===== src/Ordering/Normalize.antt =====
-- `normalizeAndSortEvents` and `parseEventIdOrdinals` of src/services/eventOrdering.ts. `split` gives
-- the trimmed parts of an id between its dashes, `number` is JavaScript's `Number` where that is
-- finite; the ordinals are naturals. The first sort, like the last, is an insertion of each event
-- before those after it: where some events have ids and others none, its comparison is no order, and
-- the engine's sort may give another one.
pub mod Distinct
pub mod Kept
use scout_off_backend.Prelude.{
  ℕ, ◌+◌, String, Bool, false, not, ◌&&◌, Option, none, some, List, [], ◌∷◌, ◌==◌, ltb, str_eq,
  if◌then◌else◌,
}
use scout_off_backend.Ordering.{RawIndexerEvent, NormalizedIndexerEvent}
use scout_off_backend.Ordering.Sorting.{sort_by_event_ordinal}

pub record Ordinals : Type 0 where
  pub ledger : ℕ
  pub tx_application_order : ℕ
  pub event_index : ℕ

abbrev three_numbers : Option ℕ → Option ℕ → Option ℕ → Option Ordinals
three_numbers (some l) (some t) (some e) =
    some (record { ledger = l; tx_application_order = t; event_index = e })
three_numbers _ _ _ = none

abbrev of_parts : (String → Option ℕ) → List String → Option Ordinals
of_parts number (l ∷ t ∷ e ∷ rest) = three_numbers (number l) (number t) (number e)
of_parts number _ = none

unfoldable pub parse_event_id_ordinals :
    (String → List String) → (String → Option ℕ) → Option String → Option Ordinals
parse_event_id_ordinals split number none = none
parse_event_id_ordinals split number (some id) =
    if str_eq id "" then none else of_parts number (split id)

abbrev pub or_else {ℓ} : {A : Type ℓ} → Option A → Option A → Option A
or_else none b = b
or_else (some a) b = some a

abbrev or_text : Option String → String → String
or_text none d = d
or_text (some t) d = t

-- The three maps of the assignment.
pub record Assigned : Type 0 where
  pub tx_order_by_ledger : ℕ → String → Option ℕ
  pub next_tx_order_by_ledger : ℕ → ℕ
  pub event_index_by_tx : String → ℕ

abbrev pub unassigned : Assigned
unassigned = record {
  tx_order_by_ledger = λ ledger tx. none;
  next_tx_order_by_ledger = λ ledger. 0;
  event_index_by_tx = λ tx. 0;
}

-- The first-seen order of a transaction in its ledger.
abbrev pub fallback_order : RawIndexerEvent → Assigned → ℕ × Assigned
fallback_order raw a = elim (a.tx_order_by_ledger raw.ledger raw.tx_hash) [
  | some order ↦ (order, a)
  | none ↦
      let order = a.next_tx_order_by_ledger raw.ledger in
      (
        order,
        record a {
          next_tx_order_by_ledger =
              λ l. if l == raw.ledger then order + 1 else a.next_tx_order_by_ledger l;
          tx_order_by_ledger = λ l tx.
              if l == raw.ledger && str_eq tx raw.tx_hash
              then some order
              else a.tx_order_by_ledger l tx;
        },
      )
]

-- The first-seen index of an event in its transaction.
abbrev pub fallback_index : RawIndexerEvent → Assigned → ℕ × Assigned
fallback_index raw a =
    let next = a.event_index_by_tx raw.tx_hash in
    (
      next,
      record a {
        event_index_by_tx =
            λ tx. if str_eq tx raw.tx_hash then next + 1 else a.event_index_by_tx tx;
      },
    )

abbrev order_of : Option ℕ → Option Ordinals → RawIndexerEvent → Assigned → ℕ × Assigned
order_of (some order) parsed raw a = (order, a)
order_of none (some o) raw a = (o.tx_application_order, a)
order_of none none raw a = fallback_order raw a

abbrev index_of : Option ℕ → Option Ordinals → RawIndexerEvent → Assigned → ℕ × Assigned
index_of (some index) parsed raw a = (index, a)
index_of none (some o) raw a = (o.event_index, a)
index_of none none raw a = fallback_index raw a

module _ (split : String → List String) (number : String → Option ℕ) (default_contract_id : String)
    (before : String → String → Bool) where
  -- The body of the `map`.
  unfoldable pub assign_one : RawIndexerEvent → Assigned → NormalizedIndexerEvent × Assigned
  assign_one raw a =
      let parsed = parse_event_id_ordinals split number (or_else raw.id raw.paging_token) in
      let order = order_of raw.tx_index parsed raw a in
      let index = index_of raw.event_index parsed raw order.1 in
      (
        record {
          ledger = raw.ledger;
          tx_application_order = order.0;
          event_index = index.0;
          contract_id = or_text raw.contract_id default_contract_id;
          tx_hash = raw.tx_hash;
          raw = raw;
        },
        index.1,
      )

  unfoldable pub assign_all : List RawIndexerEvent → Assigned → List NormalizedIndexerEvent
  unfolding assign_one
  assign_all [] a = []
  assign_all (raw ∷ raws) a = (assign_one raw a).0 ∷ assign_all raws (assign_one raw a).1

  -- The first event must come after the second.
  abbrev pub raw_after : RawIndexerEvent → RawIndexerEvent → Bool
  raw_after a b =
      let a_id = or_text a.id "" in
      let b_id = or_text b.id "" in
      if not (a.ledger == b.ledger)
      then ltb b.ledger a.ledger
      else if not (str_eq a_id "") && (not (str_eq b_id "") && not (str_eq a_id b_id))
      then not (before a_id b_id)
      else if not (str_eq a.tx_hash b.tx_hash)
      then not (before a.tx_hash b.tx_hash) && before b.tx_hash a.tx_hash
      else false

  unfoldable pub insert_raw : RawIndexerEvent → List RawIndexerEvent → List RawIndexerEvent
  insert_raw e [] = e ∷ []
  insert_raw e (f ∷ events) =
      let rest = insert_raw e events in if raw_after e f then f ∷ rest else e ∷ f ∷ events

  unfoldable pub pre_sort : List RawIndexerEvent → List RawIndexerEvent
  unfolding insert_raw
  pre_sort [] = []
  pre_sort (e ∷ events) = insert_raw e (pre_sort events)

  unfoldable pub normalize_and_sort_events : List RawIndexerEvent → List NormalizedIndexerEvent
  unfolding assign_all pre_sort sort_by_event_ordinal
  normalize_and_sort_events events =
      sort_by_event_ordinal before (assign_all (pre_sort events) unassigned)
