-- ===== src/Ordering/Normalize/Distinct.antt =====
-- The transaction hash and event index of a normalized event identify it in its batch, also where the
-- server gives no ordinals.
use scout_off_backend.Prelude.{
  ℕ, suc, ◌+◌, ◌≡◌, ◌≤◌, ◌<◌, refl, sym, ap, ◌∙◌, String, Bool, true, false, ◌&&◌, Option, none,
  some, List, [], ◌∷◌, ◌==◌, str_eq, if◌then◌else◌, arith, eq_iff, ==_iff, Bool-cases, Option-cases,
  inl, inr,
}
use scout_off_backend.Ordering.{RawIndexerEvent, NormalizedIndexerEvent}
use scout_off_backend.Ordering.Sorting.{sort_by_event_ordinal, insert_event, comes_after}
use scout_off_backend.Ordering.Normalize.{
  Ordinals, Assigned, parse_event_id_ordinals, or_else, assign_one, assign_all, order_of,
  fallback_order, index_of, fallback_index, insert_raw, raw_after, pre_sort, unassigned,
  normalize_and_sort_events,
}

-- The events of the transaction with the index.
unfoldable pub count_key : String → ℕ → List NormalizedIndexerEvent → ℕ
count_key tx i [] = 0
count_key tx i (e ∷ events) =
    let rest = count_key tx i events in
    if str_eq tx e.tx_hash && e.event_index == i then suc rest else rest

-- One event: `n` and `after` are the next index of the transaction before and after it, `c` counts
-- the key in the rest.
count_step :
    (same : Bool) (index n after i c : ℕ)
    → (same ≡ true → n ≡ index)
    → after ≡ (if same then index + 1 else n)
    → c ≤ 1
    → (i < after → c ≡ 0)
    → ((if same && index == i then suc c else c) ≤ 1)
      × (i < n → (if same && index == i then suc c else c) ≡ 0)
count_step false index n after i c equal next once below = (once, (λ h. below (omega arith)))
count_step true index n after i c equal next once below =
    let at = equal refl in
    elim (Bool-cases (index == i)) [
      | inl here ↦
          let there = (==_iff index i).0 here in
          let none_left = below (omega arith) in rw here (omega arith, (λ h. omega arith))
      | inr other ↦ rw other (once, (λ h. below (omega arith)))
    ]

module _ (split : String → List String) (number : String → Option ℕ) (default_contract_id : String)
    (before : String → String → Bool) where
  -- Each event comes without an index, and its id gives no ordinals.
  abbrev AreBare : List RawIndexerEvent → Type 0
  AreBare [] = Unit
  AreBare (raw ∷ raws) =
      (raw.event_index ≡ none)
      × (parse_event_id_ordinals split number (or_else raw.id raw.paging_token) ≡ none)
      × AreBare raws

  fallback_order-keeps :
      (raw : RawIndexerEvent) (a : Assigned)
      → (fallback_order raw a).1.event_index_by_tx ≡ a.event_index_by_tx
  fallback_order-keeps raw a = elim (Option-cases (a.tx_order_by_ledger raw.ledger raw.tx_hash)) [
    | inl new ↦ rw (new, fallback_order) refl
    | inr (order, found) ↦ rw (found, fallback_order) refl
  ]

  order_of-keeps :
      (given : Option ℕ) (raw : RawIndexerEvent) (a : Assigned)
      → (order_of given none raw a).1.event_index_by_tx ≡ a.event_index_by_tx
  order_of-keeps none raw a = fallback_order-keeps raw a
  order_of-keeps (some order) raw a = refl

  index_of-bare :
      (given : Option ℕ) (parsed : Option Ordinals) (raw : RawIndexerEvent) (a : Assigned)
      → given ≡ none
      → parsed ≡ none
      → index_of given parsed raw a ≡ fallback_index raw a
  index_of-bare none none raw a bare unparsed = refl
  index_of-bare none (some o) raw a bare unparsed = grind arith
  index_of-bare (some i) parsed raw a bare unparsed = grind arith

  -- A bare event gets the next index of its transaction.
  assign_one-bare :
      (raw : RawIndexerEvent) (a : Assigned) (tx : String)
      → raw.event_index ≡ none
      → parse_event_id_ordinals split number (or_else raw.id raw.paging_token) ≡ none
      → ((assign_one split number default_contract_id before raw a).0.event_index
          ≡ a.event_index_by_tx raw.tx_hash)
        × ((assign_one split number default_contract_id before raw a).1.event_index_by_tx tx ≡ (
            if str_eq tx raw.tx_hash
            then a.event_index_by_tx raw.tx_hash + 1
            else a.event_index_by_tx tx))
  unfolding assign_one
  assign_one-bare raw a tx bare unparsed =
      let parsed = parse_event_id_ordinals split number (or_else raw.id raw.paging_token) in
      let order = order_of raw.tx_index parsed raw a in
      let same = index_of-bare raw.event_index parsed raw order.1 bare unparsed in
      let kept =
        ap (λ p. (order_of raw.tx_index p raw a).1.event_index_by_tx) unparsed
        ∙ order_of-keeps raw.tx_index raw a in
      (
        ap (λ r. r.0) same ∙ ap (λ t. t raw.tx_hash) kept,
        ap (λ r. r.1.event_index_by_tx tx) same
            ∙ ap (λ t. if str_eq tx raw.tx_hash then t raw.tx_hash + 1 else t tx) kept,
      )

  abbrev assigned : List RawIndexerEvent → Assigned → List NormalizedIndexerEvent
  assigned raws a = assign_all split number default_contract_id before raws a

  -- No key is assigned twice, and none below the next index.
  abbrev IsOnce : String → ℕ → List RawIndexerEvent → Assigned → Type 0
  IsOnce tx i raws a =
      (count_key tx i (assigned raws a) ≤ 1)
      × (i < a.event_index_by_tx tx → count_key tx i (assigned raws a) ≡ 0)

  assign_all-IsOnce :
      (tx : String) (i : ℕ) (raws : List RawIndexerEvent) (a : Assigned)
      → AreBare raws
      → IsOnce tx i raws a
  unfolding count_key assign_all
  assign_all-IsOnce tx i [] a bare = (omega arith, (λ h. refl))
  assign_all-IsOnce tx i (raw ∷ raws) a (bare, unparsed, rest) =
      let e = (assign_one split number default_contract_id before raw a).0 in
      let a' = (assign_one split number default_contract_id before raw a).1 in
      let (index, next) = assign_one-bare raw a tx bare unparsed in
      let (once, below) = assign_all-IsOnce tx i raws a' rest in
      count_step (str_eq tx raw.tx_hash) e.event_index (a.event_index_by_tx tx)
        (a'.event_index_by_tx tx) i (count_key tx i (assigned raws a'))
        (λ same. ap a.event_index_by_tx ((eq_iff tx raw.tx_hash).0 same) ∙ sym index)
        (next
          ∙ ap (λ k. if str_eq tx raw.tx_hash then k + 1 else a.event_index_by_tx tx) (sym index))
        once below

  insert_raw-AreBare :
      (raw : RawIndexerEvent) (raws : List RawIndexerEvent)
      → AreBare (raw ∷ raws)
      → AreBare (insert_raw split number default_contract_id before raw raws)
  unfolding insert_raw
  insert_raw-AreBare raw [] bare = bare
  insert_raw-AreBare raw (f ∷ raws) (b, p, fs) =
      elim (Bool-cases (raw_after split number default_contract_id before raw f)) [
        | inl after ↦
            let (fb, fp, rest) = fs in rw after (fb, fp, insert_raw-AreBare raw raws (b, p, rest))
        | inr placed ↦ rw placed (b, p, fs)
      ]

  pre_sort-AreBare :
      (raws : List RawIndexerEvent)
      → AreBare raws
      → AreBare (pre_sort split number default_contract_id before raws)
  unfolding pre_sort
  pre_sort-AreBare [] bare = bare
  pre_sort-AreBare (raw ∷ raws) (b, p, rest) =
      insert_raw-AreBare raw (pre_sort split number default_contract_id before raws)
        (b, p, pre_sort-AreBare raws rest)

  count_key-insert_event :
      (tx : String) (i : ℕ) (e : NormalizedIndexerEvent) (events : List NormalizedIndexerEvent)
      → count_key tx i (insert_event before e events) ≡ count_key tx i (e ∷ events)
  unfolding count_key insert_event
  count_key-insert_event tx i e [] = refl
  count_key-insert_event tx i e (f ∷ events) =
      let step = count_key-insert_event tx i e events in
      elim (Bool-cases (comes_after before e f)) [
        | inl after ↦ elim (Bool-cases (str_eq tx e.tx_hash && e.event_index == i)) [
          | inl here ↦ elim (Bool-cases (str_eq tx f.tx_hash && f.event_index == i)) [
            | inl both ↦ rw (after, step, here, both) refl
            | inr single ↦ rw (after, step, here, single) refl
          ]
          | inr other ↦ rw (after, step, other) refl
        ]
        | inr placed ↦ rw placed refl
      ]

  count_key-sort :
      (tx : String) (i : ℕ) (events : List NormalizedIndexerEvent)
      → count_key tx i (sort_by_event_ordinal before events) ≡ count_key tx i events
  unfolding count_key sort_by_event_ordinal
  count_key-sort tx i [] = refl
  count_key-sort tx i (e ∷ events) =
      count_key-insert_event tx i e (sort_by_event_ordinal before events)
      ∙ ap (λ c. if str_eq tx e.tx_hash && e.event_index == i then suc c else c)
          (count_key-sort tx i events)

  -- In a batch whose events all come without an index, and with an id or paging token that gives no
  -- ordinals, no two normalized events have the same transaction hash and event index.
  pub normalize_and_sort_events-distinct :
      (events : List RawIndexerEvent) (tx : String) (i : ℕ)
      → AreBare events
      → count_key tx i (normalize_and_sort_events split number default_contract_id before events)
        ≤ 1
  unfolding normalize_and_sort_events
  normalize_and_sort_events-distinct events tx i bare =
      let sorted = pre_sort split number default_contract_id before events in
      let once = assign_all-IsOnce tx i sorted unassigned (pre_sort-AreBare events bare) in
      rw (count_key-sort tx i (assigned sorted unassigned)) once.0
