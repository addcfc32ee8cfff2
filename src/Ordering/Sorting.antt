-- ===== src/Ordering/Sorting.antt =====
-- `compareEventOrdinals` and `sortByEventOrdinal`. `before` is JavaScript's `<` on texts, and the
-- array's sort, which is stable, is an insertion of each event before those after it.
use Prim.Native.Nat.{compare, Ordering}
use mathlib.Core.List.Permᴰ
use mathlib.Core.List.{Permᴰ}
use scout_off_backend.Prelude.{
  ◌≡◌, refl, ap, String, Bool, true, false, not, List, [], ◌∷◌, ◌==◌, str_eq, if◌then◌else◌, arith,
  Bool-cases, eq_iff, inl, inr,
}
use scout_off_backend.Ordering.{NormalizedIndexerEvent}

abbrev pub is_positive : Ordering → Bool
is_positive Ordering.lt = false
is_positive Ordering.eq = false
is_positive Ordering.gt = true

module _ (before : String → String → Bool) where
  -- The sign of the result.
  unfoldable pub compare_event_ordinals : NormalizedIndexerEvent → NormalizedIndexerEvent → Ordering
  compare_event_ordinals a b =
      if not (a.ledger == b.ledger)
      then compare a.ledger b.ledger
      else if not (a.tx_application_order == b.tx_application_order)
      then compare a.tx_application_order b.tx_application_order
      else if not (a.event_index == b.event_index)
      then compare a.event_index b.event_index
      else if not (str_eq a.contract_id b.contract_id)
      then if before a.contract_id b.contract_id
        then Ordering.lt
        else if before b.contract_id a.contract_id
        then Ordering.gt
        else Ordering.eq
      else Ordering.eq

  -- The first event must come after the second.
  abbrev pub comes_after : NormalizedIndexerEvent → NormalizedIndexerEvent → Bool
  comes_after a b = is_positive (compare_event_ordinals a b)

  unfoldable pub insert_event :
      NormalizedIndexerEvent → List NormalizedIndexerEvent → List NormalizedIndexerEvent
  insert_event e [] = e ∷ []
  insert_event e (f ∷ events) =
      let rest = insert_event e events in if comes_after e f then f ∷ rest else e ∷ f ∷ events

  unfoldable pub sort_by_event_ordinal : List NormalizedIndexerEvent → List NormalizedIndexerEvent
  unfolding insert_event
  sort_by_event_ordinal [] = []
  sort_by_event_ordinal (e ∷ events) = insert_event e (sort_by_event_ordinal events)

  -- No event comes before the one it follows.
  abbrev pub starts_after : NormalizedIndexerEvent → List NormalizedIndexerEvent → Bool
  starts_after e [] = true
  starts_after e (f ∷ events) = not (comes_after e f)

  abbrev pub IsSorted : List NormalizedIndexerEvent → Type 0
  IsSorted [] = Unit
  IsSorted (e ∷ events) = (starts_after e events ≡ true) × IsSorted events

  insert_event-Perm :
      (e : NormalizedIndexerEvent) (events : List NormalizedIndexerEvent)
      → Permᴰ (insert_event e events) (e ∷ events)
  unfolding insert_event
  insert_event-Perm e [] = Permᴰ.refl (e ∷ [])
  insert_event-Perm e (f ∷ events) = elim (Bool-cases (comes_after e f)) [
    | inl after ↦
        rw after (Permᴰ.trans (Permᴰ.cons refl (insert_event-Perm e events)) (Permᴰ.swap refl refl))
    | inr placed ↦ rw placed (Permᴰ.refl (e ∷ f ∷ events))
  ]

  sort_by_event_ordinal-Perm :
      (events : List NormalizedIndexerEvent) → Permᴰ (sort_by_event_ordinal events) events
  unfolding sort_by_event_ordinal
  sort_by_event_ordinal-Perm [] = Permᴰ.nil
  sort_by_event_ordinal-Perm (e ∷ events) =
      Permᴰ.trans (insert_event-Perm e (sort_by_event_ordinal events))
        (Permᴰ.cons refl (sort_by_event_ordinal-Perm events))

  module _ (asym : (a b : String) → before a b ≡ true → before b a ≡ false) where
    comes_after-asym :
        (a b : NormalizedIndexerEvent) → comes_after a b ≡ true → comes_after b a ≡ false
    unfolding compare_event_ordinals
    comes_after-asym a b h = ground (
      arith,
      h,
      asym b.contract_id a.contract_id,
      asym a.contract_id b.contract_id,
      eq_iff a.contract_id b.contract_id,
      eq_iff b.contract_id a.contract_id,
    )

    insert_event-starts :
        (g e : NormalizedIndexerEvent) (events : List NormalizedIndexerEvent)
        → starts_after g events ≡ true
        → comes_after g e ≡ false
        → starts_after g (insert_event e events) ≡ true
    unfolding insert_event
    insert_event-starts g e [] h n = ground (arith, n)
    insert_event-starts g e (f ∷ events) h n = elim (Bool-cases (comes_after e f)) [
      | inl after ↦ rw after h
      | inr placed ↦ rw placed (ground (arith, n))
    ]

    insert_event-IsSorted :
        (e : NormalizedIndexerEvent) (events : List NormalizedIndexerEvent)
        → IsSorted events
        → IsSorted (insert_event e events)
    unfolding insert_event
    insert_event-IsSorted e [] h = (refl, tt)
    insert_event-IsSorted e (f ∷ events) (starts, h) = elim (Bool-cases (comes_after e f)) [
      | inl after ↦ rw after (
        insert_event-starts f e events starts (comes_after-asym e f after),
        insert_event-IsSorted e events h,
      )
      | inr placed ↦ rw placed (ap not placed, (starts, h))
    ]

    sort_by_event_ordinal-sorts :
        (events : List NormalizedIndexerEvent) → IsSorted (sort_by_event_ordinal events)
    unfolding sort_by_event_ordinal
    sort_by_event_ordinal-sorts [] = tt
    sort_by_event_ordinal-sorts (e ∷ events) =
        insert_event-IsSorted e (sort_by_event_ordinal events) (sort_by_event_ordinal-sorts events)

    -- If `<` on texts is asymmetric, the sorted events are a permutation of the given ones, and none
    -- of them compares as coming after the next.
    pub sort_by_event_ordinal-IsSorted :
        (events : List NormalizedIndexerEvent)
        → Permᴰ (sort_by_event_ordinal events) events × IsSorted (sort_by_event_ordinal events)
    sort_by_event_ordinal-IsSorted events =
        (sort_by_event_ordinal-Perm events, sort_by_event_ordinal-sorts events)
