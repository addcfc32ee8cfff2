-- ===== src/Ordering/Normalize/Kept.antt =====
-- Which raw events the normalized ones are.
use mathlib.Core.List.Permᴰ
use mathlib.Core.List.{Permᴰ}
use scout_off_backend.Prelude.{
  ℕ, ◌≡◌, refl, ap, String, Bool, Option, List, [], ◌∷◌, Bool-cases, inl, inr,
}
use scout_off_backend.Ordering.{RawIndexerEvent, NormalizedIndexerEvent}
use scout_off_backend.Ordering.Sorting.{sort_by_event_ordinal, insert_event, comes_after}
use scout_off_backend.Ordering.Normalize.{
  assign_one, assign_all, Assigned, insert_raw, raw_after, pre_sort, unassigned,
  normalize_and_sort_events,
}

unfoldable pub raws_of : List NormalizedIndexerEvent → List RawIndexerEvent
raws_of [] = []
raws_of (e ∷ events) = e.raw ∷ raws_of events

module _ (split : String → List String) (number : String → Option ℕ) (default_contract_id : String)
    (before : String → String → Bool) where
  raws_of-assign_all :
      (raws : List RawIndexerEvent) (a : Assigned)
      → raws_of (assign_all split number default_contract_id before raws a) ≡ raws
  unfolding raws_of assign_all
  raws_of-assign_all [] a = refl
  raws_of-assign_all (raw ∷ raws) a =
      ap (λ rest. raw ∷ rest)
        (raws_of-assign_all raws (assign_one split number default_contract_id before raw a).1)

  insert_raw-Perm :
      (e : RawIndexerEvent) (events : List RawIndexerEvent)
      → Permᴰ (insert_raw split number default_contract_id before e events) (e ∷ events)
  unfolding insert_raw
  insert_raw-Perm e [] = Permᴰ.refl (e ∷ [])
  insert_raw-Perm e (f ∷ events) =
      elim (Bool-cases (raw_after split number default_contract_id before e f)) [
        | inl after ↦
            rw after
              (Permᴰ.trans (Permᴰ.cons refl (insert_raw-Perm e events)) (Permᴰ.swap refl refl))
        | inr placed ↦ rw placed (Permᴰ.refl (e ∷ f ∷ events))
      ]

  pre_sort-Perm :
      (events : List RawIndexerEvent)
      → Permᴰ (pre_sort split number default_contract_id before events) events
  unfolding pre_sort
  pre_sort-Perm [] = Permᴰ.nil
  pre_sort-Perm (e ∷ events) =
      Permᴰ.trans (insert_raw-Perm e (pre_sort split number default_contract_id before events))
        (Permᴰ.cons refl (pre_sort-Perm events))

  raws_of-insert_event :
      (e : NormalizedIndexerEvent) (events : List NormalizedIndexerEvent)
      → Permᴰ (raws_of (insert_event before e events)) (e.raw ∷ raws_of events)
  unfolding insert_event raws_of
  raws_of-insert_event e [] = Permᴰ.refl (e.raw ∷ [])
  raws_of-insert_event e (f ∷ events) = elim (Bool-cases (comes_after before e f)) [
    | inl after ↦
        rw after
          (Permᴰ.trans (Permᴰ.cons refl (raws_of-insert_event e events)) (Permᴰ.swap refl refl))
    | inr placed ↦ rw placed (Permᴰ.refl (e.raw ∷ f.raw ∷ raws_of events))
  ]

  raws_of-sort :
      (events : List NormalizedIndexerEvent)
      → Permᴰ (raws_of (sort_by_event_ordinal before events)) (raws_of events)
  unfolding sort_by_event_ordinal raws_of
  raws_of-sort [] = Permᴰ.nil
  raws_of-sort (e ∷ events) =
      Permᴰ.trans (raws_of-insert_event e (sort_by_event_ordinal before events))
        (Permᴰ.cons refl (raws_of-sort events))

  -- The normalized events are those of the batch, each as often as it stands there.
  pub normalize_and_sort_events-Perm :
      (events : List RawIndexerEvent)
      → Permᴰ
          (raws_of (normalize_and_sort_events split number default_contract_id before events))
          events
  unfolding normalize_and_sort_events
  normalize_and_sort_events-Perm events =
      let sorted = pre_sort split number default_contract_id before events in
      let all = raws_of-assign_all sorted unassigned in
      Permᴰ.trans
        (raws_of-sort (assign_all split number default_contract_id before sorted unassigned))
        (rw all (pre_sort-Perm events))
