-- ===== src/Ordering/Groups.antt =====
-- The groups hold the events in their order, and each is one run of one transaction.
use scout_off_backend.Prelude.{
  ◌≡◌, refl, sym, ap, ◌∙◌, Bool, true, false, not, ◌&&◌, List, [], ◌∷◌, ◌++◌, arith, Bool-cases,
  inl, inr,
}
use scout_off_backend.Ordering.{
  NormalizedIndexerEvent, same_transaction, joins, add_event, add_events,
  group_co_transaction_events,
}

-- The events of all groups.
unfoldable pub flatten : List (List NormalizedIndexerEvent) → List NormalizedIndexerEvent
flatten [] = []
flatten (g ∷ gs) = g ++ flatten gs

unfoldable pub all_same : NormalizedIndexerEvent → List NormalizedIndexerEvent → Bool
all_same first [] = true
all_same first (e ∷ rest) = same_transaction first e && all_same first rest

-- A group has an event, and all its events have the transaction of the first.
abbrev pub is_group : List NormalizedIndexerEvent → Bool
is_group [] = false
is_group (first ∷ rest) = all_same first rest

-- The next group begins with another transaction.
abbrev pub ends_before : List NormalizedIndexerEvent → List (List NormalizedIndexerEvent) → Bool
ends_before g [] = true
ends_before g ([] ∷ gs) = false
ends_before g ((e ∷ h) ∷ gs) = not (joins g e)

abbrev pub AreGroups : List (List NormalizedIndexerEvent) → Type 0
AreGroups [] = Unit
AreGroups (g ∷ gs) = (is_group g ≡ true) × (ends_before g gs ≡ true) × AreGroups gs

append_assoc : (xs ys zs : List NormalizedIndexerEvent) → (xs ++ ys) ++ zs ≡ xs ++ (ys ++ zs)
append_assoc [] ys zs = refl
append_assoc (x ∷ xs) ys zs = ap (λ l. x ∷ l) (append_assoc xs ys zs)

append_nil : (xs : List NormalizedIndexerEvent) → xs ++ [] ≡ xs
append_nil [] = refl
append_nil (x ∷ xs) = ap (λ l. x ∷ l) (append_nil xs)

flatten-add_event :
    (gs : List (List NormalizedIndexerEvent)) (e : NormalizedIndexerEvent)
    → flatten (add_event gs e) ≡ flatten gs ++ e ∷ []
unfolding flatten add_event
flatten-add_event [] e = refl
flatten-add_event (g ∷ []) e = elim (Bool-cases (joins g e)) [
  | inl joined ↦ rw joined (append_nil (g ++ e ∷ []) ∙ ap (λ l. l ++ e ∷ []) (sym (append_nil g)))
  | inr apart ↦ rw apart (ap (λ l. l ++ e ∷ []) (sym (append_nil g)))
]
flatten-add_event (g ∷ h ∷ gs) e =
    ap (λ l. g ++ l) (flatten-add_event (h ∷ gs) e)
    ∙ sym (append_assoc g (flatten (h ∷ gs)) (e ∷ []))

all_same-append :
    (first e : NormalizedIndexerEvent) (rest : List NormalizedIndexerEvent)
    → all_same first rest ≡ true
    → same_transaction first e ≡ true
    → all_same first (rest ++ e ∷ []) ≡ true
unfolding all_same
all_same-append first e [] h same = rw same refl
all_same-append first e (f ∷ rest) h same = ground (arith, h, all_same-append first e rest, same)

is_group-append :
    (g : List NormalizedIndexerEvent) (e : NormalizedIndexerEvent)
    → is_group g ≡ true
    → joins g e ≡ true
    → is_group (g ++ e ∷ []) ≡ true
is_group-append [] e h same = cc h
is_group-append (f ∷ rest) e h same = all_same-append f e rest h same

-- The head of the first group stays.
ends_before-add_event :
    (g h : List NormalizedIndexerEvent) (gs : List (List NormalizedIndexerEvent))
    (e : NormalizedIndexerEvent)
    → ends_before g (h ∷ gs) ≡ true
    → ends_before g (add_event (h ∷ gs) e) ≡ true
unfolding add_event
ends_before-add_event g [] gs e ends = cc ends
ends_before-add_event g (f ∷ h) [] e ends = elim (Bool-cases (joins (f ∷ h) e)) [
  | inl joined ↦ rw joined ends
  | inr apart ↦ rw apart ends
]
ends_before-add_event g (f ∷ h) (k ∷ gs) e ends = ends

add_event-AreGroups :
    (gs : List (List NormalizedIndexerEvent)) (e : NormalizedIndexerEvent)
    → AreGroups gs
    → AreGroups (add_event gs e)
unfolding add_event all_same
add_event-AreGroups [] e h = (refl, refl, tt)
add_event-AreGroups (g ∷ []) e (group, ends, h) = elim (Bool-cases (joins g e)) [
  | inl joined ↦ rw joined (is_group-append g e group joined, refl, tt)
  | inr apart ↦ rw apart (group, ap not apart, (refl, refl, tt))
]
add_event-AreGroups (g ∷ k ∷ gs) e (group, ends, h) =
    (group, ends_before-add_event g k gs e ends, add_event-AreGroups (k ∷ gs) e h)

add_events-groups :
    (gs : List (List NormalizedIndexerEvent)) (events : List NormalizedIndexerEvent)
    → AreGroups gs
    → (flatten (add_events gs events) ≡ flatten gs ++ events) × AreGroups (add_events gs events)
unfolding add_events
add_events-groups gs [] h = (sym (append_nil (flatten gs)), h)
add_events-groups gs (e ∷ events) h =
    let (same, groups) = add_events-groups (add_event gs e) events (add_event-AreGroups gs e h) in
    (
      same
          ∙ (ap (λ l. l ++ events) (flatten-add_event gs e)
              ∙ append_assoc (flatten gs) (e ∷ []) events),
      groups,
    )

-- The groups contain every event, in the given order. No group is empty, all events of a group
-- have the same ledger, transaction order and transaction hash, and neighbouring groups do not.
pub group_co_transaction_events-splits :
    (events : List NormalizedIndexerEvent)
    → (flatten (group_co_transaction_events events) ≡ events)
      × AreGroups (group_co_transaction_events events)
unfolding group_co_transaction_events flatten
group_co_transaction_events-splits events = add_events-groups [] events tt
