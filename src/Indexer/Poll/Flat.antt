-- ===== src/Indexer/Poll/Flat.antt =====
-- The two nested loops of the poll run through the events in their sorted order.
use scout_off_backend.Prelude.{
  ℕ, ◌≡◌, refl, ap, ◌∙◌, false, some, List, [], ◌∷◌, ◌++◌, if◌then◌else◌, Bool-cases, inl, inr,
}
use scout_off_backend.Ordering.{
  RawIndexerEvent, NormalizedIndexerEvent, group_co_transaction_events,
}
use scout_off_backend.Ordering.Groups.{flatten, group_co_transaction_events-splits}
use scout_off_backend.Indexer.{Store}
use scout_off_backend.Indexer.Effects.{Context}
use scout_off_backend.Indexer.Apply.{apply_one}
use scout_off_backend.Indexer.Poll.{
  Batch, record_step, apply_group, apply_groups, start, roll_back, reorg_ledger, from_ledger_of,
  Response, Gauges, finish, index_events,
}

apply_group-append :
    (c : Context) (xs ys : List NormalizedIndexerEvent) (b : Batch)
    → b.thrown ≡ false
    → apply_group c (xs ++ ys) b ≡ (
        if (apply_group c xs b).thrown
        then apply_group c xs b
        else apply_group c ys (apply_group c xs b))
unfolding apply_group
apply_group-append c [] ys b going = rw going refl
apply_group-append c (e ∷ xs) ys b going =
    let b' = record_step c e (apply_one c e b.store) b in
    elim (Bool-cases b'.thrown) [
      | inl stop ↦ rw stop (rw stop refl)
      | inr on ↦ rw on (apply_group-append c xs ys b' on)
    ]

apply_groups-flatten :
    (c : Context) (groups : List (List NormalizedIndexerEvent)) (b : Batch)
    → b.thrown ≡ false
    → apply_groups c groups b ≡ apply_group c (flatten groups) b
unfolding apply_groups flatten apply_group
apply_groups-flatten c [] b going = refl
apply_groups-flatten c (g ∷ groups) b going =
    let b' = apply_group c g b in
    rw (apply_group-append c g (flatten groups) b going) (elim (Bool-cases b'.thrown) [
      | inl stop ↦ rw stop refl
      | inr on ↦ rw on (apply_groups-flatten c groups b' on)
    ])

pub apply_groups-ordered :
    (c : Context) (events : List NormalizedIndexerEvent) (b : Batch)
    → b.thrown ≡ false
    → apply_groups c (group_co_transaction_events events) b ≡ apply_group c events b
apply_groups-ordered c events b going =
    apply_groups-flatten c (group_co_transaction_events events) b going
    ∙ ap (λ l. apply_group c l b) ((group_co_transaction_events-splits events).0)

-- The batch of a poll of a response with events.
abbrev pub poll :
    Context
    → (List RawIndexerEvent → List NormalizedIndexerEvent)
    → ℕ
    → Response
    → Gauges
    → Store
    → Batch
poll c sort margin resp g s = (index_events c sort margin (some resp) g s).0

-- The batch of the sorted events before the cursor moves.
abbrev pub applied_batch :
    Context
    → (List RawIndexerEvent → List NormalizedIndexerEvent)
    → ℕ
    → List RawIndexerEvent
    → Store
    → Batch
applied_batch c sort margin raws s =
    let reorg = reorg_ledger (from_ledger_of margin s.last_ledger) s.events raws in
    apply_group c (sort raws) (start (roll_back reorg s))

abbrev pub response : ℕ → RawIndexerEvent → List RawIndexerEvent → Response
response latest raw raws = record { latest_ledger = latest; events = raw ∷ raws }

pub poll_batch :
    (c : Context) (sort : List RawIndexerEvent → List NormalizedIndexerEvent) (margin latest : ℕ)
    (raw : RawIndexerEvent) (raws : List RawIndexerEvent) (g : Gauges) (s : Store)
    → poll c sort margin (response latest raw raws) g s
      ≡ (finish c
          (response latest raw raws)
          (sort (raw ∷ raws))
          g
          (applied_batch c sort margin (raw ∷ raws) s)).0
unfolding index_events
poll_batch c sort margin latest raw raws g s =
    let ordered = sort (raw ∷ raws) in
    let reorg = reorg_ledger (from_ledger_of margin s.last_ledger) s.events (raw ∷ raws) in
    ap (λ b. (finish c (response latest raw raws) ordered g b).0)
      (apply_groups-ordered c ordered (start (roll_back reorg s)) refl)

pub finish-keeps :
    (c : Context) (resp : Response) (ordered : List NormalizedIndexerEvent) (g : Gauges) (b : Batch)
    → ((finish c resp ordered g b).0.thrown ≡ b.thrown)
      × ((finish c resp ordered g b).0.store.events ≡ b.store.events)
      × ((finish c resp ordered g b).0.store.unprocessed ≡ b.store.unprocessed)
      × ((finish c resp ordered g b).0.store.players ≡ b.store.players)
      × ((finish c resp ordered g b).0.broadcasts ≡ b.broadcasts)
unfolding finish
finish-keeps c resp ordered g b = elim (Bool-cases b.thrown) [
  | inl stop ↦ rw stop (refl, refl, refl, refl, refl)
  | inr on ↦ rw on (refl, refl, refl, refl, refl)
]
