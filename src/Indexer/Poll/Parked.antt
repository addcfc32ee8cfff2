-- ===== src/Indexer/Poll/Parked.antt =====
-- What a poll leaves of each event: a row of the events, or an unprocessed row, or both.
use mathlib.Core.List.{Permᴰ}
use scout_off_backend.Prelude.{
  String, Option, ℕ, ◌≡◌, refl, sym, ◌∙◌, Bool, true, false, ◌&&◌, List, [], ◌∷◌, arith, Bool-cases,
  Option-cases, inl, inr,
}
use scout_off_backend.Ordering.{RawIndexerEvent, NormalizedIndexerEvent}
use scout_off_backend.Ordering.Normalize.{normalize_and_sort_events}
use scout_off_backend.Ordering.Normalize.Kept.{raws_of, normalize_and_sort_events-Perm}
use scout_off_backend.Indexer.{Store}
use scout_off_backend.Indexer.Effects.{Context, Step}
use scout_off_backend.Indexer.Apply.{apply_one}
use scout_off_backend.Indexer.Accounts.{accounted, Keeps, accounted-Keeps, apply_one-accounts}
use scout_off_backend.Indexer.Poll.{
  Batch, record_step, apply_group, start, roll_back, reorg_ledger, from_ledger_of, Gauges, finish,
}
use scout_off_backend.Indexer.Poll.Flat.{poll, response, applied_batch, poll_batch, finish-keeps}

pub record_step-store :
    (c : Context) (e : NormalizedIndexerEvent) (st : Step) (b : Batch)
    → (record_step c e st b).store ≡ st.store
unfolding record_step
record_step-store c e st b = elim (Option-cases st.outcome) [
  | inl gone ↦ rw gone refl
  | inr (o, found) ↦ rw found refl
]

unfoldable pub all_accounted : Context → List NormalizedIndexerEvent → Store → Bool
all_accounted c [] s = true
all_accounted c (e ∷ events) s = accounted c e s && all_accounted c events s

Keeps-trans : (s t u : Store) → Keeps s t → Keeps t u → Keeps s u
Keeps-trans s t u h k e = ((λ x. (k e).0 ((h e).0 x)), (λ x. (k e).1 ((h e).1 x)))

record_step-Keeps :
    (c : Context) (e : NormalizedIndexerEvent) (b : Batch)
    → Keeps b.store (record_step c e (apply_one c e b.store) b).store
      × (accounted c e (record_step c e (apply_one c e b.store) b).store ≡ true)
record_step-Keeps c e b =
    rw (record_step-store c e (apply_one c e b.store) b) (apply_one-accounts c e b.store)

apply_group-Keeps :
    (c : Context) (events : List NormalizedIndexerEvent) (b : Batch)
    → Keeps b.store (apply_group c events b).store
unfolding apply_group
apply_group-Keeps c [] b = λ e. ((λ x. x), (λ x. x))
apply_group-Keeps c (f ∷ events) b =
    let b' = record_step c f (apply_one c f b.store) b in
    let step = (record_step-Keeps c f b).0 in
    elim (Bool-cases b'.thrown) [
      | inl stop ↦ rw stop step
      | inr on ↦
          let rest = apply_group-Keeps c events b' in
          rw on (Keeps-trans b.store b'.store (apply_group c events b').store step rest)
    ]

apply_group-accounts :
    (c : Context) (events : List NormalizedIndexerEvent) (b : Batch)
    → (apply_group c events b).thrown ≡ false
    → all_accounted c events (apply_group c events b).store ≡ true
unfolding apply_group all_accounted
apply_group-accounts c [] b = λ done. refl
apply_group-accounts c (e ∷ events) b =
    let b' = record_step c e (apply_one c e b.store) b in
    elim (Bool-cases b'.thrown) [
      | inl stop ↦ rw stop (λ done. cc (sym stop ∙ done))
      | inr on ↦
          let rest = apply_group-Keeps c events b' in
          let last = apply_group c events b' in
          rw on (λ done.
            rw (accounted-Keeps c e b'.store last.store rest (record_step-Keeps c e b).1)
              (apply_group-accounts c events b' done))
    ]

all_accounted-same :
    (c : Context) (events : List NormalizedIndexerEvent) (s t : Store)
    → t.events ≡ s.events
    → t.unprocessed ≡ s.unprocessed
    → all_accounted c events s ≡ true
    → all_accounted c events t ≡ true
unfolding all_accounted
all_accounted-same c [] s t rows parked_rows h = refl
all_accounted-same c (e ∷ events) s t rows parked_rows h =
    let keeps : Keeps s t = λ f. ((λ x. rw rows x), (λ x. rw parked_rows x)) in
    let head : accounted c e s ≡ true = ground (arith, h) in
    let tail : all_accounted c events s ≡ true = ground (arith, h) in
    rw (accounted-Keeps c e s t keeps head) (all_accounted-same c events s t rows parked_rows tail)

-- However the events are sorted, a poll that does not fail accounts for all of them.
sorted-accounts :
    (c : Context) (sort : List RawIndexerEvent → List NormalizedIndexerEvent) (margin latest : ℕ)
    (raw : RawIndexerEvent) (raws : List RawIndexerEvent) (g : Gauges) (s : Store)
    → (poll c sort margin (response latest raw raws) g s).thrown ≡ false
    → all_accounted c (sort (raw ∷ raws)) (poll c sort margin (response latest raw raws) g s).store
      ≡ true
sorted-accounts c sort margin latest raw raws g s =
    rw (poll_batch c sort margin latest raw raws g s, poll)
      (λ done.
        let ordered = sort (raw ∷ raws) in
        let b = applied_batch c sort margin (raw ∷ raws) s in
        let resp = response latest raw raws in
        let (same, rows, parked_rows, _, _) = finish-keeps c resp ordered g b in
        let reorg = reorg_ledger (from_ledger_of margin s.last_ledger) s.events (raw ∷ raws) in
        let all = apply_group-accounts c ordered (start (roll_back reorg s)) (sym same ∙ done) in
        all_accounted-same c ordered b.store (finish c resp ordered g b).0.store rows parked_rows
          all)

-- After a poll that does not fail, the normalized events are those of the response, each as often as
-- it stands there; for each that decodes there is a row with its transaction and index, and for each
-- that does not decode or has an unrecognised type an unprocessed row with them, unless the database
-- refuses to insert that row.
pub index_events-accounts :
    (split : String → List String) (number : String → Option ℕ) (contract_id : String)
    (before : String → String → Bool) (c : Context) (margin latest : ℕ) (raw : RawIndexerEvent)
    (raws : List RawIndexerEvent) (g : Gauges) (s : Store)
    → (poll c
        (normalize_and_sort_events split number contract_id before)
        margin
        (response latest raw raws)
        g
        s).thrown
      ≡ false
    → Permᴰ
        (raws_of (normalize_and_sort_events split number contract_id before (raw ∷ raws)))
        (raw ∷ raws)
      × (all_accounted c
            (normalize_and_sort_events split number contract_id before (raw ∷ raws))
            (poll c
              (normalize_and_sort_events split number contract_id before)
              margin
              (response latest raw raws)
              g
              s).store
          ≡ true)
index_events-accounts split number contract_id before c margin latest raw raws g s done = (
  normalize_and_sort_events-Perm split number contract_id before (raw ∷ raws),
  sorted-accounts c (normalize_and_sort_events split number contract_id before) margin latest raw
      raws g s done,
)
