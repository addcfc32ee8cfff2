-- ===== src/Batches/Rounds.antt =====
-- What one round of the loop does to the progress.
use scout_off_backend.Prelude.{
  ℕ, ◌+◌, ◌-◌, ◌≡◌, ◌≤◌, ◌<◌, ◌⊎◌, inl, inr, refl, sym, ap, Bool, true, false, Option, none, some,
  [], ◌∷◌, ltb, if◌then◌else◌, arith, Bool-cases, ltb→lt,
}
use scout_off_backend.Indexer.{Store}
use scout_off_backend.Batches.{
  Answer, answered, rate_limited, failed, Options, completed, cancelled, decode_failed, Progress,
  BatchProcessorResult, insert_batch, finish, batch_end, events_of, advance, after_insert,
  after_fetch, round, in_range,
}

pub Sum-cases {ℓ κ} :
    {A : Type ℓ} {B : Type κ} (x : A ⊎ B) → ((a : A) × (x ≡ inl a)) ⊎ ((b : B) × (x ≡ inr b))
Sum-cases (inl a) = inl (a, refl)
Sum-cases (inr b) = inr (b, refl)

abbrev pub is_limited : Answer → Bool
is_limited (answered events) = false
is_limited rate_limited = true
is_limited failed = false

abbrev pub is_failed : Answer → Bool
is_failed (answered events) = false
is_failed rate_limited = false
is_failed failed = true

-- The server never limits the rate, and a batch has at least one ledger.
abbrev pub IsSteady : Options → Type 0
IsSteady o =
    ((calls start : ℕ) → is_limited (o.get_events calls start) ≡ false)
    × ((remaining : ℕ) → 1 ≤ o.batch_size remaining)

after_insert-next :
    (o : Options) (last : ℕ) (asked : Bool) (p q : Progress) (r : Option (ℕ × Store))
    → after_insert o last asked p r ≡ inr q
    → (q.current_batch_start ≡ last + 1)
      × (q.ranges ≡ (if asked then (p.current_batch_start, last) ∷ p.ranges else p.ranges))
after_insert-next o last asked p q none h = cc h
after_insert-next o last asked p q (some (n, s)) h =
    let e : advance last asked n (p.calls + 1) s p ≡ q = cc h in
    (sym (ap (λ x. x.current_batch_start) e), sym (ap (λ x. x.ranges) e))

-- The next progress after an answer: its start, and the range that it adds if it was answered.
abbrev pub Moves : ℕ → ℕ → Progress → Progress → Answer → Type 0
Moves start last p q a =
    (q.current_batch_start ≡ last + 1)
    × (is_failed a ≡ false → q.ranges ≡ (p.current_batch_start, last) ∷ p.ranges)

after_fetch-Moves :
    (o : Options) (start last : ℕ) (p q : Progress) (a : Answer)
    → is_limited a ≡ false
    → after_fetch o last p (events_of start last a) ≡ inr q
    → Moves start last p q a
after_fetch-Moves o start last p q (answered events) on h =
    let (moved, ranges) =
      after_insert-next o last true p q
        (insert_batch o (o.sort (in_range start last events)) 0 p.store) h in
    (moved, λ sure. ranges)
after_fetch-Moves o start last p q rate_limited on h = cc on
after_fetch-Moves o start last p q failed on h =
    let (moved, ranges) =
      after_insert-next o last false p q (insert_batch o (o.sort []) 0 p.store) h in
    (moved, λ sure. cc sure)

pub round-Moves :
    (o : Options) (p q : Progress)
    → ((calls start : ℕ) → is_limited (o.get_events calls start) ≡ false)
    → round o p ≡ inr q
    → (p.current_batch_start ≤ o.to_ledger)
      × Moves p.current_batch_start
          (batch_end o p.current_batch_start)
          p
          q
          (o.get_events p.calls p.current_batch_start)
unfolding round
round-Moves o p q steady = elim (Bool-cases (ltb o.to_ledger p.current_batch_start)) [
  | inl past ↦ rw past (λ h. cc h)
  | inr within ↦ rw within (elim (Bool-cases (o.should_cancel p.current_batch_start)) [
    | inl stop ↦ rw stop (λ h. cc h)
    | inr on ↦ rw on (λ h. (
      ground (arith, within),
      after_fetch-Moves o p.current_batch_start (batch_end o p.current_batch_start) p q
          (o.get_events p.calls p.current_batch_start) (steady p.calls p.current_batch_start) h,
    ))
  ])
]

pub batch_end_bounds :
    (o : Options) (start : ℕ)
    → ((remaining : ℕ) → 1 ≤ o.batch_size remaining)
    → start ≤ o.to_ledger
    → (start ≤ batch_end o start) × (batch_end o start ≤ o.to_ledger)
batch_end_bounds o start sizes h =
    let size = sizes (o.to_ledger - start + 1) in (omega (arith, size, h), omega arith)

-- A round that does not end the loop goes on after at least one more ledger of the range.
pub round_moves :
    (o : Options) (p q : Progress)
    → IsSteady o
    → round o p ≡ inr q
    → (p.current_batch_start < q.current_batch_start) × (q.current_batch_start ≤ o.to_ledger + 1)
round_moves o p q (steady, sizes) h =
    let (within, (moved, _)) = round-Moves o p q steady h in
    let (low, high) = batch_end_bounds o p.current_batch_start sizes within in
    (omega (arith, moved, low), omega (arith, moved, high))

after_insert-ends :
    (o : Options) (last : ℕ) (asked : Bool) (p : Progress) (x : Option (ℕ × Store))
    (r : BatchProcessorResult)
    → after_insert o last asked p x ≡ inl r
    → (r.ranges ≡ p.ranges) × (r.ledgers_processed ≡ p.current_batch_start - o.from_ledger)
after_insert-ends o last asked p none r h =
    let e : finish o decode_failed (p.current_batch_start - o.from_ledger) p ≡ r = cc h in
    (sym (ap (λ x. x.ranges) e), sym (ap (λ x. x.ledgers_processed) e))
after_insert-ends o last asked p (some (n, s)) r h = cc h

after_fetch-ends :
    (o : Options) (start last : ℕ) (p : Progress) (a : Answer) (r : BatchProcessorResult)
    → after_fetch o last p (events_of start last a) ≡ inl r
    → (r.ranges ≡ p.ranges) × (r.ledgers_processed ≡ p.current_batch_start - o.from_ledger)
after_fetch-ends o start last p (answered events) r h =
    after_insert-ends o last true p (insert_batch o (o.sort (in_range start last events)) 0 p.store)
      r h
after_fetch-ends o start last p rate_limited r h = cc h
after_fetch-ends o start last p failed r h =
    after_insert-ends o last false p (insert_batch o (o.sort []) 0 p.store) r h

-- A round that ends the loop reports the ledgers before its start.
pub round-ends :
    (o : Options) (p : Progress) (r : BatchProcessorResult)
    → p.current_batch_start ≤ o.to_ledger + 1
    → round o p ≡ inl r
    → (r.ranges ≡ p.ranges) × (r.ledgers_processed ≡ p.current_batch_start - o.from_ledger)
unfolding round
round-ends o p r before = elim (Bool-cases (ltb o.to_ledger p.current_batch_start)) [
  | inl past ↦ rw past (λ h.
      let e : finish o completed (o.to_ledger + 1 - o.from_ledger) p ≡ r = cc h in
      let over = ltb→lt o.to_ledger p.current_batch_start past in
      let count : r.ledgers_processed ≡ o.to_ledger + 1 - o.from_ledger =
        sym (ap (λ x. x.ledgers_processed) e) in
      (sym (ap (λ x. x.ranges) e), omega (arith, before, over, count)))
  | inr within ↦ rw within (elim (Bool-cases (o.should_cancel p.current_batch_start)) [
    | inl stop ↦ rw stop (λ h.
        let e : finish o cancelled (p.current_batch_start - o.from_ledger) p ≡ r = cc h in
        (sym (ap (λ x. x.ranges) e), sym (ap (λ x. x.ledgers_processed) e)))
    | inr on ↦ rw on (
        after_fetch-ends o p.current_batch_start (batch_end o p.current_batch_start) p
          (o.get_events p.calls p.current_batch_start) r)
  ])
]
