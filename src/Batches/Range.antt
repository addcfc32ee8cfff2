-- ===== src/Batches/Range.antt =====
-- The loop ends, and what it covers of the range.
use scout_off_backend.Prelude.{
  ℕ, zero, suc, ◌+◌, ◌-◌, ◌≡◌, ◌≤◌, inl, inr, refl, Bool, true, false, ◌&&◌, some, List, [], ◌∷◌,
  ◌==◌, leb, arith, ==_iff,
}
use scout_off_backend.Indexer.{Store}
use scout_off_backend.Batches.{
  Options, Progress, BatchProcessorResult, round, run, begin, process_event_batches,
}
use scout_off_backend.Batches.Rounds.{
  Sum-cases, is_failed, IsSteady, round-Moves, batch_end_bounds, round_moves, round-ends,
}

-- The ranges, the last first, cover the ledgers from `first` to the one before `next`, each once.
unfoldable pub tiles : ℕ → List (ℕ × ℕ) → ℕ → Bool
tiles first [] next = first == next
tiles first ((start, last) ∷ ranges) next =
    (last + 1 == next) && (leb start last && tiles first ranges start)

-- No call fails.
abbrev pub IsReliable : Options → Type 0
IsReliable o = (calls start : ℕ) → is_failed (o.get_events calls start) ≡ false

tiles_moved :
    (o : Options) (p q : Progress)
    → IsSteady o
    → IsReliable o
    → tiles o.from_ledger p.ranges p.current_batch_start ≡ true
    → round o p ≡ inr q
    → tiles o.from_ledger q.ranges q.current_batch_start ≡ true
unfolding tiles
tiles_moved o p q (steady, sizes) reliable covered h =
    let (within, (moved, ranges)) = round-Moves o p q steady h in
    let low = (batch_end_bounds o p.current_batch_start sizes within).0 in
    let added = ranges (reliable p.calls p.current_batch_start) in
    rw (added, moved) (ground (arith, low, covered))

run-covers :
    (fuel : ℕ) (o : Options) (p : Progress)
    → IsSteady o
    → IsReliable o
    → tiles o.from_ledger p.ranges p.current_batch_start ≡ true
    → o.from_ledger ≤ p.current_batch_start
    → p.current_batch_start ≤ o.to_ledger + 1
    → o.to_ledger + 2 ≤ fuel + p.current_batch_start
    → (r : BatchProcessorResult) × (run fuel o p ≡ some r)
      × (tiles o.from_ledger r.ranges (o.from_ledger + r.ledgers_processed) ≡ true)
unfolding run
run-covers zero o p steady reliable covered after before enough =
    absurd (omega (arith, before, enough))
run-covers (suc fuel) o p steady reliable covered after before enough =
    elim (Sum-cases (round o p)) [
      | inl (r, ended) ↦
          let (ranges, count) = round-ends o p r before ended in
          let next : o.from_ledger + r.ledgers_processed ≡ p.current_batch_start =
            omega (arith, count, after) in
          (r, rw (ended, run) refl, rw (ranges, next) covered)
      | inr (q, next) ↦
          let (more, bound) = round_moves o p q steady next in
          let covered' = tiles_moved o p q steady reliable covered next in
          let (r, ran, all) =
            run-covers fuel o q steady reliable covered' (omega (arith, after, more)) bound
              (omega (arith, enough, more)) in
          (r, rw (next, run) ran, all)
    ]

-- Where no call fails or is limited and every batch has a ledger, the job of a range ends within as
-- many rounds as the range has ledgers and one, also when it is cancelled or an event does not
-- decode, and the ledgers that it reports as processed, counted from the first, are those of the
-- batches that it has asked for and inserted, each ledger in one batch.
pub process_event_batches-covers :
    (o : Options) (s : Store)
    → IsSteady o
    → IsReliable o
    → o.from_ledger ≤ o.to_ledger + 1
    → (r : BatchProcessorResult) × (process_event_batches (o.to_ledger + 2 - o.from_ledger) o s
        ≡ some r)
      × (tiles o.from_ledger r.ranges (o.from_ledger + r.ledgers_processed) ≡ true)
unfolding process_event_batches tiles
process_event_batches-covers o s steady reliable h =
    run-covers (o.to_ledger + 2 - o.from_ledger) o (begin o s) steady reliable
      ((==_iff o.from_ledger o.from_ledger).1 refl) (omega arith) h (omega (arith, h))
