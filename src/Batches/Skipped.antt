-- ===== src/Batches/Skipped.antt =====
-- Batches that the server does not answer.
use scout_off_backend.Prelude.{
  ℕ, zero, suc, ◌+◌, ◌-◌, ◌≡◌, ◌≤◌, inl, inr, refl, false, some, [], ltb, arith, Bool-cases,
}
use scout_off_backend.Indexer.{Store}
use scout_off_backend.Batches.{
  failed, Options, completed, Progress, BatchProcessorResult, insert_batch, batch_end, round, run,
  process_event_batches,
}
use scout_off_backend.Batches.Rounds.{batch_end_bounds}

-- Every call fails with an error that is no rate limit, the job is not cancelled, a batch has at
-- least one ledger, and sorting no events gives none.
abbrev pub IsDown : Options → Type 0
IsDown o =
    ((calls start : ℕ) → o.get_events calls start ≡ failed)
    × ((start : ℕ) → o.should_cancel start ≡ false)
    × ((remaining : ℕ) → 1 ≤ o.batch_size remaining)
    × (o.sort [] ≡ [])

abbrev progress : ℕ → ℕ → Store → Progress
progress start calls s = record {
  current_batch_start = start;
  events_inserted = 0;
  calls = calls;
  store = s;
  ranges = [];
}

abbrev pub nothing_done : Options → Store → BatchProcessorResult
nothing_done o s = record {
  events_inserted = 0;
  ledgers_processed = o.to_ledger + 1 - o.from_ledger;
  ending = completed;
  store = s;
  ranges = [];
}

round_down :
    (o : Options) (start calls : ℕ) (s : Store)
    → IsDown o
    → start ≤ o.to_ledger
    → round o (progress start calls s) ≡ inr (progress (batch_end o start + 1) (calls + 1) s)
unfolding round insert_batch
round_down o start calls s (down, on, sizes, none_sorted) h =
    let within : ltb o.to_ledger start ≡ false = ground (arith, h) in
    rw (within, on start, down calls start, none_sorted) refl

run_down :
    (fuel : ℕ) (o : Options) (start calls : ℕ) (s : Store)
    → IsDown o
    → start ≤ o.to_ledger + 1
    → o.to_ledger + 2 ≤ fuel + start
    → run fuel o (progress start calls s) ≡ some (nothing_done o s)
unfolding run round
run_down zero o start calls s down before enough = absurd (omega (arith, before, enough))
run_down (suc fuel) o start calls s down before enough = elim (Bool-cases (ltb o.to_ledger start)) [
  | inl past ↦ rw (past, run, round) refl
  | inr within ↦
      let h : start ≤ o.to_ledger = ground (arith, within) in
      let (low, high) = batch_end_bounds o start down.2 h in
      rw (round_down o start calls s down h, run)
        (run_down fuel o (batch_end o start + 1) (calls + 1) s down (omega (arith, high))
          (omega (arith, enough, low)))
]

-- Where every call fails, the job of a range completes without an error: it reports every ledger of
-- the range as processed, has asked for no batch successfully, and changes no table.
pub process_event_batches-skips :
    (o : Options) (s : Store)
    → IsDown o
    → o.from_ledger ≤ o.to_ledger + 1
    → process_event_batches (o.to_ledger + 2 - o.from_ledger) o s ≡ some (nothing_done o s)
unfolding process_event_batches
process_event_batches-skips o s down h =
    run_down (o.to_ledger + 2 - o.from_ledger) o o.from_ledger 0 s down h (omega (arith, h))
