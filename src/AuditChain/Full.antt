-- ===== src/AuditChain/Full.antt =====
-- `verifyAuditChainFull`: its batches, its deadline and what it has checked.
use scout_off_backend.Prelude.{
  ℕ, zero, suc, ◌+◌, ◌≤◌, ◌<◌, ◌≡◌, refl, String, Bool, Option, none, some, List, [], ◌∷◌, ◌++◌,
  length, take, drop, take-append-drop, length-drop, length-take, leb, arith, sym, ap, ◌∙◌,
  Bool-cases, inl, inr,
}
use scout_off_backend.AuditChain.{
  Content, AuditLogRow, AuditCheckpoint, audit_snapshot, verify_snapshot_full, Walk,
  AuditChainReport, report, finished, timeout, check_row, check_rows, check_batches, batch_size,
  verify_audit_chain_full,
}

module _ (digest : String → String) (stringify : Content → String) where
  check_rows-append :
      (xs ys : List AuditLogRow) (w : Walk)
      → check_rows digest stringify (xs ++ ys) w
        ≡ check_rows digest stringify ys (check_rows digest stringify xs w)
  unfolding check_rows
  check_rows-append [] ys w = refl
  check_rows-append (x ∷ xs) ys w = check_rows-append xs ys (check_row digest stringify x w)

  pub rows_checked-check_rows :
      (rows : List AuditLogRow) (w : Walk)
      → (check_rows digest stringify rows w).rows_checked ≡ w.rows_checked + length rows
  unfolding check_rows
  rows_checked-check_rows [] w = omega arith
  rows_checked-check_rows (r ∷ rows) w =
      omega (arith, rows_checked-check_rows rows (check_row digest stringify r w))

  module _ (now : ℕ → ℕ) (deadline size total : ℕ) (positive : 0 < size) where
    check_batches-untimed :
        (fuel k : ℕ) (rows : List AuditLogRow) (w : Walk)
        → ((i : ℕ) → now i < deadline)
        → length rows < fuel
        → check_batches digest stringify now deadline size total fuel k rows w
          ≡ some (finished total (check_rows digest stringify rows w))
    unfolding check_batches check_rows
    check_batches-untimed zero k rows w early f = absurd (omega arith)
    check_batches-untimed (suc fuel) k [] w early f = refl
    check_batches-untimed (suc fuel) k (r ∷ rows) w early f =
        let batch = take size (r ∷ rows) in
        let ih =
          check_batches-untimed fuel (k + 1) (drop size (r ∷ rows))
            (check_rows digest stringify batch w) early
            (omega (arith, length-drop {0} size (r ∷ rows))) in
        let whole : check_rows digest stringify (drop size (r ∷ rows))
              (check_rows digest stringify batch w)
            ≡ check_rows digest stringify (r ∷ rows) w =
          sym (check_rows-append batch (drop size (r ∷ rows)) w)
          ∙ ap (λ l. check_rows digest stringify l w) (take-append-drop size (r ∷ rows)) in
        ground (arith, early k, ih, whole)

    check_batches-counts :
        (fuel k : ℕ) (rows : List AuditLogRow) (w : Walk)
        → length rows < fuel
        → w.rows_checked + length rows ≤ total
        → (r : AuditChainReport) × (check_batches digest stringify now deadline size total fuel k
              rows w
            ≡ some r)
          × (r.rows_checked ≤ r.chain_length)
    unfolding check_batches
    check_batches-counts zero k rows w f t = absurd (omega arith)
    check_batches-counts (suc fuel) k [] w f t = (finished total w, refl, omega arith)
    check_batches-counts (suc fuel) k (r ∷ rows) w f t =
        let batch = take size (r ∷ rows) in
        let w' = check_rows digest stringify batch w in
        let counted = rows_checked-check_rows batch w in
        let taken = length-take {0} size (r ∷ rows) in
        let dropped = length-drop {0} size (r ∷ rows) in
        let (rest, e, le) =
          check_batches-counts fuel (k + 1) (drop size (r ∷ rows)) w' (omega (arith, dropped))
            (omega (arith, dropped, taken, counted)) in
        elim (Bool-cases (leb deadline (now k))) [
          | inl late ↦ (report timeout total w', rw late, omega (arith, taken, counted))
          | inr early ↦ (rest, rw early e, le)
        ]

  verify_snapshot_full-reports :
      (now : ℕ → ℕ) (deadline : ℕ) (snapshot : Option String) (rows : List AuditLogRow)
      → (r : AuditChainReport) × (verify_snapshot_full digest stringify now deadline snapshot rows
          ≡ some r)
        × (r.rows_checked ≤ r.chain_length)
  unfolding verify_snapshot_full
  verify_snapshot_full-reports now deadline none rows = (_, refl, omega arith)
  verify_snapshot_full-reports now deadline (some initial) rows =
      check_batches-counts now deadline batch_size (length rows) (omega arith) (length rows + 1) 0
        rows _ (omega arith) (omega arith)

  -- `verifyAuditChainFull` always returns a report, whatever the clock shows, and has checked at
  -- most as many rows as the log has.
  verify_audit_chain_full-reports :
      (now : ℕ → ℕ) (deadline : ℕ) (archive : AuditCheckpoint → Bool)
      (latest : Option (Option AuditCheckpoint)) (rows : List AuditLogRow)
      → (r : AuditChainReport) × (verify_audit_chain_full digest stringify now deadline archive
            latest rows
          ≡ some r)
        × (r.rows_checked ≤ r.chain_length)
  unfolding verify_audit_chain_full
  verify_audit_chain_full-reports now deadline archive latest rows =
      verify_snapshot_full-reports now deadline (audit_snapshot archive latest rows) rows

  -- Without a timeout the batches make no difference.
  pub verify_snapshot_full-untimed :
      (now : ℕ → ℕ) (deadline : ℕ) (initial : String) (rows : List AuditLogRow)
      → ((i : ℕ) → now i < deadline)
      → verify_snapshot_full digest stringify now deadline (some initial) rows
        ≡ some (
            finished (length rows) (
              check_rows digest stringify rows
                (record { violations = []; prev = initial; rows_checked = 0 })))
  unfolding verify_snapshot_full
  verify_snapshot_full-untimed now deadline initial rows early =
      check_batches-untimed now deadline batch_size (length rows) (omega arith) (length rows + 1) 0
        rows _ early (omega arith)
