-- ===== src/AuditChain/Agreement.antt =====
-- The two verifiers agree.
use scout_off_backend.Prelude.{
  ℕ, ◌<◌, ◌≡◌, ◌↔◌, ◌⊎◌, inl, inr, refl, sym, ◌∙◌, String, Bool, true, ◌&&◌, Option, none, some,
  List, [], ◌∷◌, ◌++◌, length, str_eq, if◌then◌else◌, arith,
}
use scout_off_backend.AuditChain.{
  Content, AuditLogRow, prev_is, compute_chain_hash, Walk, AuditViolation, AuditChainReport, ok,
  finished, check_row, check_rows, verify_from, verify_audit_chain, verify_audit_chain_full,
  verify_snapshot, verify_snapshot_full, audit_snapshot, AuditCheckpoint, Verification, Reason,
  prev_mismatch, hash_mismatch, checkpoint_failed,
}
use scout_off_backend.AuditChain.Full.{verify_snapshot_full-untimed, rows_checked-check_rows}

-- The id of the first violation.
abbrev pub first_id : List AuditViolation → Option ℕ
first_id [] = none
first_id (v ∷ vs) = some v.id

-- The id that the full report has for a failed verification: that of the row, or 0 for the
-- checkpoint.
abbrev bad_of : Option Reason → Option ℕ → Option ℕ
bad_of none id = id
bad_of (some prev_mismatch) id = id
bad_of (some hash_mismatch) id = id
bad_of (some checkpoint_failed) id = some 0

abbrev pub first_bad : Verification → Option ℕ
first_bad v = bad_of v.reason v.broken_at_id

abbrev first_of : Option ℕ → Option ℕ → Option ℕ
first_of none b = b
first_of (some a) b = some a

first_id-append :
    (vs : List AuditViolation) (v : AuditViolation)
    → first_id (vs ++ v ∷ []) ≡ first_of (first_id vs) (some v.id)
first_id-append [] v = refl
first_id-append (u ∷ vs) v = refl

violation-cases :
    (vs : List AuditViolation)
    → (vs ≡ []) ⊎ ((v : AuditViolation) × (us : List AuditViolation) × (vs ≡ v ∷ us))
violation-cases [] = inl refl
violation-cases (v ∷ us) = inr (v, us, refl)

-- The report and the verification agree.
abbrev pub Agrees : Option AuditChainReport → Verification → Type 0
Agrees full v =
    (r : AuditChainReport) × (full ≡ some r)
    × (r.rows_checked ≡ v.rows_checked)
    × (first_id r.violations ≡ first_bad v)
    × ((r.status ≡ ok) ↔ (v.valid ≡ true))

module _ (digest : String → String) (stringify : Content → String) where
  first_id-check_row :
      (row : AuditLogRow) (w : Walk)
      → first_id (check_row digest stringify row w).violations
        ≡ first_of (first_id w.violations) (
            if str_eq row.hash (compute_chain_hash digest stringify row.content w.prev)
              && prev_is row.prev_hash w.prev
            then none
            else some row.id)
  unfolding check_row
  first_id-check_row row w = ground (
    arith,
    first_id-append w.violations (record {
      id = row.id;
      expected_hash = compute_chain_hash digest stringify row.content w.prev;
      stored_hash = row.hash;
      audit_event_type = row.content.action;
      created_at = row.content.created_at;
    }),
  )

  -- Once there is a violation, the first one stays.
  first_id-check_rows_found :
      (rows : List AuditLogRow) (w : Walk) (i : ℕ)
      → first_id w.violations ≡ some i
      → first_id (check_rows digest stringify rows w).violations ≡ some i
  unfolding check_rows
  first_id-check_rows_found [] w i e = e
  first_id-check_rows_found (row ∷ rows) w i e =
      first_id-check_rows_found rows (check_row digest stringify row w) i
        (ground (arith, e, first_id-check_row row w))

  prev-check_row :
      (row : AuditLogRow) (w : Walk) → (check_row digest stringify row w).prev ≡ row.hash
  unfolding check_row
  prev-check_row row w = refl

  first_id-check_rows :
      (rows : List AuditLogRow) (w : Walk) (total : ℕ)
      → first_id w.violations ≡ none
      → first_id (check_rows digest stringify rows w).violations
        ≡ (verify_from digest stringify total w.prev rows).broken_at_id
  unfolding check_rows verify_from
  first_id-check_rows [] w total e = e
  first_id-check_rows (row ∷ rows) w total e = ground (
    arith,
    e,
    first_id-check_row row w,
    prev-check_row row w,
    first_id-check_rows_found rows (check_row digest stringify row w) row.id,
    first_id-check_rows rows (check_row digest stringify row w) total,
  )

  valid-verify_from :
      (total : ℕ) (prev : String) (rows : List AuditLogRow)
      → ((verify_from digest stringify total prev rows).valid ≡ true)
        ↔ ((verify_from digest stringify total prev rows).broken_at_id ≡ none)
  unfolding verify_from
  valid-verify_from total prev [] = ground arith
  valid-verify_from total prev (row ∷ rows) = ground (arith, valid-verify_from total row.hash rows)

  status-finished :
      (total : ℕ) (w : Walk) → ((finished total w).status ≡ ok) ↔ (first_id w.violations ≡ none)
  status-finished total w = elim (violation-cases w.violations) [
    | inl empty ↦ rw empty (ground arith)
    | inr (v, vs, found) ↦ rw found (ground arith)
  ]

  rows_checked-verify_from :
      (total : ℕ) (prev : String) (rows : List AuditLogRow)
      → (verify_from digest stringify total prev rows).rows_checked ≡ total
  unfolding verify_from
  rows_checked-verify_from total prev [] = refl
  rows_checked-verify_from total prev (row ∷ rows) =
      ground (arith, rows_checked-verify_from total row.hash rows)

  first_bad-verify_from :
      (total : ℕ) (prev : String) (rows : List AuditLogRow)
      → first_bad (verify_from digest stringify total prev rows)
        ≡ (verify_from digest stringify total prev rows).broken_at_id
  unfolding verify_from
  first_bad-verify_from total prev [] = refl
  first_bad-verify_from total prev (row ∷ rows) =
      ground (arith, first_bad-verify_from total row.hash rows)

  verify_snapshot_full-Agrees :
      (now : ℕ → ℕ) (deadline : ℕ) (snapshot : Option String) (rows : List AuditLogRow)
      → ((i : ℕ) → now i < deadline)
      → Agrees
          (verify_snapshot_full digest stringify now deadline snapshot rows)
          (verify_snapshot digest stringify snapshot rows)
  unfolding verify_snapshot verify_snapshot_full
  verify_snapshot_full-Agrees now deadline none rows early =
      (_, refl, refl, refl, ((λ h. absurd (cc h)), λ h. absurd (cc h)))
  verify_snapshot_full-Agrees now deadline (some initial) rows early =
      let start : Walk = record { violations = []; prev = initial; rows_checked = 0 } in
      let w = check_rows digest stringify rows start in
      let same = first_id-check_rows rows start (length rows) refl in
      let valid = valid-verify_from (length rows) initial rows in
      let status = status-finished (length rows) w in
      (
        finished (length rows) w,
        verify_snapshot_full-untimed digest stringify now deadline initial rows early,
        omega (
          arith,
          rows_checked-check_rows digest stringify rows start,
          rows_checked-verify_from (length rows) initial rows,
        ),
        same ∙ sym (first_bad-verify_from (length rows) initial rows),
        (λ e. valid.1 (sym same ∙ status.0 e), λ e. status.1 (same ∙ valid.0 e)),
      )

  -- When the deadline is not reached, `verifyAuditChainFull` has checked as many rows as
  -- `verifyAuditChain` says, which is none where the checkpoint fails; its first violation is the row
  -- where `verifyAuditChain` stops, or number 0 where the checkpoint fails; and its status is `ok`
  -- exactly if `verifyAuditChain` finds the log valid.
  pub verify_audit_chain_full-Agrees :
      (now : ℕ → ℕ) (deadline : ℕ) (archive : AuditCheckpoint → Bool)
      (latest : Option (Option AuditCheckpoint)) (rows : List AuditLogRow)
      → ((i : ℕ) → now i < deadline)
      → Agrees
          (verify_audit_chain_full digest stringify now deadline archive latest rows)
          (verify_audit_chain digest stringify archive latest rows)
  unfolding verify_audit_chain verify_audit_chain_full
  verify_audit_chain_full-Agrees now deadline archive latest rows early =
      verify_snapshot_full-Agrees now deadline (audit_snapshot archive latest rows) rows early
