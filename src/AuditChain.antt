-- ===== src/AuditChain.antt =====
-- The tamper-evident audit log: src/utils/hashChain.ts, `insertAuditLog` of
-- src/db/repositories/audit.ts and the two verifiers of src/utils/auditVerify.ts. SHA-256 is the
-- parameter `digest`, and `JSON.stringify` of an object of strings with its keys sorted is
-- `stringify`. The rows are the table in the order of their ids. `latest` is what
-- `latestAuditCheckpoint` gives, nothing where it throws, and `archive` whether
-- `verifyCheckpointArchive` accepts the archive of a checkpoint.
pub mod Linked
pub mod Legacy
pub mod Full
pub mod Agreement
mod Examples
use Prim.Native.String
use scout_off_backend.Prelude.{
  ℕ, zero, suc, ◌+◌, String, Bool, true, false, ◌&&◌, ◌||◌, Option, none, some, List, [], ◌∷◌, ◌++◌,
  length, take, drop, leb, str_eq, if◌then◌else◌,
}

abbrev pub genesis_hash : String
genesis_hash = "0000000000000000000000000000000000000000000000000000000000000000"

-- The object that is hashed: `auditChainContent`.
pub record Content : Type 0 where
  pub action : String
  pub admin_wallet : String
  pub query_params : String
  pub created_at : String
  pub event_source : String

pub record AuditLogRow : Type 0 where
  pub id : ℕ
  pub content : Content
  pub prev_hash : Option String
  pub hash : String

pub record AuditCheckpoint : Type 0 where
  pub last_id : ℕ
  pub last_hash : String

-- `checkpoint?.last_hash ?? GENESIS_HASH`
abbrev pub initial_hash : Option String → String
initial_hash none = genesis_hash
initial_hash (some last_hash) = last_hash

-- The hash of the last row, and the initial hash if there is none.
unfoldable pub last_hash : String → List AuditLogRow → String
last_hash initial [] = initial
last_hash initial (r ∷ rows) = last_hash r.hash rows

abbrev pub prev_is : Option String → String → Bool
prev_is none h = false
prev_is (some p) h = str_eq p h

-- `rows.some(row => Number(row.id) <= checkpoint.last_id)`
unfoldable pub overlaps : ℕ → List AuditLogRow → Bool
overlaps last_id [] = false
overlaps last_id (r ∷ rows) = leb r.id last_id || overlaps last_id rows

-- The initial hash of `auditSnapshot`, whose rows are the table; nothing where it throws.
unfoldable pub audit_snapshot :
    (AuditCheckpoint → Bool) → Option (Option AuditCheckpoint) → List AuditLogRow → Option String
unfolding overlaps
audit_snapshot archive none rows = none
audit_snapshot archive (some none) rows = some (initial_hash none)
audit_snapshot archive (some (some c)) rows =
    if archive c
    then if overlaps c.last_id rows then none else some (initial_hash (some c.last_hash))
    else none

pub data Reason : Type 0 where
  prev_mismatch hash_mismatch checkpoint_failed : Reason

pub record Verification : Type 0 where
  pub valid : Bool
  pub broken_at_id : Option ℕ
  pub reason : Option Reason
  pub rows_checked : ℕ

abbrev pub broken : ℕ → Reason → ℕ → Verification
broken id reason total = record {
  valid = false;
  broken_at_id = some id;
  reason = some reason;
  rows_checked = total;
}

pub record AuditViolation : Type 0 where
  pub id : ℕ
  pub expected_hash : String
  pub stored_hash : String
  pub audit_event_type : String
  pub created_at : String

-- The one violation of a snapshot that fails.
abbrev pub checkpoint_violation : AuditViolation
checkpoint_violation = record {
  id = 0;
  expected_hash = "valid signed checkpoint and archive";
  stored_hash = "invalid";
  audit_event_type = "checkpoint";
  created_at = "";
}

pub record Walk : Type 0 where
  pub violations : List AuditViolation
  pub prev : String
  pub rows_checked : ℕ

pub data ReportStatus : Type 0 where
  ok tampered timeout : ReportStatus

pub record AuditChainReport : Type 0 where
  pub status : ReportStatus
  pub chain_length : ℕ
  pub violations : List AuditViolation
  pub rows_checked : ℕ

abbrev pub is_empty : List AuditViolation → Bool
is_empty [] = true
is_empty (v ∷ vs) = false

abbrev pub report : ReportStatus → ℕ → Walk → AuditChainReport
report status total w = record {
  status = status;
  chain_length = total;
  violations = w.violations;
  rows_checked = w.rows_checked;
}

abbrev pub finished : ℕ → Walk → AuditChainReport
finished total w = report (if is_empty w.violations then ok else tampered) total w

abbrev pub batch_size : ℕ
batch_size = 1000

module _ (digest : String → String) (stringify : Content → String) where
  -- `computeChainHash`
  abbrev pub compute_chain_hash : Content → String → String
  compute_chain_hash content prev = digest (String.◌++◌ (stringify content) prev)

  -- `insertAuditLog`, run as one transaction: `id` is the id that the insert returns.
  unfoldable pub insert_audit_log :
      Option String → ℕ → Content → List AuditLogRow → List AuditLogRow
  unfolding last_hash
  insert_audit_log checkpoint id content rows =
      let prev = last_hash (initial_hash checkpoint) rows in
      rows
      ++ record {
        id = id;
        content = content;
        prev_hash = some prev;
        hash = compute_chain_hash content prev;
      }
        ∷ []

  -- The loop of `verifyAuditChain`; `total` is `rows.length`.
  unfoldable pub verify_from : ℕ → String → List AuditLogRow → Verification
  verify_from total prev [] = record {
    valid = true;
    broken_at_id = none;
    reason = none;
    rows_checked = total;
  }
  verify_from total prev (row ∷ rows) =
      let rest = verify_from total row.hash rows in
      if prev_is row.prev_hash prev
      then if str_eq row.hash (compute_chain_hash row.content prev)
        then rest
        else broken row.id hash_mismatch total
      else broken row.id prev_mismatch total

  -- `verifyAuditChain` with the snapshot.
  unfoldable pub verify_snapshot : Option String → List AuditLogRow → Verification
  unfolding verify_from
  verify_snapshot none rows = record {
    valid = false;
    broken_at_id = none;
    reason = some checkpoint_failed;
    rows_checked = 0;
  }
  verify_snapshot (some initial) rows = verify_from (length rows) initial rows

  unfoldable pub verify_audit_chain :
      (AuditCheckpoint → Bool) → Option (Option AuditCheckpoint) → List AuditLogRow → Verification
  unfolding verify_snapshot audit_snapshot
  verify_audit_chain archive latest rows = verify_snapshot (audit_snapshot archive latest rows) rows

  -- One row of `verifyAuditChainFull`: both branches go on from the stored hash.
  unfoldable pub check_row : AuditLogRow → Walk → Walk
  check_row row w =
      let expected = compute_chain_hash row.content w.prev in
      record {
        violations =
            if str_eq row.hash expected && prev_is row.prev_hash w.prev
            then w.violations
            else w.violations
              ++ record {
                id = row.id;
                expected_hash = expected;
                stored_hash = row.hash;
                audit_event_type = row.content.action;
                created_at = row.content.created_at;
              }
                ∷ [];
        prev = row.hash;
        rows_checked = w.rows_checked + 1;
      }

  unfoldable pub check_rows : List AuditLogRow → Walk → Walk
  unfolding check_row
  check_rows [] w = w
  check_rows (row ∷ rows) w = check_rows rows (check_row row w)

  -- The loop over batches. `now k` is the time read after batch number `k`; `none` means that the
  -- fuel ran out.
  unfoldable pub check_batches :
      (ℕ → ℕ) → ℕ → ℕ → ℕ → ℕ → ℕ → List AuditLogRow → Walk → Option AuditChainReport
  unfolding check_rows
  check_batches now deadline size total zero k rows w = none
  check_batches now deadline size total (suc fuel) k [] w = some (finished total w)
  check_batches now deadline size total (suc fuel) k (row ∷ rows) w =
      let w' = check_rows (take size (row ∷ rows)) w in
      let rest = check_batches now deadline size total fuel (k + 1) (drop size (row ∷ rows)) w' in
      if leb deadline (now k) then some (report timeout total w') else rest

  -- `verifyAuditChainFull` with the snapshot.
  unfoldable pub verify_snapshot_full :
      (ℕ → ℕ) → ℕ → Option String → List AuditLogRow → Option AuditChainReport
  unfolding check_batches
  verify_snapshot_full now deadline none rows = some (record {
    status = tampered;
    chain_length = 0;
    violations = checkpoint_violation ∷ [];
    rows_checked = 0;
  })
  verify_snapshot_full now deadline (some initial) rows =
      check_batches now deadline batch_size (length rows) (length rows + 1) 0 rows
        (record { violations = []; prev = initial; rows_checked = 0 })

  unfoldable pub verify_audit_chain_full :
      (ℕ → ℕ)
      → ℕ
      → (AuditCheckpoint → Bool)
      → Option (Option AuditCheckpoint)
      → List AuditLogRow
      → Option AuditChainReport
  unfolding verify_snapshot_full audit_snapshot
  verify_audit_chain_full now deadline archive latest rows =
      verify_snapshot_full now deadline (audit_snapshot archive latest rows) rows
