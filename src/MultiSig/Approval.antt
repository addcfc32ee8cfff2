-- ===== src/MultiSig/Approval.antt =====
-- `proposeAction`, `approveAction`, `listPendingActions` and `getActionDetails` of
-- src/services/adminMultiSig.ts. Each call runs by itself; the times that it reads from `Date.now()`
-- are arguments: of the expiry sweep, of the expiry test and of the signature. Audit rows are left
-- out. `config.adminThreshold`, `config.adminActionTtlMs` and `config.adminWallets` are arguments.
pub mod Counting
pub mod Histories
pub mod Once
pub mod Steps
pub mod Finality
pub mod Quorum
pub mod Failing
pub mod Interleaved
mod Examples
use scout_off_backend.Prelude.{
  ℕ, ◌+◌, String, Bool, true, false, Option, none, some, List, [], ◌∷◌, leb, ltb, str_eq,
  if◌then◌else◌,
}
use scout_off_backend.MultiSig.Table.{
  AdminActionType, Status, pending, executed, expired, other, Payload, PendingAdminActionRow,
  Signature, Db, get_by_id, get_pending, insert_action, update_status, increment_signatures,
  expire_stale, has_signature, signatures_of, insert_signature,
}
use scout_off_backend.MultiSig.Execution.{Services, Effect, run_admin_action, code_or}

pub data ApprovalStatus : Type 0 where
  approved waiting duplicate : ApprovalStatus

pub data Outcome : Type 0 where
  -- collected, required and the status, of which `waiting` is the source's 'pending'
  result : ℕ → ℕ → ApprovalStatus → Outcome
  -- the `code` and the `status` of the error
  thrown : String → ℕ → Outcome

pub record Run : Type 0 where
  pub db : Db
  pub effects : List Effect
  pub outcome : Outcome

abbrev pub stop : Db → Outcome → Run
stop db outcome = record { db = db; effects = []; outcome = outcome }

-- `config.adminWallets.includes(signer)`
unfoldable pub includes : String → List String → Bool
includes signer [] = false
includes signer (w ∷ wallets) = if str_eq w signer then true else includes signer wallets

pub record Clock : Type 0 where
  pub swept_at : ℕ
  pub checked_at : ℕ
  pub signed_at : ℕ

pub data Proposal : Type 0 where
  immediate : Proposal
  proposed : String → Proposal

abbrev pub new_action :
    ℕ → ℕ → ℕ → String → AdminActionType → Payload → String → PendingAdminActionRow
new_action required ttl now new_id type payload proposer = record {
  id = new_id;
  action_type = type;
  proposer = proposer;
  payload = payload;
  required_signatures = required;
  collected_signatures = 0;
  status = pending;
  expires_at = now + ttl;
  created_at = now;
}

-- `new_id` is what `createId` returns.
unfoldable pub propose_action :
    ℕ → ℕ → ℕ → ℕ → String → AdminActionType → Payload → String → Db → Db × Proposal
propose_action required ttl swept_at now new_id type payload proposer db =
    let db' = expire_stale swept_at db in
    if leb required 1 then (db', immediate) else (
      increment_signatures new_id
          (insert_signature (record { action_id = new_id; signer = proposer; signed_at = now })
            (insert_action (new_action required ttl now new_id type payload proposer) db')).0,
      proposed new_id,
    )

module _ (sv : Services) (admins : List String) (clock : Clock) (id signer : String) where
  -- From the quorum on: mark as executed, run, and revert if the run failed.
  unfoldable pub execute : PendingAdminActionRow → ℕ → Db → Run
  execute a collected db =
      let marked = update_status id executed db in
      let (effects, r) = run_admin_action sv a.action_type a.payload a.proposer in
      if r.success
      then record {
        db = marked;
        effects = effects;
        outcome = result collected a.required_signatures approved;
      }
      else record {
        db = update_status id pending marked;
        effects = effects;
        outcome = thrown (code_or r.error_code "EXECUTION_FAILED") 500;
      }

  -- `updated?.collected_signatures ?? action.collected_signatures + 1`
  abbrev pub recount : PendingAdminActionRow → Db → ℕ
  recount a db = elim (get_by_id id db.actions) [
    | none ↦ a.collected_signatures + 1
    | some updated ↦ updated.collected_signatures
  ]

  -- After the insertion of the signature.
  unfoldable pub count_signature : PendingAdminActionRow → Db → Run
  count_signature a db =
      let db' = increment_signatures id db in
      let collected = recount a db' in
      if ltb collected a.required_signatures
      then stop db' (result collected a.required_signatures waiting)
      else execute a collected db'

  -- A pending, unexpired action and an administrator.
  unfoldable pub sign : PendingAdminActionRow → Db → Run
  sign a db =
      let again = stop db (result a.collected_signatures a.required_signatures duplicate) in
      let signature : Signature = record {
        action_id = id;
        signer = signer;
        signed_at = clock.signed_at;
      } in
      let (db', inserted) = insert_signature signature db in
      if has_signature id signer db.signatures
      then again
      else if inserted
      then count_signature a db'
      else again

  unfoldable pub check_pending : PendingAdminActionRow → Db → Run
  check_pending a db =
      if ltb a.expires_at clock.checked_at
      then stop (update_status id expired db) (thrown "EXPIRED_ACTION" 410)
      else if includes signer admins
      then sign a db
      else stop db (thrown "FORBIDDEN" 403)

  abbrev pub check_status : Status → PendingAdminActionRow → Db → Run
  check_status expired a db = stop db (thrown "EXPIRED_ACTION" 410)
  check_status executed a db = stop db (thrown "ACTION_EXECUTED" 409)
  check_status (other s) a db = stop db (thrown "CONFLICT" 400)
  check_status pending a db = check_pending a db

  unfoldable pub approve_action : Db → Run
  approve_action db =
      let db' = expire_stale clock.swept_at db in
      elim (get_by_id id db'.actions) [
        | none ↦ stop db' (thrown "ACTION_NOT_FOUND" 404)
        | some a ↦ check_status a.status a db'
      ]

unfoldable pub list_pending_actions : ℕ → Db → Db × List PendingAdminActionRow
list_pending_actions now db = let db' = expire_stale now db in (db', get_pending db'.actions)

unfoldable pub get_action_details : String → Db → Option (PendingAdminActionRow × List Signature)
get_action_details id db = elim (get_by_id id db.actions) [
  | none ↦ none
  | some a ↦ some (a, signatures_of id db.signatures)
]
