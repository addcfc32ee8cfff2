-- ===== src/MultiSig/Approval/Interleaved.antt =====
-- `approveAction` of src/services/adminMultiSig.ts, one awaited call after the other, so that
-- approvals interleave: each phase is what a call has read so far, and `advance` runs it up to its
-- next await. The times, the administrators and the services are those of the parent.
pub mod Alone
pub mod Signers
mod Examples
use scout_off_backend.Prelude.{ℕ, String, Option, none, some, List, [], ltb, if◌then◌else◌}
use scout_off_backend.MultiSig.Table.{
  Status, pending, executed, expired, other, PendingAdminActionRow, Db, get_by_id, update_status,
  increment_signatures, expire_stale, has_signature, insert_signature,
}
use scout_off_backend.MultiSig.Execution.{
  Services, Effect, ExecutionResult, run_admin_action, code_or,
}
use scout_off_backend.MultiSig.Approval.{
  Outcome, result, thrown, approved, waiting, duplicate, Clock, includes, recount,
}

pub data Phase : Type 0 where
  arrived swept late : Phase
  -- the row that the call has read; it asks for the signature, inserts it, counts it
  asking signing signed counted : PendingAdminActionRow → Phase
  -- the quorum is reached with this count; the action is marked as executed
  reached marked : PendingAdminActionRow → ℕ → Phase
  -- the contract calls are made, with this result
  settling : PendingAdminActionRow → ℕ → List Effect → ExecutionResult → Phase
  ended : List Effect → Outcome → Phase

module _ (sv : Services) (admins : List String) (clock : Clock) (id signer : String) where
  -- After the read of the row.
  abbrev pub look : Status → PendingAdminActionRow → Phase
  look expired a = ended [] (thrown "EXPIRED_ACTION" 410)
  look executed a = ended [] (thrown "ACTION_EXECUTED" 409)
  look (other s) a = ended [] (thrown "CONFLICT" 400)
  look pending a =
      if ltb a.expires_at clock.checked_at
      then late
      else if includes signer admins
      then asking a
      else ended [] (thrown "FORBIDDEN" 403)

  abbrev pub read : Option PendingAdminActionRow → Phase
  read none = ended [] (thrown "ACTION_NOT_FOUND" 404)
  read (some a) = look a.status a

  abbrev pub again : PendingAdminActionRow → Phase
  again a = ended [] (result a.collected_signatures a.required_signatures duplicate)

  unfoldable pub advance : Phase → Db → Db × Phase
  advance arrived db = (expire_stale clock.swept_at db, swept)
  advance swept db = (db, read (get_by_id id db.actions))
  advance late db = (update_status id expired db, ended [] (thrown "EXPIRED_ACTION" 410))
  advance (asking a) db = (db, if has_signature id signer db.signatures then again a else signing a)
  advance (signing a) db =
      let (db', inserted) =
        insert_signature (record { action_id = id; signer = signer; signed_at = clock.signed_at })
          db in
      (db', if inserted then signed a else again a)
  advance (signed a) db = (increment_signatures id db, counted a)
  advance (counted a) db =
      let collected = recount sv admins clock id signer a db in
      (
        db,
        if ltb collected a.required_signatures
            then ended [] (result collected a.required_signatures waiting)
            else reached a collected,
      )
  advance (reached a n) db = (update_status id executed db, marked a n)
  advance (marked a n) db =
      let (effects, r) = run_admin_action sv a.action_type a.payload a.proposer in
      (db, settling a n effects r)
  advance (settling a n effects r) db =
      if r.success then (db, ended effects (result n a.required_signatures approved)) else (
        update_status id pending db,
        ended effects (thrown (code_or r.error_code "EXECUTION_FAILED") 500),
      )
  advance (ended effects outcome) db = (db, ended effects outcome)
