-- ===== src/MultiSig/Approval/Examples.antt =====
-- A two-signature fee withdrawal, and the theorems at it.
use scout_off_backend.Prelude.{
  ◌+◌, ◌≤◌, ◌≡◌, refl, String, true, false, none, some, List, [], ◌∷◌, eq_iff, arith,
}
use scout_off_backend.MultiSig.Table.{
  withdraw_fees, Payload, PendingAdminActionRow, Db, pending, get_by_id, expire_stale,
  has_signature, update, insert_action, insert_signature, expire_all,
}
use scout_off_backend.MultiSig.Table.Rows.{count_signatures}
use scout_off_backend.MultiSig.Execution.{Services, tx, call_error, run_admin_action, withdrew}
use scout_off_backend.MultiSig.Approval.{
  Clock, Run, result, approved, includes, execute, count_signature, sign, check_pending,
  approve_action, propose_action,
}
use scout_off_backend.MultiSig.Approval.Steps.{Reach, here, next, propose}
use scout_off_backend.MultiSig.Approval.Histories.{empty, approve_action-quorum, Reach-IsCounted}
use scout_off_backend.MultiSig.Approval.Counting.{IsCounted, Distinct}
use scout_off_backend.MultiSig.Approval.Quorum.{IsComplete}
use scout_off_backend.MultiSig.Approval.Finality.{approve_action-once}
use scout_off_backend.MultiSig.Approval.Failing.{approve_action-exhausted, status_of}

abbrev payload : Payload
payload = record {
  treasury_address = none;
  recipient = some "treasury";
  amount_stroops = none;
  validator_wallet = none;
  wallet = none;
  new_fee_bps = none;
}

abbrev services : Services
services = record {
  pause = λ w. tx "t1";
  unpause = λ w. tx "t2";
  withdraw = λ w amount. tx "t3";
  register = λ w. tx "t4";
  revoke = λ w. tx "t5";
  update_fee = λ bps. tx "t6";
  confirmed_fee = λ bps. bps;
  insert_validator = λ w id. none;
  revoke_validator_row = λ w id. none;
}

-- The network is down.
abbrev down : Services
down = record services { withdraw = λ w amount. call_error "timeout" none }

abbrev admins : List String
admins = "ann" ∷ "bob" ∷ []

abbrev clock : Clock
clock = record { swept_at = 10; checked_at = 10; signed_at = 11 }

-- Ann has proposed.
abbrev proposed_db : Db
proposed_db = (propose_action 2 1000 5 5 "a1" withdraw_fees payload "ann" empty).0

proposed_history : Reach empty proposed_db
unfolding get_by_id
proposed_history = next here (propose 2 1000 5 5 "a1" withdraw_fees payload "ann" empty refl)

abbrev bob_approves : Services → Run
bob_approves sv = approve_action sv admins clock "a1" "bob" proposed_db

abbrev all_calls : Unit {0}
unfolding propose_action approve_action check_pending sign count_signature execute includes
    get_by_id expire_all update insert_action insert_signature has_signature run_admin_action
all_calls = tt

bob_approved : (bob_approves services).outcome ≡ result 2 2 approved
unfolding all_calls
bob_approved = refl

bob_effects : (bob_approves services).effects ≡ withdrew "treasury" none ∷ []
unfolding all_calls
bob_effects = refl

Reach-IsCounted_example : IsCounted proposed_db
Reach-IsCounted_example = Reach-IsCounted proposed_history

abbrev pending_row : PendingAdminActionRow
pending_row = record {
  id = "a1";
  action_type = withdraw_fees;
  proposer = "ann";
  payload = payload;
  required_signatures = 2;
  collected_signatures = 1;
  status = pending;
  expires_at = 1005;
  created_at = 5;
}

approve_action-quorum_example :
    (a : PendingAdminActionRow) × (get_by_id "a1" (expire_stale 10 proposed_db).actions ≡ some a)
    × (a.required_signatures ≤ count_signatures "a1" proposed_db.signatures + 1)
    × Distinct proposed_db.signatures
    × (has_signature "a1" "bob" proposed_db.signatures ≡ false)
    × (includes "bob" admins ≡ true)
approve_action-quorum_example =
    approve_action-quorum services admins clock "a1" "bob" proposed_history
      (λ e. cc (bob_effects, e))

approve_action-once_example :
    (approve_action down admins clock "a1" "ann" (bob_approves services).db).effects ≡ []
approve_action-once_example =
    approve_action-once services admins clock "a1" "bob" 2 2 proposed_db (bob_approves services).db
      down admins clock "ann" bob_approved here

pending_row-IsComplete :
    IsComplete services admins clock "a1" "bob" pending_row (expire_stale 10 proposed_db)
unfolding all_calls
pending_row-IsComplete = record {
  found = refl;
  pending = refl;
  unexpired = omega arith;
  admin = refl;
  first = refl;
  quorum = omega arith;
}

-- Both administrators have signed, and the withdrawal failed.
abbrev failed_db : Db
failed_db = (bob_approves down).db

includes-admins :
    (w : String) → includes w admins ≡ true → has_signature "a1" w failed_db.signatures ≡ true
unfolding all_calls
includes-admins w h = ground (arith, eq_iff "ann" w, eq_iff "bob" w)

failed_pending : status_of (get_by_id "a1" failed_db.actions) ≡ some pending
unfolding all_calls
failed_pending = refl

approve_action-exhausted_example :
    (approve_action services admins clock "a1" "ann" failed_db).effects ≡ []
approve_action-exhausted_example =
    approve_action-exhausted services admins clock "a1" "ann" includes-admins here
