-- ===== src/MultiSig/Execution/Outcomes.antt =====
-- How the result of a privileged operation relates to the contract calls that it made.
use scout_off_backend.Prelude.{◌≡◌, ◌≢◌, ◌⊎◌, String, false, some, [], ◌∷◌, eq_iff, arith, length}
use scout_off_backend.MultiSig.Table.{AdminActionType, pause_contract, register_validator, Payload}
use scout_off_backend.MultiSig.Execution.{Services, tx, registered, run_admin_action, failure}

-- A privileged operation either rejects its payload, with INVALID_PAYLOAD and no contract call, or
-- makes exactly one contract call.
pub run_admin_action_calls :
    (sv : Services) (type : AdminActionType) (p : Payload) (proposer : String)
    → (((run_admin_action sv type p proposer).0 ≡ [])
        × ((run_admin_action sv type p proposer).1.success ≡ false)
        × ((run_admin_action sv type p proposer).1.error_code ≡ some "INVALID_PAYLOAD"))
      ⊎ (length (run_admin_action sv type p proposer).0 ≡ 1)
unfolding run_admin_action
run_admin_action_calls sv pause_contract p proposer = ground arith
run_admin_action_calls sv _ p proposer = ground arith

-- A validator whose registration succeeded on chain, but whose row could not be written, is
-- reported as a failure.
pub run_admin_action-unrecorded :
    (sv : Services) (p : Payload) (proposer wallet id message : String)
    → p.validator_wallet ≡ some wallet
    → wallet ≢ ""
    → sv.register wallet ≡ tx id
    → sv.insert_validator wallet id ≡ some message
    → run_admin_action sv register_validator p proposer
      ≡ (registered wallet ∷ [], failure message "EXECUTION_FAILED")
unfolding run_admin_action
run_admin_action-unrecorded sv p proposer wallet id message w n r m =
    ground (arith, eq_iff wallet "")
