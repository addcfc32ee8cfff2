-- ===== src/MultiSig/Execution.antt =====
-- `runAdminActionInternal` of src/services/adminMultiSig.ts. The contract
-- calls of services/stellar and the writes to other tables are the fields of `Services`, which say
-- what each call does; the calls made, in order, are the list of effects. Audit rows and log lines
-- are left out, and so are the two writes whose failure the source only logs.
pub mod Outcomes
pub mod Bulk
mod Examples
use scout_off_backend.Prelude.{
  ℕ, String, Bool, true, false, Option, none, some, List, [], ◌∷◌, ltb, str_eq, if◌then◌else◌,
}
use scout_off_backend.MultiSig.Table.{
  AdminActionType, pause_contract, unpause_contract, withdraw_fees, update_platform_fee,
  register_validator, revoke_validator, bulk_validator_import, Payload,
}

-- What a contract call returns: a transaction id, or the message and the `code` of its error.
pub data CallResult : Type 0 where
  tx : String → CallResult
  call_error : String → Option String → CallResult

pub record Services : Type 0 where
  pub pause : String → CallResult
  pub unpause : String → CallResult
  pub withdraw : String → Option String → CallResult
  pub register : String → CallResult
  pub revoke : String → CallResult
  pub update_fee : ℕ → CallResult
  -- The fee in the result of a successful `updatePlatformFee`.
  pub confirmed_fee : ℕ → ℕ
  -- A write of a row that fails has the text of its error.
  pub insert_validator : String → String → Option String
  pub revoke_validator_row : String → String → Option String

pub data Effect : Type 0 where
  paused unpaused : String → Effect
  withdrew : String → Option String → Effect
  registered revoked : String → Effect
  fee_updated : ℕ → Effect

pub record ExecutionResult : Type 0 where
  pub success : Bool
  pub transaction_id : Option String
  pub new_fee_bps : Option ℕ
  pub error : Option String
  pub error_code : Option String

abbrev pub succeeded : String → ExecutionResult
succeeded id = record {
  success = true;
  transaction_id = some id;
  new_fee_bps = none;
  error = none;
  error_code = none;
}

abbrev pub failure : String → String → ExecutionResult
failure message error_code = record {
  success = false;
  transaction_id = none;
  new_fee_bps = none;
  error = some message;
  error_code = some error_code;
}

-- `??`
abbrev pub or_else : Option String → Option String → Option String
or_else none b = b
or_else (some a) b = some a

abbrev pub code_or : Option String → String → String
code_or none d = d
code_or (some c) d = c

-- `!text`
abbrev pub is_missing : Option String → Bool
is_missing none = true
is_missing (some t) = str_eq t ""

-- The end of an operation that calls the contract, then writes a row: an error of either one
-- reaches the outer `catch`.
abbrev pub then_write : CallResult → (String → Option String) → ExecutionResult
then_write (call_error message code) write = failure message (code_or code "EXECUTION_FAILED")
then_write (tx id) write = elim (write id) [
  | none ↦ succeeded id
  | some message ↦ failure message "EXECUTION_FAILED"
]

abbrev pub no_row : String → Option String
no_row id = none

abbrev pub on_wallet :
    Option String
    → String
    → (String → List Effect × ExecutionResult)
    → List Effect × ExecutionResult
on_wallet none name act = ([], failure name "INVALID_PAYLOAD")
on_wallet (some w) name act = if str_eq w "" then ([], failure name "INVALID_PAYLOAD") else act w

abbrev pub map_fee_error : String → String
map_fee_error code =
    if str_eq code "INVALID_INPUT"
    then "INVALID_PAYLOAD"
    else if str_eq code "UNAUTHORIZED"
    then "UNAUTHORIZED"
    else if str_eq code "CONTRACT_PAUSED"
    then "CONTRACT_PAUSED"
    else if str_eq code "NOT_INITIALIZED"
    then "CONTRACT_NOT_INITIALIZED"
    else "NETWORK_ERROR"

-- The inner `try` of 'update_platform_fee'. A failed write of the log row is only logged.
abbrev pub fee_result : ℕ → CallResult → ExecutionResult
fee_result bps (call_error message code) =
    failure message (map_fee_error (code_or code "EXECUTION_FAILED"))
fee_result bps (tx id) = record (succeeded id) { new_fee_bps = some bps }

abbrev pub update_fee_to : Services → Option ℕ → List Effect × ExecutionResult
update_fee_to sv none =
    ([], failure "newFeeBps must be an integer between 0 and 10000" "INVALID_PAYLOAD")
update_fee_to sv (some bps) =
    if ltb 10000 bps
    then ([], failure "newFeeBps must be an integer between 0 and 10000" "INVALID_PAYLOAD")
    else (fee_updated bps ∷ [], fee_result (sv.confirmed_fee bps) (sv.update_fee bps))

unfoldable pub run_admin_action :
    Services → AdminActionType → Payload → String → List Effect × ExecutionResult
run_admin_action sv pause_contract p proposer =
    (paused proposer ∷ [], then_write (sv.pause proposer) no_row)
run_admin_action sv unpause_contract p proposer =
    (unpaused proposer ∷ [], then_write (sv.unpause proposer) no_row)
run_admin_action sv withdraw_fees p proposer =
    on_wallet (or_else p.treasury_address p.recipient) "Missing recipient in payload" λ recipient. (
      withdrew recipient p.amount_stroops ∷ [],
      then_write (sv.withdraw recipient p.amount_stroops) no_row,
    )
run_admin_action sv register_validator p proposer =
    on_wallet p.validator_wallet "Missing validatorWallet in payload"
      λ w. (registered w ∷ [], then_write (sv.register w) (sv.insert_validator w))
run_admin_action sv revoke_validator p proposer =
    on_wallet p.validator_wallet "Missing validatorWallet in payload"
      λ w. (revoked w ∷ [], then_write (sv.revoke w) (sv.revoke_validator_row w))
run_admin_action sv bulk_validator_import p proposer =
    on_wallet p.wallet "Missing wallet in payload"
      λ w. (registered w ∷ [], then_write (sv.register w) (sv.insert_validator w))
run_admin_action sv update_platform_fee p proposer = update_fee_to sv p.new_fee_bps
