-- ===== src/MultiSig/Execution/Examples.antt =====
-- The theorems on privileged operations at concrete inputs.
use scout_off_backend.Prelude.{◌≡◌, String, none, some}
use scout_off_backend.MultiSig.Table.{Payload}
use scout_off_backend.MultiSig.Execution.{Services, tx}
use scout_off_backend.MultiSig.Execution.Bulk.{only_wallet}

-- The table of validators cannot be written.
abbrev services : Services
services = record {
  pause = λ w. tx "t1";
  unpause = λ w. tx "t2";
  withdraw = λ w amount. tx "t3";
  register = λ w. tx "t4";
  revoke = λ w. tx "t5";
  update_fee = λ bps. tx "t6";
  confirmed_fee = λ bps. bps;
  insert_validator = λ w id. some "disk full";
  revoke_validator_row = λ w id. none;
}

abbrev payload : Payload
payload = record (only_wallet "v1") { validator_wallet = some "v1" }

v1-ne : ◌≡◌ {A = String} "v1" "" → ⊥
v1-ne e = cc e
