-- ===== src/MultiSig/Approval/Interleaved/Examples.antt =====
-- Two approvals that overlap, of which each has the signature that reaches the quorum of two.
use scout_off_backend.Prelude.{
  ℕ, ◌≡◌, ◌≢◌, refl, arith, String, true, none, some, List, [], ◌∷◌, ◌==◌, if◌then◌else◌,
}
use scout_off_backend.MultiSig.Table.{
  withdraw_fees, Payload, Db, get_by_id, has_signature, update, insert_action, insert_signature,
  expire_all,
}
use scout_off_backend.MultiSig.Execution.{Services, tx, run_admin_action}
use scout_off_backend.MultiSig.Approval.{Clock, includes, propose_action}
use scout_off_backend.MultiSig.Approval.Interleaved.{advance, arrived}
use scout_off_backend.MultiSig.Approval.Interleaved.Signers.{
  Call, World, has_run, interleave, step, interleave-runs,
}

abbrev payload : Payload
payload = record {
  treasury_address = none;
  recipient = some "treasury";
  amount_stroops = none;
  validator_wallet = none;
  wallet = none;
  new_fee_bps = none;
}

abbrev services : Services
services = record {
  pause = λ w. tx "t1";
  unpause = λ w. tx "t2";
  withdraw = λ w amount. tx "t3";
  register = λ w. tx "t4";
  revoke = λ w. tx "t5";
  update_fee = λ bps. tx "t6";
  confirmed_fee = λ bps. bps;
  insert_validator = λ w id. none;
  revoke_validator_row = λ w id. none;
}

abbrev admins : List String
admins = "ann" ∷ "bob" ∷ "cat" ∷ []

abbrev clock : Clock
clock = record { swept_at = 10; checked_at = 10; signed_at = 11 }

abbrev empty : Db
empty = record { actions = []; signatures = [] }

abbrev proposed_db : Db
proposed_db = (propose_action 2 1000 5 5 "a1" withdraw_fees payload "ann" empty).0

-- Call 0 is of bob, each other one of cat.
abbrev calls : ℕ → Call
calls k = record {
  sv = services;
  admins = admins;
  clock = clock;
  id = "a1";
  signer = if k == 0 then "bob" else "cat";
}

-- Both calls insert their signatures, and then each goes on to its contract call.
abbrev overlap : List ℕ
overlap = 0 ∷ 0 ∷ 0 ∷ 1 ∷ 1 ∷ 1 ∷ 0 ∷ 1 ∷ 0 ∷ 0 ∷ 0 ∷ 0 ∷ 1 ∷ 1 ∷ 1 ∷ 1 ∷ []

abbrev world : World
world = interleave calls overlap (record { db = proposed_db; phase = λ j. arrived })

abbrev all_calls : Unit {0}
unfolding propose_action interleave step advance get_by_id expire_all update insert_action
    insert_signature has_signature includes run_admin_action
all_calls = tt

bob_runs : has_run (world.phase 0) ≡ true
unfolding all_calls
bob_runs = refl

-- The guard of the executed status does not stop the second call.
cat_runs : has_run (world.phase 1) ≡ true
unfolding all_calls
cat_runs = refl

zero_one : ¬ ◌≡◌ {A = ℕ} 0 1
zero_one e = absurd (omega (arith, e))

interleave-runs_example :
    ((calls 0).signer ≢ (calls 1).signer)
    × (has_signature "a1" "bob" world.db.signatures ≡ true)
    × (has_signature "a1" "cat" world.db.signatures ≡ true)
interleave-runs_example =
    interleave-runs calls overlap proposed_db 0 1 zero_one bob_runs cat_runs refl
