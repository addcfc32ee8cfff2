-- ===== src/MultiSig/Execution/Bulk.antt =====
-- `executeAdminAction` of src/services/adminMultiSig.ts: the bulk import of validators, wallet by
-- wallet with a manifest, and the direct execution of the other actions.
use scout_off_backend.Prelude.{
  ℕ, ◌+◌, ◌≡◌, ◌↔◌, refl, ap, String, Bool, true, false, Option, none, some, List, [], ◌∷◌, ◌++◌,
  map, ◌==◌, if◌then◌else◌, arith,
}
use scout_off_backend.MultiSig.Table.{AdminActionType, bulk_validator_import, Payload}
use scout_off_backend.MultiSig.Execution.{Services, Effect, ExecutionResult, run_admin_action}

pub record BulkImportManifestEntry : Type 0 where
  pub wallet : String
  pub success : Bool
  pub transaction_id : Option String
  pub error : Option String

abbrev pub only_wallet : String → Payload
only_wallet w = record {
  treasury_address = none;
  recipient = none;
  amount_stroops = none;
  validator_wallet = none;
  wallet = some w;
  new_fee_bps = none;
}

abbrev pub manifest_entry : String → ExecutionResult → BulkImportManifestEntry
manifest_entry w r = record {
  wallet = w;
  success = r.success;
  transaction_id = (if r.success then r.transaction_id else none);
  error = (if r.success then none else r.error);
}

-- The loop of `executeAdminAction` over the wallets of a bulk import.
unfoldable pub bulk_import :
    Services → String → List String → List Effect × List BulkImportManifestEntry
unfolding run_admin_action
bulk_import sv proposer [] = ([], [])
bulk_import sv proposer (w ∷ wallets) =
    let (effects, result) = run_admin_action sv bulk_validator_import (only_wallet w) proposer in
    let (later, manifest) = bulk_import sv proposer wallets in
    (effects ++ later, manifest_entry w result ∷ manifest)

-- `manifest.filter((m) => !m.success).length`
unfoldable pub count_failed : List BulkImportManifestEntry → ℕ
count_failed [] = 0
count_failed (m ∷ manifest) = (if m.success then 0 else 1) + count_failed manifest

pub record AdminActionResult : Type 0 where
  pub action_id : String
  pub type : AdminActionType
  pub success : Bool
  pub transaction_id : Option String
  pub new_fee_bps : Option ℕ
  pub manifest : Option (List BulkImportManifestEntry)

abbrev pub is_bulk : AdminActionType → Bool
is_bulk bulk_validator_import = true
is_bulk _ = false

-- `executeAdminAction`; `wallets` is `payload.wallets`, or empty if that is no array. The error text
-- of the result is left out.
unfoldable pub execute_admin_action :
    Services
    → String
    → AdminActionType
    → Payload
    → List String
    → String
    → List Effect × AdminActionResult
unfolding run_admin_action bulk_import count_failed
execute_admin_action sv id type p wallets proposer =
    let (effects, manifest) = bulk_import sv proposer wallets in
    let (effect, result) = run_admin_action sv type p proposer in
    if is_bulk type
    then (
      effects,
      record {
        action_id = id;
        type = type;
        success = count_failed manifest == 0;
        transaction_id = none;
        new_fee_bps = none;
        manifest = some manifest;
      },
    )
    else (
      effect,
      record {
        action_id = id;
        type = type;
        success = result.success;
        transaction_id = result.transaction_id;
        new_fee_bps = result.new_fee_bps;
        manifest = none;
      },
    )

-- Every wallet of the list is registered successfully by the single-wallet operation.
abbrev pub AllImported : Services → String → List String → Type 0
AllImported sv proposer [] = Unit
AllImported sv proposer (w ∷ wallets) =
    ((run_admin_action sv bulk_validator_import (only_wallet w) proposer).1.success ≡ true)
    × AllImported sv proposer wallets

bulk_import-wallets :
    (sv : Services) (proposer : String) (wallets : List String)
    → map (λ m. m.wallet) (bulk_import sv proposer wallets).1 ≡ wallets
unfolding bulk_import
bulk_import-wallets sv proposer [] = refl
bulk_import-wallets sv proposer (w ∷ wallets) =
    ap (λ ws. w ∷ ws) (bulk_import-wallets sv proposer wallets)

count_failed-zero_iff :
    (sv : Services) (proposer : String) (wallets : List String)
    → (count_failed (bulk_import sv proposer wallets).1 ≡ 0) ↔ AllImported sv proposer wallets
unfolding bulk_import count_failed
count_failed-zero_iff sv proposer [] = ground arith
count_failed-zero_iff sv proposer (w ∷ wallets) =
    ground (arith, count_failed-zero_iff sv proposer wallets)

abbrev pub wallets_of : Option (List BulkImportManifestEntry) → Option (List String)
wallets_of none = none
wallets_of (some manifest) = some (map (λ m. m.wallet) manifest)

-- A bulk import reports every wallet of the request, in the order of the request, and reports
-- success exactly if each of them was registered and recorded.
pub execute_admin_action-bulk :
    (sv : Services) (id : String) (p : Payload) (wallets : List String) (proposer : String)
    → (wallets_of (execute_admin_action sv id bulk_validator_import p wallets proposer).1.manifest
        ≡ some wallets)
      × (((execute_admin_action sv id bulk_validator_import p wallets proposer).1.success ≡ true)
          ↔ AllImported sv proposer wallets)
unfolding execute_admin_action
execute_admin_action-bulk sv id p wallets proposer = (
  ap some (bulk_import-wallets sv proposer wallets),
  ground (arith, count_failed-zero_iff sv proposer wallets),
)
