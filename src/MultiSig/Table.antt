-- ===== src/MultiSig/Table.antt =====
-- The tables pending_admin_actions and admin_action_signatures as lists of rows, and the statements
-- of src/db/repositories/adminActions.ts on them. The ids are the primary key of the first table,
-- (action_id, signer) is unique in the second.
pub mod Rows
use scout_off_backend.Prelude.{
  ℕ, ◌+◌, String, Bool, true, false, ◌&&◌, Option, none, some, List, [], ◌∷◌, ◌++◌, leb, str_eq,
  if◌then◌else◌,
}

pub data AdminActionType : Type 0 where
  pause_contract unpause_contract withdraw_fees update_platform_fee : AdminActionType
  register_validator revoke_validator bulk_validator_import : AdminActionType

pub data Status : Type 0 where
  pending executed expired : Status
  other : String → Status

-- The parsed payload: the fields that the service reads. `new_fee_bps` is the value of
-- `Number(payload.newFeeBps)` where that is a non-negative integer, and absent otherwise.
pub record Payload : Type 0 where
  pub treasury_address : Option String
  pub recipient : Option String
  pub amount_stroops : Option String
  pub validator_wallet : Option String
  pub wallet : Option String
  pub new_fee_bps : Option ℕ

pub record PendingAdminActionRow : Type 0 where
  pub id : String
  pub action_type : AdminActionType
  pub proposer : String
  pub payload : Payload
  pub required_signatures : ℕ
  pub collected_signatures : ℕ
  pub status : Status
  pub expires_at : ℕ
  pub created_at : ℕ

pub record Signature : Type 0 where
  pub action_id : String
  pub signer : String
  pub signed_at : ℕ

pub record Db : Type 0 where
  pub actions : List PendingAdminActionRow
  pub signatures : List Signature

abbrev pub is_pending : Status → Bool
is_pending pending = true
is_pending _ = false

-- `getPendingAdminActionById`
unfoldable pub get_by_id : String → List PendingAdminActionRow → Option PendingAdminActionRow
get_by_id id [] = none
get_by_id id (a ∷ actions) = if str_eq a.id id then some a else get_by_id id actions

-- `getPendingAdminActionsByStatus('pending')`, without the order of the rows.
unfoldable pub get_pending : List PendingAdminActionRow → List PendingAdminActionRow
get_pending [] = []
get_pending (a ∷ actions) =
    let rest = get_pending actions in if is_pending a.status then a ∷ rest else rest

-- `insertPendingAdminAction`: the columns that it leaves out have the defaults 0 and 'pending'.
unfoldable pub insert_action : PendingAdminActionRow → Db → Db
insert_action a db = record db {
  actions = db.actions ++ record a { collected_signatures = 0; status = pending } ∷ [];
}

-- An UPDATE of the row with one id.
unfoldable pub update :
    String
    → (PendingAdminActionRow → PendingAdminActionRow)
    → List PendingAdminActionRow
    → List PendingAdminActionRow
update id f [] = []
update id f (a ∷ actions) = (if str_eq a.id id then f a else a) ∷ update id f actions

abbrev pub with_status : Status → PendingAdminActionRow → PendingAdminActionRow
with_status status a = record a { status = status }

abbrev pub with_signature : PendingAdminActionRow → PendingAdminActionRow
with_signature a = record a { collected_signatures = a.collected_signatures + 1 }

-- `updatePendingAdminActionStatus`
abbrev pub update_status : String → Status → Db → Db
update_status id status db = record db { actions = update id (with_status status) db.actions }

-- `incrementActionSignatures`
abbrev pub increment_signatures : String → Db → Db
increment_signatures id db = record db { actions = update id with_signature db.actions }

unfoldable pub expire : ℕ → PendingAdminActionRow → PendingAdminActionRow
expire now a =
    if is_pending a.status && leb a.expires_at now then record a { status = expired } else a

unfoldable pub expire_all : ℕ → List PendingAdminActionRow → List PendingAdminActionRow
unfolding expire
expire_all now [] = []
expire_all now (a ∷ actions) = expire now a ∷ expire_all now actions

-- `expireStalePendingAdminActions`
abbrev pub expire_stale : ℕ → Db → Db
expire_stale now db = record db { actions = expire_all now db.actions }

-- `getAdminActionSignature`, as whether there is a row
unfoldable pub has_signature : String → String → List Signature → Bool
has_signature id signer [] = false
has_signature id signer (s ∷ signatures) =
    if str_eq s.action_id id && str_eq s.signer signer
    then true
    else has_signature id signer signatures

-- `getAdminActionSignatures`
unfoldable pub signatures_of : String → List Signature → List Signature
signatures_of id [] = []
signatures_of id (s ∷ signatures) =
    let rest = signatures_of id signatures in if str_eq s.action_id id then s ∷ rest else rest

-- `insertAdminActionSignature`: whether a row was inserted
unfoldable pub insert_signature : Signature → Db → Db × Bool
unfolding has_signature
insert_signature s db =
    if has_signature s.action_id s.signer db.signatures
    then (db, false)
    else (record db { signatures = db.signatures ++ s ∷ [] }, true)
