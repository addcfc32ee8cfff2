-- ===== src/MultiSig/Approval/Steps.antt =====
-- Histories of the service: any calls, one after the other.
use scout_off_backend.Prelude.{ℕ, ◌≡◌, none, String, List}
use scout_off_backend.MultiSig.Table.{AdminActionType, Payload, Db, get_by_id}
use scout_off_backend.MultiSig.Execution.{Services}
use scout_off_backend.MultiSig.Approval.{
  Clock, approve_action, propose_action, list_pending_actions,
}

-- The calls of the service, each one on the tables that the last one left.
pub data Step : Db → Db → Type 0 where
  approve :
      (sv : Services) (admins : List String) (clock : Clock) (id signer : String) (db : Db)
      → Step db (approve_action sv admins clock id signer db).db
  propose :
      (required ttl swept_at now : ℕ) (new_id : String) (type : AdminActionType) (payload : Payload)
      (proposer : String) (db : Db)
      → get_by_id new_id db.actions ≡ none
      → Step db (propose_action required ttl swept_at now new_id type payload proposer db).0
  list : (now : ℕ) (db : Db) → Step db (list_pending_actions now db).0

pub data Reach (db : Db) : Db → Type 0 where
  here : Reach db db
  next : {u v : Db} → Reach db u → Step u v → Reach db v
