-- ===== src/MultiSig/Approval/Finality.antt =====
-- From an approval that executed an action to the end of any history.
use scout_off_backend.Prelude.{
  ℕ, ◌+◌, ◌≡◌, refl, String, Option, none, some, List, [], Option-cases, inl, inr, eq_iff, eq_refl,
  arith,
}
use scout_off_backend.MultiSig.Table.{
  AdminActionType, Payload, PendingAdminActionRow, Signature, Db, pending, expired, executed, other,
  get_by_id, with_signature, with_status, expire, expire_stale, expire_all, increment_signatures,
  insert_signature, insert_action, Status,
}
use scout_off_backend.MultiSig.Table.Rows.{
  get-update, get-expire_all, get-append_old, actions-insert_signature,
}
use scout_off_backend.MultiSig.Execution.{Services}
use scout_off_backend.MultiSig.Approval.{
  Clock, result, approved, execute, count_signature, recount, sign, check_pending, check_status,
  approve_action, propose_action, list_pending_actions,
}
use scout_off_backend.MultiSig.Approval.Once.{approve_action-executed, approve_action-keeps}
use scout_off_backend.MultiSig.Approval.Quorum.{recount-row}
use scout_off_backend.MultiSig.Approval.Steps.{Step, approve, propose, list, Reach, here, next}

abbrev pub status_of : Option PendingAdminActionRow → Option Status
status_of none = none
status_of (some a) = some a.status

abbrev pub IsExecuted : String → Db → Type 0
IsExecuted id db = status_of (get_by_id id db.actions) ≡ some executed

executed_row :
    (o : Option PendingAdminActionRow)
    → status_of o ≡ some executed
    → (a : PendingAdminActionRow) × (o ≡ some a) × (a.status ≡ executed)
executed_row none h = cc
executed_row (some a) h = (a, refl, cc)

propose_action-keeps :
    (required ttl swept_at now : ℕ) (new_id : String) (type : AdminActionType) (payload : Payload)
    (proposer j : String) (a : PendingAdminActionRow) (db : Db)
    → get_by_id new_id db.actions ≡ none
    → get_by_id j db.actions ≡ some a
    → a.status ≡ executed
    → get_by_id j
        (propose_action required ttl swept_at now new_id type payload proposer db).0.actions
      ≡ some a
unfolding propose_action insert_action expire
propose_action-keeps required ttl swept_at now new_id type payload proposer j a db f h s =
    let row : PendingAdminActionRow = record {
      id = new_id;
      action_type = type;
      proposer = proposer;
      payload = payload;
      required_signatures = required;
      collected_signatures = 0;
      status = pending;
      expires_at = now + ttl;
      created_at = now;
    } in
    let signature : Signature = record { action_id = new_id; signer = proposer; signed_at = now } in
    let db' = insert_action row (expire_stale swept_at db) in
    ground (
      arith,
      get-expire_all j swept_at db.actions,
      get-append_old j (expire_all swept_at db.actions) row a,
      actions-insert_signature signature db',
      get-update j new_id with_signature (λ b. refl) (insert_signature signature db').0.actions,
      eq_iff new_id j,
    )

Step-IsExecuted : (id : String) {u v : Db} → Step u v → IsExecuted id u → IsExecuted id v
unfolding list_pending_actions expire
Step-IsExecuted id (approve sv admins clock other_id signer db) h =
    let (a, found, s) = executed_row (get_by_id id db.actions) h in
    ground (arith, approve_action-keeps sv admins clock other_id signer id a db found s)
Step-IsExecuted id (propose required ttl swept_at now new_id type payload proposer db fresh) h =
    let (a, found, s) = executed_row (get_by_id id db.actions) h in
    ground (
      arith,
      propose_action-keeps required ttl swept_at now new_id type payload proposer id a db fresh
          found s,
    )
Step-IsExecuted id (list now db) h = ground (arith, get-expire_all id now db.actions)

Reach-IsExecuted : (id : String) {u v : Db} → Reach u v → IsExecuted id u → IsExecuted id v
Reach-IsExecuted id here h = h
Reach-IsExecuted id (next r st) h = Step-IsExecuted id st (Reach-IsExecuted id r h)

module _ (sv : Services) (admins : List String) (clock : Clock) (id signer : String) where
  module _ (m r : ℕ) (b : PendingAdminActionRow) where
    execute-approved :
        (a : PendingAdminActionRow) (n : ℕ) (db : Db)
        → get_by_id id db.actions ≡ some b
        → (execute sv admins clock id signer a n db).outcome ≡ result m r approved
        → IsExecuted id (execute sv admins clock id signer a n db).db
    unfolding execute
    execute-approved a n db h e =
        ground (arith, eq_refl id, get-update id id (with_status executed) (λ c. refl) db.actions)

  module _ (m r : ℕ) where
    count_signature-approved :
        (a b : PendingAdminActionRow) (db : Db)
        → get_by_id id db.actions ≡ some b
        → (count_signature sv admins clock id signer a db).outcome ≡ result m r approved
        → IsExecuted id (count_signature sv admins clock id signer a db).db
    unfolding count_signature
    count_signature-approved a b db h e =
        let db' = increment_signatures id db in
        ground (
          arith,
          recount-row id b db.actions h,
          execute-approved m r (with_signature b) a (recount sv admins clock id signer a db') db',
        )

    sign-approved :
        (a b : PendingAdminActionRow) (db : Db)
        → get_by_id id db.actions ≡ some b
        → (sign sv admins clock id signer a db).outcome ≡ result m r approved
        → IsExecuted id (sign sv admins clock id signer a db).db
    unfolding sign
    sign-approved a b db h e =
        let s : Signature = record {
          action_id = id;
          signer = signer;
          signed_at = clock.signed_at;
        } in
        ground (
          arith,
          actions-insert_signature s db,
          count_signature-approved a b (insert_signature s db).0,
        )

    check_status-approved :
        (status : Status) (a : PendingAdminActionRow) (db : Db)
        → get_by_id id db.actions ≡ some a
        → (check_status sv admins clock id signer status a db).outcome ≡ result m r approved
        → IsExecuted id (check_status sv admins clock id signer status a db).db
    unfolding check_pending
    check_status-approved pending a db h e = ground (arith, sign-approved a a db)
    check_status-approved executed a db h e = cc
    check_status-approved expired a db h e = cc
    check_status-approved (other t) a db h e = cc

    approve_action-approved :
        (db : Db)
        → (approve_action sv admins clock id signer db).outcome ≡ result m r approved
        → IsExecuted id (approve_action sv admins clock id signer db).db
    unfolding approve_action
    approve_action-approved db e =
        let db' = expire_stale clock.swept_at db in
        elim (Option-cases (get_by_id id db'.actions)) [
          | inl gone ↦ ground arith
          | inr (a, found) ↦ ground (arith, check_status-approved a.status a db')
        ]

    -- Where calls do not overlap: once an approval has answered 'approved', the action is never run
    -- again: whatever proposals, approvals and listings follow, by whomever, every later approval of
    -- it makes no contract call.
    pub approve_action-once :
        (db v : Db) (sv' : Services) (admins' : List String) (clock' : Clock) (signer' : String)
        → (approve_action sv admins clock id signer db).outcome ≡ result m r approved
        → Reach (approve_action sv admins clock id signer db).db v
        → (approve_action sv' admins' clock' id signer' v).effects ≡ []
    approve_action-once db v sv' admins' clock' signer' e r =
        let (a, found, s) =
          executed_row (get_by_id id v.actions)
            (Reach-IsExecuted id r (approve_action-approved db e)) in
        rw (approve_action-executed sv' admins' clock' id signer' a v found s)
