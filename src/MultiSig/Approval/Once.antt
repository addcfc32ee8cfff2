-- ===== src/MultiSig/Approval/Once.antt =====
-- An executed action stays executed, and is never run again.
use scout_off_backend.Prelude.{
  ℕ, ◌≡◌, refl, ◌∙◌, String, false, some, List, Bool-cases, Option-cases, inl, inr, str_eq, eq_iff,
  arith,
}
use scout_off_backend.MultiSig.Table.{
  PendingAdminActionRow, Signature, Db, pending, expired, executed, other, get_by_id, update,
  with_signature, with_status, expire, expire_stale, increment_signatures, insert_signature, Status,
}
use scout_off_backend.MultiSig.Table.Rows.{
  apply, get-update, get-expire_all, actions-insert_signature,
}
use scout_off_backend.MultiSig.Execution.{Services}
use scout_off_backend.MultiSig.Approval.{
  Clock, thrown, execute, count_signature, recount, sign, check_pending, check_status,
  approve_action, stop,
}

module _ (sv : Services) (admins : List String) (clock : Clock) (id signer : String) where
  -- An approval of one action changes the row of another one only by the expiry sweep.
  module _ (j : String) (apart : str_eq id j ≡ false) where
    execute-get_ne :
        (a : PendingAdminActionRow) (n : ℕ) (db : Db)
        → get_by_id j (execute sv admins clock id signer a n db).db.actions ≡ get_by_id j db.actions
    unfolding execute
    execute-get_ne a n db =
        let marked = update id (with_status executed) db.actions in
        ground (
          arith,
          get-update j id (with_status executed) (λ a. refl) db.actions,
          get-update j id (with_status pending) (λ a. refl) marked,
        )

    count_signature-get_ne :
        (a : PendingAdminActionRow) (db : Db)
        → get_by_id j (count_signature sv admins clock id signer a db).db.actions
          ≡ get_by_id j db.actions
    unfolding count_signature
    count_signature-get_ne a db =
        let db' = increment_signatures id db in
        ground (
          arith,
          get-update j id with_signature (λ b. refl) db.actions,
          execute-get_ne a (recount sv admins clock id signer a db') db',
        )

    sign-get_ne :
        (a : PendingAdminActionRow) (db : Db)
        → get_by_id j (sign sv admins clock id signer a db).db.actions ≡ get_by_id j db.actions
    unfolding sign
    sign-get_ne a db =
        let s : Signature = record {
          action_id = id;
          signer = signer;
          signed_at = clock.signed_at;
        } in
        ground
          (arith, count_signature-get_ne a (insert_signature s db).0, actions-insert_signature s db)

    check_pending-get_ne :
        (a : PendingAdminActionRow) (db : Db)
        → get_by_id j (check_pending sv admins clock id signer a db).db.actions
          ≡ get_by_id j db.actions
    unfolding check_pending
    check_pending-get_ne a db =
        ground
          (arith, sign-get_ne a db, get-update j id (with_status expired) (λ b. refl) db.actions)

    check_status-get_ne :
        (status : Status) (a : PendingAdminActionRow) (db : Db)
        → get_by_id j (check_status sv admins clock id signer status a db).db.actions
          ≡ get_by_id j db.actions
    check_status-get_ne pending a db = check_pending-get_ne a db
    check_status-get_ne executed a db = refl
    check_status-get_ne expired a db = refl
    check_status-get_ne (other t) a db = refl

    approve_action-get_ne :
        (db : Db)
        → get_by_id j (approve_action sv admins clock id signer db).db.actions
          ≡ apply (expire clock.swept_at) (get_by_id j db.actions)
    unfolding approve_action
    approve_action-get_ne db =
        let db' = expire_stale clock.swept_at db in
        elim (Option-cases (get_by_id id db'.actions)) [
          | inl gone ↦ rw (gone, approve_action) (get-expire_all j clock.swept_at db.actions)
          | inr (a, found) ↦
              rw (found, approve_action)
                (check_status-get_ne a.status a db' ∙ get-expire_all j clock.swept_at db.actions)
        ]

  -- An approval of an executed action is refused with ACTION_EXECUTED, runs nothing and only makes
  -- the expiry sweep.
  pub approve_action-executed :
      (a : PendingAdminActionRow) (db : Db)
      → get_by_id id db.actions ≡ some a
      → a.status ≡ executed
      → approve_action sv admins clock id signer db
        ≡ stop (expire_stale clock.swept_at db) (thrown "ACTION_EXECUTED" 409)
  unfolding approve_action expire
  approve_action-executed a db h s = ground (arith, get-expire_all id clock.swept_at db.actions)

  pub approve_action-keeps :
      (j : String) (a : PendingAdminActionRow) (db : Db)
      → get_by_id j db.actions ≡ some a
      → a.status ≡ executed
      → get_by_id j (approve_action sv admins clock id signer db).db.actions ≡ some a
  unfolding expire
  approve_action-keeps j a db h s = elim (Bool-cases (str_eq id j)) [
    | inl same ↦
        let e : id ≡ j = (eq_iff id j).0 same in
        ground (
          arith,
          approve_action-executed a db (rw e h) s,
          get-expire_all j clock.swept_at db.actions,
        )
    | inr apart ↦ ground (arith, approve_action-get_ne j apart db)
  ]
