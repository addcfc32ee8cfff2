-- ===== src/MultiSig/Approval/Quorum.antt =====
-- What must hold for an approval to run the privileged operation.
use scout_off_backend.Prelude.{
  ◌+◌, ◌≤◌, ◌≡◌, ◌≢◌, refl, String, true, false, some, List, [], Option-cases, inl, inr, eq_refl,
  arith,
}
use scout_off_backend.MultiSig.Table.{
  PendingAdminActionRow, Signature, Db, pending, expired, executed, other, get_by_id, update,
  with_signature, expire_stale, has_signature, insert_signature, Status,
}
use scout_off_backend.MultiSig.Table.Rows.{get-update, actions-insert_signature}
use scout_off_backend.MultiSig.Execution.{Services}
use scout_off_backend.MultiSig.Approval.{
  Clock, includes, count_signature, sign, check_pending, check_status, approve_action,
}

pub recount-row :
    (id : String) (a : PendingAdminActionRow) (rows : List PendingAdminActionRow)
    → get_by_id id rows ≡ some a
    → get_by_id id (update id with_signature rows) ≡ some (with_signature a)
recount-row id a rows h =
    ground (arith, get-update id id with_signature (λ a. refl) rows, eq_refl id)

module _ (sv : Services) (admins : List String) (clock : Clock) (id signer : String) where
  -- The state of an action in which an approval by `signer` completes the quorum.
  pub record IsComplete (a : PendingAdminActionRow) (db : Db) : Type 0 where
    pub found : get_by_id id db.actions ≡ some a
    pub pending : a.status ≡ pending
    pub unexpired : clock.checked_at ≤ a.expires_at
    pub admin : includes signer admins ≡ true
    pub first : has_signature id signer db.signatures ≡ false
    pub quorum : a.required_signatures ≤ a.collected_signatures + 1

  count_signature-quorum :
      (a : PendingAdminActionRow) (db : Db)
      → get_by_id id db.actions ≡ some a
      → (count_signature sv admins clock id signer a db).effects ≢ []
      → a.required_signatures ≤ a.collected_signatures + 1
  unfolding count_signature
  count_signature-quorum a db h e = ground (arith, recount-row id a db.actions h)

  sign-quorum :
      (a : PendingAdminActionRow) (db : Db)
      → get_by_id id db.actions ≡ some a
      → (sign sv admins clock id signer a db).effects ≢ []
      → (has_signature id signer db.signatures ≡ false)
        × (a.required_signatures ≤ a.collected_signatures + 1)
  unfolding sign insert_signature
  sign-quorum a db h e =
      let s : Signature = record { action_id = id; signer = signer; signed_at = clock.signed_at } in
      ground (
        arith,
        count_signature-quorum a (insert_signature s db).0 (rw (actions-insert_signature s db) h),
      )

  check_pending-IsComplete :
      (a : PendingAdminActionRow) (db : Db)
      → get_by_id id db.actions ≡ some a
      → a.status ≡ pending
      → (check_pending sv admins clock id signer a db).effects ≢ []
      → IsComplete a db
  unfolding check_pending
  check_pending-IsComplete a db h s e = ground (arith, sign-quorum a db h)

  check_status-IsComplete :
      (status : Status) (a : PendingAdminActionRow) (db : Db)
      → get_by_id id db.actions ≡ some a
      → a.status ≡ status
      → (check_status sv admins clock id signer status a db).effects ≢ []
      → IsComplete a db
  check_status-IsComplete pending a db h s e = check_pending-IsComplete a db h s e
  check_status-IsComplete executed a db h s e = absurd (e refl)
  check_status-IsComplete expired a db h s e = absurd (e refl)
  check_status-IsComplete (other t) a db h s e = absurd (e refl)

  -- If an approval makes any contract call, then after the expiry sweep the action was pending and
  -- not past its expiry, the signer is an administrator who had not signed it yet, and with this
  -- signature the required number is reached.
  pub approve_action-IsComplete :
      (db : Db)
      → (approve_action sv admins clock id signer db).effects ≢ []
      → (a : PendingAdminActionRow) × IsComplete a (expire_stale clock.swept_at db)
  unfolding approve_action
  approve_action-IsComplete db e =
      elim (Option-cases (get_by_id id (expire_stale clock.swept_at db).actions)) [
        | inl gone ↦ absurd (e (rw (gone, approve_action) refl))
        | inr (a, found) ↦ (
          a,
          check_status-IsComplete a.status a (expire_stale clock.swept_at db) found refl
              (λ idle. e (rw (found, approve_action) idle)),
        )
      ]
