-- ===== src/MultiSig/Approval/Histories.antt =====
-- The count of signatures in every history of the service.
use scout_off_backend.Prelude.{
  ℕ, ◌+◌, ◌≤◌, ◌≡◌, ◌≢◌, refl, String, true, false, none, some, List, [], ltb, leb, Bool-cases,
  Option-cases, inl, inr, eq_refl, arith,
}
use scout_off_backend.MultiSig.Table.{
  AdminActionType, Payload, PendingAdminActionRow, Signature, Db, pending, expired, executed,
  get_by_id, expire_stale, increment_signatures, insert_signature, insert_action, has_signature,
  Status,
}
use scout_off_backend.MultiSig.Table.Rows.{
  get-expire_all, get-append, get-append_old, count_signatures,
}
use scout_off_backend.MultiSig.Execution.{Services, run_admin_action}
use scout_off_backend.MultiSig.Approval.{
  Clock, execute, count_signature, recount, sign, check_pending, check_status, includes,
  approve_action, propose_action, list_pending_actions,
}
use scout_off_backend.MultiSig.Approval.Steps.{Step, approve, propose, list, Reach, here, next}
use scout_off_backend.MultiSig.Approval.Counting.{
  IsCounted, Distinct, signed-IsCounted, update_status-IsCounted, has_signature-none,
  expire_stale-IsCounted,
}
use scout_off_backend.MultiSig.Approval.Quorum.{approve_action-IsComplete}

module _ (sv : Services) (admins : List String) (clock : Clock) (id signer : String) where
  execute-IsCounted :
      (a : PendingAdminActionRow) (n : ℕ) (db : Db)
      → IsCounted db
      → IsCounted (execute sv admins clock id signer a n db).db
  unfolding execute
  execute-IsCounted a n db h =
      let marked = update_status-IsCounted id executed db h in
      let reverted = update_status-IsCounted id pending _ marked in
      elim (Bool-cases (run_admin_action sv a.action_type a.payload a.proposer).1.success) [
        | inl done ↦ rw (done, execute) marked
        | inr bad ↦ rw (bad, execute) reverted
      ]

  count_signature-IsCounted :
      (a : PendingAdminActionRow) (db : Db)
      → IsCounted (increment_signatures id db)
      → IsCounted (count_signature sv admins clock id signer a db).db
  unfolding count_signature
  count_signature-IsCounted a db h =
      let db' = increment_signatures id db in
      elim (Bool-cases (ltb (recount sv admins clock id signer a db') a.required_signatures)) [
        | inl more ↦ rw (more, count_signature) h
        | inr full ↦ rw (full, count_signature) (execute-IsCounted a _ db' h)
      ]

  sign-IsCounted :
      (a b : PendingAdminActionRow) (db : Db)
      → IsCounted db
      → get_by_id id db.actions ≡ some b
      → IsCounted (sign sv admins clock id signer a db).db
  unfolding sign
  sign-IsCounted a b db h found =
      let s : Signature = record { action_id = id; signer = signer; signed_at = clock.signed_at } in
      elim (Bool-cases (has_signature id signer db.signatures)) [
        | inl old ↦ rw (old, sign) h
        | inr new ↦ elim (Bool-cases (insert_signature s db).1) [
          | inl inserted ↦
              rw (new, inserted, sign)
                (count_signature-IsCounted a (insert_signature s db).0
                  (signed-IsCounted s b db h found new))
          | inr kept ↦ rw (new, kept, sign) h
        ]
      ]

  check_status-IsCounted :
      (status : Status) (a : PendingAdminActionRow) (db : Db)
      → IsCounted db
      → get_by_id id db.actions ≡ some a
      → IsCounted (check_status sv admins clock id signer status a db).db
  unfolding check_pending
  check_status-IsCounted pending a db h found =
      elim (Bool-cases (ltb a.expires_at clock.checked_at)) [
        | inl late ↦ rw (late, check_pending) (update_status-IsCounted id expired db h)
        | inr live ↦ elim (Bool-cases (includes signer admins)) [
          | inl admin ↦ rw (live, admin, check_pending) (sign-IsCounted a a db h found)
          | inr foreign ↦ rw (live, foreign, check_pending) h
        ]
      ]
  check_status-IsCounted _ a db h found = h

  approve_action-IsCounted :
      (db : Db) → IsCounted db → IsCounted (approve_action sv admins clock id signer db).db
  unfolding approve_action
  approve_action-IsCounted db h =
      let db' = expire_stale clock.swept_at db in
      let swept = expire_stale-IsCounted clock.swept_at db h in
      elim (Option-cases (get_by_id id db'.actions)) [
        | inl gone ↦ rw (gone, approve_action) swept
        | inr (a, found) ↦
            rw (found, approve_action) (check_status-IsCounted a.status a db' swept found)
      ]

insert_action-IsCounted :
    (a : PendingAdminActionRow) (db : Db)
    → IsCounted db
    → get_by_id a.id db.actions ≡ none
    → IsCounted (insert_action a db)
unfolding insert_action
insert_action-IsCounted a db h fresh =
    let row : PendingAdminActionRow = record a { collected_signatures = 0; status = pending } in
    record {
      counted = λ j. elim (Option-cases (get_by_id j db.actions)) [
        | inl gone ↦ ground (arith, get-append j db.actions row gone, h.counted j)
        | inr (b, found) ↦ ground (arith, get-append_old j db.actions row b found, h.counted j)
      ];
      distinct = h.distinct;
    }

-- A new action with the signature of its proposer.
insert_signed-IsCounted :
    (a : PendingAdminActionRow) (s : Signature) (db : Db)
    → s.action_id ≡ a.id
    → IsCounted db
    → get_by_id a.id db.actions ≡ none
    → IsCounted (increment_signatures s.action_id (insert_signature s (insert_action a db)).0)
unfolding insert_action
insert_signed-IsCounted a s db same h fresh =
    let row : PendingAdminActionRow = record a { collected_signatures = 0; status = pending } in
    signed-IsCounted s row (insert_action a db) (insert_action-IsCounted a db h fresh)
      (ground (arith, get-append s.action_id db.actions row, eq_refl a.id))
      (has_signature-none s.action_id s.signer db.signatures
        (ground (arith, h.counted s.action_id)))

propose_action-IsCounted :
    (required ttl swept_at now : ℕ) (new_id : String) (type : AdminActionType) (payload : Payload)
    (proposer : String) (db : Db)
    → get_by_id new_id db.actions ≡ none
    → IsCounted db
    → IsCounted (propose_action required ttl swept_at now new_id type payload proposer db).0
unfolding propose_action
propose_action-IsCounted required ttl swept_at now new_id type payload proposer db fresh h =
    let swept = expire_stale-IsCounted swept_at db h in
    elim (Bool-cases (leb required 1)) [
      | inl single ↦ rw (single, propose_action) swept
      | inr several ↦
          rw (several, propose_action)
            (insert_signed-IsCounted _ _ (expire_stale swept_at db) refl swept
              (ground (arith, get-expire_all new_id swept_at db.actions)))
    ]

Step-IsCounted : {u v : Db} → Step u v → IsCounted u → IsCounted v
unfolding list_pending_actions
Step-IsCounted (approve sv admins clock id signer db) h =
    approve_action-IsCounted sv admins clock id signer db h
Step-IsCounted (propose required ttl swept_at now new_id type payload proposer db fresh) h =
    propose_action-IsCounted required ttl swept_at now new_id type payload proposer db fresh h
Step-IsCounted (list now db) h = expire_stale-IsCounted now db h

abbrev pub empty : Db
empty = record { actions = []; signatures = [] }

-- In every history of proposals with new ids, approvals and listings, the collected count of each
-- action is the number of its signatures, and no signer has signed an action twice.
pub Reach-IsCounted : {db : Db} → Reach empty db → IsCounted db
unfolding get_by_id count_signatures
Reach-IsCounted here = record { counted = λ id. refl; distinct = tt }
Reach-IsCounted (next r st) = Step-IsCounted st (Reach-IsCounted r)

-- In every history of proposals with new ids, approvals and listings, if an approval makes a
-- contract call, then the signer is an administrator who had not signed the action, no signer has
-- signed an action twice, and with this signature the action has at least the required number.
pub approve_action-quorum :
    (sv : Services) (admins : List String) (clock : Clock) (id signer : String) {db : Db}
    → Reach empty db
    → (approve_action sv admins clock id signer db).effects ≢ []
    → (a : PendingAdminActionRow) × (get_by_id id (expire_stale clock.swept_at db).actions ≡ some a)
      × (a.required_signatures ≤ count_signatures id db.signatures + 1)
      × Distinct db.signatures
      × (has_signature id signer db.signatures ≡ false)
      × (includes signer admins ≡ true)
approve_action-quorum sv admins clock id signer {db} r e =
    let h = expire_stale-IsCounted clock.swept_at db (Reach-IsCounted r) in
    let (a, complete) = approve_action-IsComplete sv admins clock id signer db e in
    (
      a,
      complete.found,
      ground (arith, h.counted id, complete.found, complete.quorum),
      h.distinct,
      complete.first,
      complete.admin,
    )
