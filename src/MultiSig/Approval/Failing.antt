-- ===== src/MultiSig/Approval/Failing.antt =====
-- What happens to an action whose execution failed.
use scout_off_backend.Prelude.{
  ℕ, ◌+◌, ◌≤◌, ◌≡◌, ◌≢◌, refl, String, Bool, true, false, Option, none, some, List, [], ◌∷◌, ◌++◌,
  Option-cases, inl, inr, eq_refl, arith,
}
use scout_off_backend.MultiSig.Table.{
  PendingAdminActionRow, Signature, Db, pending, executed, get_by_id, update, with_signature,
  with_status, expire_stale, increment_signatures, insert_signature, insert_action, has_signature,
  Status,
}
use scout_off_backend.MultiSig.Table.Rows.{get-update}
use scout_off_backend.MultiSig.Execution.{Services, run_admin_action}
use scout_off_backend.MultiSig.Approval.{
  Clock, includes, execute, count_signature, recount, sign, check_pending, check_status,
  approve_action, new_action, propose_action, list_pending_actions,
}
use scout_off_backend.MultiSig.Approval.Quorum.{IsComplete, approve_action-IsComplete, recount-row}
use scout_off_backend.MultiSig.Approval.Steps.{Step, approve, propose, list, Reach, here, next}

-- Every administrator has signed.
abbrev pub AllSigned : List String → String → Db → Type 0
AllSigned admins id db =
    (w : String) → includes w admins ≡ true → has_signature id w db.signatures ≡ true

has_signature-append :
    (id signer : String) (signatures : List Signature) (s : Signature)
    → has_signature id signer signatures ≡ true
    → has_signature id signer (signatures ++ s ∷ []) ≡ true
unfolding has_signature
has_signature-append id signer [] s h = cc
has_signature-append id signer (t ∷ signatures) s h =
    ground (arith, has_signature-append id signer signatures s)

module _ (id signer : String) where
  abbrev HasSigned : Db → Type 0
  HasSigned db = has_signature id signer db.signatures ≡ true

  insert_signature-keeps :
      (s : Signature) (db : Db) → HasSigned db → HasSigned (insert_signature s db).0
  unfolding insert_signature
  insert_signature-keeps s db h = ground (arith, has_signature-append id signer db.signatures s)

  -- An approval only adds signatures.
  module _ (sv : Services) (admins : List String) (clock : Clock) (id' signer' : String) where
    count_signature-signatures :
        (a : PendingAdminActionRow) (db : Db)
        → (count_signature sv admins clock id' signer' a db).db.signatures ≡ db.signatures
    unfolding count_signature execute
    count_signature-signatures a db = ground arith

    check_status-keeps :
        (status : Status) (a : PendingAdminActionRow) (db : Db)
        → HasSigned db
        → HasSigned (check_status sv admins clock id' signer' status a db).db
    unfolding check_pending sign
    check_status-keeps pending a db h =
        let s : Signature = record {
          action_id = id';
          signer = signer';
          signed_at = clock.signed_at;
        } in
        ground (
          arith,
          insert_signature-keeps s db h,
          count_signature-signatures a (insert_signature s db).0,
        )
    check_status-keeps _ a db h = h

    approve_action-keeps :
        (db : Db) → HasSigned db → HasSigned (approve_action sv admins clock id' signer' db).db
    unfolding approve_action
    approve_action-keeps db h =
        let db' = expire_stale clock.swept_at db in
        elim (Option-cases (get_by_id id' db'.actions)) [
          | inl gone ↦ rw (gone, approve_action) h
          | inr (a, found) ↦ rw (found, approve_action) (check_status-keeps a.status a db' h)
        ]

  Step-HasSigned : {u v : Db} → Step u v → HasSigned u → HasSigned v
  unfolding list_pending_actions propose_action insert_action
  Step-HasSigned (approve sv admins clock id' signer' db) h =
      approve_action-keeps sv admins clock id' signer' db h
  Step-HasSigned (propose required ttl swept_at now new_id type payload proposer db fresh) h =
      let s : Signature = record { action_id = new_id; signer = proposer; signed_at = now } in
      let a = new_action required ttl now new_id type payload proposer in
      ground (arith, insert_signature-keeps s (insert_action a (expire_stale swept_at db)) h)
  Step-HasSigned (list now db) h = h

  Reach-HasSigned : {u v : Db} → Reach u v → HasSigned u → HasSigned v
  Reach-HasSigned here h = h
  Reach-HasSigned (next r st) h = Step-HasSigned st (Reach-HasSigned r h)

eq_nil {ℓ} : {A : Type ℓ} (l : List A) → (l ≢ [] → ⊥) → l ≡ []
eq_nil [] h = refl
eq_nil (x ∷ xs) h = absurd (h (λ e. cc e))

-- Once every administrator has signed an action, no approval of it by any of the same
-- administrators ever makes a contract call again, in any later history, whether the action was
-- executed or its execution failed and it was put back to pending.
pub approve_action-exhausted :
    (sv : Services) (admins : List String) (clock : Clock) (id signer : String) {db v : Db}
    → AllSigned admins id db
    → Reach db v
    → (approve_action sv admins clock id signer v).effects ≡ []
approve_action-exhausted sv admins clock id signer {v} all r =
    eq_nil (approve_action sv admins clock id signer v).effects λ e.
      let (a, c) = approve_action-IsComplete sv admins clock id signer v e in
      let signed = Reach-HasSigned id signer r (all signer c.admin) in
      let unsigned = c.first in cc (signed, unsigned)

abbrev pub status_after : Bool → Status
status_after true = executed
status_after false = pending

abbrev pub status_of : Option PendingAdminActionRow → Option Status
status_of none = none
status_of (some a) = some a.status

module _ (sv : Services) (admins : List String) (clock : Clock) (id signer : String) where
  execute-status :
      (a b : PendingAdminActionRow) (n : ℕ) (db : Db)
      → get_by_id id db.actions ≡ some b
      → ((execute sv admins clock id signer a n db).effects
          ≡ (run_admin_action sv a.action_type a.payload a.proposer).0)
        × (status_of (get_by_id id (execute sv admins clock id signer a n db).db.actions)
            ≡ some
                (status_after (run_admin_action sv a.action_type a.payload a.proposer).1.success))
  unfolding execute
  execute-status a b n db h =
      let marked = update id (with_status executed) db.actions in
      ground (
        arith,
        eq_refl id,
        get-update id id (with_status executed) (λ c. refl) db.actions,
        get-update id id (with_status pending) (λ c. refl) marked,
      )

  count_signature-status :
      (a : PendingAdminActionRow) (db : Db)
      → get_by_id id db.actions ≡ some a
      → a.required_signatures ≤ a.collected_signatures + 1
      → ((count_signature sv admins clock id signer a db).effects
          ≡ (run_admin_action sv a.action_type a.payload a.proposer).0)
        × (status_of (get_by_id id (count_signature sv admins clock id signer a db).db.actions)
            ≡ some
                (status_after (run_admin_action sv a.action_type a.payload a.proposer).1.success))
  unfolding count_signature
  count_signature-status a db h q =
      let db' = increment_signatures id db in
      ground (
        arith,
        recount-row id a db.actions h,
        execute-status a (with_signature a) (recount sv admins clock id signer a db') db',
      )

  -- An approval that completes the quorum makes exactly the contract calls of the action, and leaves
  -- it executed if the operation reports success, and pending again if it reports a failure.
  pub approve_action-status :
      (a : PendingAdminActionRow) (db : Db)
      → IsComplete sv admins clock id signer a (expire_stale clock.swept_at db)
      → ((approve_action sv admins clock id signer db).effects
          ≡ (run_admin_action sv a.action_type a.payload a.proposer).0)
        × (status_of (get_by_id id (approve_action sv admins clock id signer db).db.actions)
            ≡ some
                (status_after (run_admin_action sv a.action_type a.payload a.proposer).1.success))
  unfolding approve_action check_pending sign insert_signature
  approve_action-status a db c =
      let db' = expire_stale clock.swept_at db in
      let s : Signature = record { action_id = id; signer = signer; signed_at = clock.signed_at } in
      let signed : Db = record db' { signatures = db'.signatures ++ s ∷ [] } in
      ground (
        arith,
        c.found,
        c.pending,
        c.unexpired,
        c.admin,
        c.first,
        c.quorum,
        count_signature-status a signed c.found c.quorum,
      )
