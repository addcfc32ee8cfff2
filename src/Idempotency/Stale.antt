-- ===== src/Idempotency/Stale.antt =====
-- Rows that are left behind: by a crashed owner, or after their 24 hours.
use scout_off_backend.Prelude.{
  ℕ, ◌≤◌, ◌<◌, ◌≡◌, inr, refl, ◌∙◌, String, Bool, true, false, Option, none, some, arith,
}
use scout_off_backend.Idempotency.{
  IdempotencyRecord, pending, complete, Keys, get_idempotency_record, claim_idempotency_key,
  handle_idempotency, wait, row, wait_for_completion, in_progress, reclaimable,
}
use scout_off_backend.Idempotency.Claims.{put_same, claim_idempotency_key_iff}

get_idempotency_record_live :
    (now : ℕ) (key : String) (t : Keys) (r : IdempotencyRecord)
    → t key ≡ some r
    → now < r.expires_at
    → get_idempotency_record now key t ≡ some r
unfolding get_idempotency_record
get_idempotency_record_live now key t r found live = rw found (ground arith)

-- While a pending row whose lease is over has not expired, a claim of its key would succeed. But a
-- request with that key, when nothing else happens in between, leaves the table as it is, waits,
-- and is answered 409, however the wait ends.
pub handle_idempotency-stale :
    (now lease until : ℕ) (key : String) (fingerprint : Option String) (in_time : Bool) (t : Keys)
    (r : IdempotencyRecord)
    → t key ≡ some r
    → r.status ≡ pending
    → r.locked_until ≡ some until
    → until < now
    → now < r.expires_at
    → ((claim_idempotency_key now lease key fingerprint t).0 ≡ true)
      × (handle_idempotency now lease key fingerprint t ≡ (wait, t))
      × (wait_for_completion in_time fingerprint (row (get_idempotency_record now key t))
          ≡ in_progress)
unfolding handle_idempotency wait_for_completion
handle_idempotency-stale now lease until key fingerprint in_time t r found waiting held over live =
    let read = get_idempotency_record_live now key t r found live in
    let free : reclaimable now r ≡ true = rw waiting (rw held (ground arith)) in
    (
      (claim_idempotency_key_iff now lease key fingerprint t).1 (inr (r, found, free)),
      rw read (rw waiting refl),
      rw read (rw waiting (ground arith)),
    )

read_expired :
    (now : ℕ) (key : String) (t : Keys) (r : IdempotencyRecord)
    → t key ≡ some r
    → r.expires_at ≤ now
    → get_idempotency_record now key t ≡ none
unfolding get_idempotency_record
read_expired now key t r found over = rw found (ground arith)

claim_complete :
    (now lease : ℕ) (key : String) (fingerprint : Option String) (t : Keys) (r : IdempotencyRecord)
    → t key ≡ some r
    → r.status ≡ complete
    → ((claim_idempotency_key now lease key fingerprint t).0 ≡ false)
      × ((claim_idempotency_key now lease key fingerprint t).1 key ≡ some r)
unfolding claim_idempotency_key
claim_complete now lease key fingerprint t r found done =
    (rw found (rw done refl), put_same key _ t ∙ rw found (rw done refl))

-- When the row of a stored response has expired but is still there, a request with its key, when
-- nothing else happens in between, leaves the row, waits, and is answered 409.
pub handle_idempotency-expired :
    (now lease : ℕ) (key : String) (fingerprint : Option String) (in_time : Bool) (t : Keys)
    (r : IdempotencyRecord)
    → t key ≡ some r
    → r.status ≡ complete
    → r.expires_at ≤ now
    → ((handle_idempotency now lease key fingerprint t).0 ≡ wait)
      × ((handle_idempotency now lease key fingerprint t).1 key ≡ some r)
      × (wait_for_completion in_time fingerprint (row (get_idempotency_record now key t))
          ≡ in_progress)
unfolding handle_idempotency wait_for_completion
handle_idempotency-expired now lease key fingerprint in_time t r found done over =
    let read : get_idempotency_record now key t ≡ none = read_expired now key t r found over in
    let (lost, same) = claim_complete now lease key fingerprint t r found done in
    let read' =
      read_expired now key (claim_idempotency_key now lease key fingerprint t).1 r same over in
    rw read (rw lost (rw read' (refl, same, ground arith)))
