-- ===== src/Idempotency/Replay.antt =====
-- What a later request with the same key is answered.
use scout_off_backend.Prelude.{
  ℕ, ◌+◌, ◌≤◌, ◌<◌, ◌≡◌, ◌≢◌, ◌↔◌, ◌⊎◌, inl, refl, ap, ◌∙◌, String, true, false, Option, none, some,
  arith, eq_refl,
}
use scout_off_backend.Idempotency.{
  IdempotencyRecord, complete, Keys, put, pending_row, unless_pending, idempotency_ttl_ms,
  get_idempotency_record, release_idempotency_key, update_idempotency_record,
  is_deterministic_outcome, fingerprint_conflicts, own, replay, handle_idempotency,
}
use scout_off_backend.Idempotency.Claims.{
  put_same, claim_idempotency_key_iff, claim_idempotency_key-row,
}

-- An outcome is stored exactly if it is a success, or a client error other than a timeout, a
-- conflict, a lock or a rate limit.
pub is_deterministic_outcome_iff :
    (code : ℕ)
    → (is_deterministic_outcome code ≡ true) ↔ (
        ((200 ≤ code) × (code < 300))
        ⊎ ((400 ≤ code) × (code < 500) × (code ≢ 408) × (code ≢ 409) × (code ≢ 423) × (code ≢ 429)))
unfolding is_deterministic_outcome
is_deterministic_outcome_iff code = ground arith

get_idempotency_record_found :
    (now : ℕ) (key : String) (t : Keys) (r : IdempotencyRecord)
    → t key ≡ some r
    → now < r.expires_at
    → get_idempotency_record now key t ≡ some r
unfolding get_idempotency_record
get_idempotency_record_found now key t r found live = rw found (ground arith)

get_idempotency_record_absent :
    (now : ℕ) (key : String) (t : Keys) → t key ≡ none → get_idempotency_record now key t ≡ none
unfolding get_idempotency_record
get_idempotency_record_absent now key t gone = rw gone refl

-- A request for a free key owns it.
pub handle_idempotency_free :
    (now lease : ℕ) (key : String) (fingerprint : Option String) (t : Keys)
    → t key ≡ none
    → ((handle_idempotency now lease key fingerprint t).0 ≡ own)
      × ((handle_idempotency now lease key fingerprint t).1 key
          ≡ some (pending_row now lease fingerprint))
unfolding handle_idempotency
handle_idempotency_free now lease key fingerprint t free =
    let won = (claim_idempotency_key_iff now lease key fingerprint t).1 (inl free) in
    let left = claim_idempotency_key-row now lease key fingerprint t won in
    rw (get_idempotency_record_absent now key t free) (rw won (refl, left))

handle_idempotency_complete :
    (now lease : ℕ) (key : String) (fingerprint : Option String) (t : Keys) (r : IdempotencyRecord)
    → t key ≡ some r
    → r.status ≡ complete
    → now < r.expires_at
    → fingerprint_conflicts fingerprint r.request_fingerprint ≡ false
    → handle_idempotency now lease key fingerprint t ≡ (replay r.status_code r.response, t)
unfolding handle_idempotency
handle_idempotency_complete now lease key fingerprint t r found done live same =
    rw (get_idempotency_record_found now key t r found live) (rw done (rw same refl))

completed_row :
    (key : String) (code : ℕ) (body : String) (t : Keys) (r : IdempotencyRecord)
    → t key ≡ some r
    → is_deterministic_outcome code ≡ true
    → update_idempotency_record key code body t key
      ≡ some (record {
        status_code = code;
        response = body;
        created_at = r.created_at;
        expires_at = r.expires_at;
        status = complete;
        request_fingerprint = r.request_fingerprint;
        locked_until = r.locked_until;
      })
unfolding update_idempotency_record
completed_row key code body t r found stored = rw stored (put_same key _ t ∙ rw found refl)

fingerprint_conflicts_same : (f : Option String) → fingerprint_conflicts f f ≡ false
fingerprint_conflicts_same none = refl
fingerprint_conflicts_same (some f) = ground (arith, eq_refl f)

-- When a request for a free key has been answered with a deterministic outcome, every request with
-- that key and fingerprint before 24 hours after the claim are over is answered with the same
-- status and body, if nothing else has changed the key since.
pub handle_idempotency-replays :
    (now later lease : ℕ) (key : String) (fingerprint : Option String) (code : ℕ) (body : String)
    (t : Keys)
    → t key ≡ none
    → is_deterministic_outcome code ≡ true
    → later < now + idempotency_ttl_ms
    → (handle_idempotency later lease key fingerprint (
        update_idempotency_record key code body
          (handle_idempotency now lease key fingerprint t).1)).0
      ≡ replay code body
handle_idempotency-replays now later lease key fingerprint code body t free stored live =
    let t' = (handle_idempotency now lease key fingerprint t).1 in
    let claimed = (handle_idempotency_free now lease key fingerprint t free).1 in
    let kept = completed_row key code body t' (pending_row now lease fingerprint) claimed stored in
    ap (λ d. d.0)
      (handle_idempotency_complete later lease key fingerprint
        (update_idempotency_record key code body t') _ kept refl live
        (fingerprint_conflicts_same fingerprint))

-- When a request for a free key has been answered with an outcome that is not stored, or has
-- released the key, the next request with that key owns it, whatever its time and fingerprint.
pub handle_idempotency-retries :
    (now later lease : ℕ) (key : String) (fingerprint other : Option String) (code : ℕ)
    (body : String) (t : Keys)
    → t key ≡ none
    → is_deterministic_outcome code ≡ false
    → let claimed = (handle_idempotency now lease key fingerprint t).1 in
      ((handle_idempotency later lease key other
          (update_idempotency_record key code body claimed)).0
        ≡ own)
      × ((handle_idempotency later lease key other (release_idempotency_key key claimed)).0 ≡ own)
unfolding update_idempotency_record release_idempotency_key
handle_idempotency-retries now later lease key fingerprint other code body t free transient =
    let claimed = (handle_idempotency_free now lease key fingerprint t free).1 in
    let t' = (handle_idempotency now lease key fingerprint t).1 in
    let gone : put key (unless_pending (t' key)) t' key ≡ none =
      put_same key _ t' ∙ rw claimed refl in
    let next =
      (handle_idempotency_free later lease key other (put key (unless_pending (t' key)) t')
        gone).0 in
    rw transient (next, next)
