-- ===== src/Idempotency.antt =====
-- Idempotent requests: the table of src/db/repositories/idempotency.ts and the decisions of
-- src/middleware/idempotency.ts. The table is a map from its primary key. `JSON.stringify` and
-- `JSON.parse` of the response are left out: the response is the text that is stored. Each
-- operation takes the time it reads, in milliseconds, and `lease` is `config.idempotencyLeaseMs`.
pub mod Claims
pub mod Replay
pub mod Stale
mod Examples
use scout_off_backend.Prelude.{
  ℕ, ◌+◌, String, Bool, true, false, not, ◌&&◌, ◌||◌, Option, none, some, ltb, leb, ◌==◌, str_eq,
  if◌then◌else◌,
}

pub data RecordStatus : Type 0 where
  pending complete : RecordStatus

pub record IdempotencyRecord : Type 0 where
  pub status_code : ℕ
  pub response : String
  pub created_at : ℕ
  pub expires_at : ℕ
  pub status : RecordStatus
  pub request_fingerprint : Option String
  pub locked_until : Option ℕ

abbrev pub Keys : Type 0
Keys = String → Option IdempotencyRecord

abbrev pub idempotency_ttl_ms : ℕ
idempotency_ttl_ms = 86400000

unfoldable pub put : String → Option IdempotencyRecord → Keys → Keys
put key o t k = if str_eq k key then o else t k

abbrev pub is_pending : RecordStatus → Bool
is_pending pending = true
is_pending complete = false

-- `WHERE expires_at > now`
abbrev unexpired : ℕ → Option IdempotencyRecord → Option IdempotencyRecord
unexpired now none = none
unexpired now (some r) = if ltb now r.expires_at then some r else none

unfoldable pub get_idempotency_record : ℕ → String → Keys → Option IdempotencyRecord
get_idempotency_record now key t = unexpired now (t key)

-- `DELETE ... WHERE key = ? AND status = 'pending'`
abbrev pub unless_pending : Option IdempotencyRecord → Option IdempotencyRecord
unless_pending none = none
unless_pending (some r) = if is_pending r.status then none else some r

unfoldable pub release_idempotency_key : String → Keys → Keys
release_idempotency_key key t = put key (unless_pending (t key)) t

-- `locked_until IS NULL OR locked_until < now`
abbrev pub lease_over : ℕ → Option ℕ → Bool
lease_over now none = true
lease_over now (some until) = ltb until now

-- The `WHERE` of the statement that claims a pending row again.
abbrev pub reclaimable : ℕ → IdempotencyRecord → Bool
reclaimable now r = is_pending r.status && lease_over now r.locked_until

abbrev pub pending_row : ℕ → ℕ → Option String → IdempotencyRecord
pending_row now lease fingerprint = record {
  status_code = 0;
  response = "";
  created_at = now;
  expires_at = now + idempotency_ttl_ms;
  status = pending;
  request_fingerprint = fingerprint;
  locked_until = some (now + lease);
}

-- Both statements of a claim: with a row there, only the first can change it, and without one,
-- only the second.
abbrev pub claim_row :
    ℕ → ℕ → Option String → Option IdempotencyRecord → Bool × Option IdempotencyRecord
claim_row now lease fingerprint none = (true, some (pending_row now lease fingerprint))
claim_row now lease fingerprint (some r) =
    if reclaimable now r then (true, some (pending_row now lease fingerprint)) else (false, some r)

unfoldable pub claim_idempotency_key : ℕ → ℕ → String → Option String → Keys → Bool × Keys
claim_idempotency_key now lease key fingerprint t =
    let c = claim_row now lease fingerprint (t key) in (c.0, put key c.1 t)

unfoldable pub is_deterministic_outcome : ℕ → Bool
is_deterministic_outcome code =
    if leb 200 code && ltb code 300
    then true
    else if leb 400 code && ltb code 500
    then not ((code == 408) || ((code == 409) || ((code == 423) || (code == 429))))
    else false

-- `UPDATE ... SET status_code, response, status = 'complete' WHERE key = ?`
abbrev completed : ℕ → String → Option IdempotencyRecord → Option IdempotencyRecord
completed code body none = none
completed code body (some r) = some (record {
  status_code = code;
  response = body;
  created_at = r.created_at;
  expires_at = r.expires_at;
  status = complete;
  request_fingerprint = r.request_fingerprint;
  locked_until = r.locked_until;
})

unfoldable pub update_idempotency_record : String → ℕ → String → Keys → Keys
update_idempotency_record key code body t =
    if is_deterministic_outcome code
    then put key (completed code body (t key)) t
    else put key (unless_pending (t key)) t

-- `INSERT ... ON CONFLICT(key) DO NOTHING`
abbrev saved : ℕ → ℕ → String → Option IdempotencyRecord → Option IdempotencyRecord
saved now code body (some r) = some r
saved now code body none = some (record {
  status_code = code;
  response = body;
  created_at = now;
  expires_at = now + idempotency_ttl_ms;
  status = complete;
  request_fingerprint = none;
  locked_until = none;
})

unfoldable pub save_idempotency_record : ℕ → String → ℕ → String → Keys → Keys
save_idempotency_record now key code body t = put key (saved now code body (t key)) t

-- The middleware.

abbrev pub fingerprint_conflicts : Option String → Option String → Bool
fingerprint_conflicts none stored = false
fingerprint_conflicts (some f) none = false
fingerprint_conflicts (some f) (some stored) = not (str_eq stored f)

-- A read of the table: `failed` is a read that throws.
pub data Read : Type 0 where
  failed : Read
  row : Option IdempotencyRecord → Read

-- What the middleware does with a request: it lets it through without protection, lets it through
-- as the owner of the key, answers with a stored response, answers 409, or waits for the owner.
pub data Decision : Type 0 where
  pass own conflict wait : Decision
  replay : ℕ → String → Decision

-- Step 1 of `handleIdempotency`; `none` goes on to the claim.
abbrev pub after_lookup : Option String → Read → Option Decision
after_lookup fingerprint failed = some pass
after_lookup fingerprint (row none) = none
after_lookup fingerprint (row (some r)) =
    if is_pending r.status
    then some wait
    else if fingerprint_conflicts fingerprint r.request_fingerprint
    then some conflict
    else some (replay r.status_code r.response)

-- Step 2, after the claim; `again` is the second read.
abbrev pub after_claim : Bool → Read → Decision
after_claim true again = own
after_claim false failed = pass
after_claim false (row none) = wait
after_claim false (row (some r)) =
    if is_pending r.status then wait else replay r.status_code r.response

abbrev decided : Option Decision → Decision × Keys → Keys → Decision × Keys
decided (some d) claimed t = (d, t)
decided none claimed t = claimed

-- `handleIdempotency` up to the handler's call, when no other request comes in between.
unfoldable pub handle_idempotency : ℕ → ℕ → String → Option String → Keys → Decision × Keys
handle_idempotency now lease key fingerprint t =
    let c = claim_idempotency_key now lease key fingerprint t in
    decided (after_lookup fingerprint (row (get_idempotency_record now key t)))
      (after_claim c.0 (row (get_idempotency_record now key c.1)), c.1) t

pub data Reply : Type 0 where
  in_progress key_conflict : Reply
  replayed : ℕ → String → Reply

abbrev pub after_wait : Option String → Read → Reply
after_wait fingerprint failed = in_progress
after_wait fingerprint (row none) = in_progress
after_wait fingerprint (row (some r)) =
    if is_pending r.status
    then in_progress
    else if fingerprint_conflicts fingerprint r.request_fingerprint
    then key_conflict
    else replayed r.status_code r.response

-- `waitForCompletion`: `in_time` tells whether the lock resolves before the timeout.
unfoldable pub wait_for_completion : Bool → Option String → Read → Reply
wait_for_completion in_time fingerprint read =
    if in_time then after_wait fingerprint read else in_progress
