-- ===== src/Idempotency/Examples.antt =====
-- Tests of the middleware, and its theorems at concrete tables.
use scout_off_backend.Prelude.{◌≡◌, refl, true, false, none, some, [], ◌∷◌, arith}
use scout_off_backend.Idempotency.{
  IdempotencyRecord, pending, complete, Keys, get_idempotency_record, update_idempotency_record,
  is_deterministic_outcome, wait, replay, row, in_progress, handle_idempotency, wait_for_completion,
}
use scout_off_backend.Idempotency.Claims.{owners, owners-one}
use scout_off_backend.Idempotency.Replay.{handle_idempotency-replays}
use scout_off_backend.Idempotency.Stale.{handle_idempotency-expired}

abbrev no_keys : Keys
no_keys key = none

-- A row of a request that crashed, with its lease over at 35000.
abbrev crashed : IdempotencyRecord
crashed = record {
  status_code = 0;
  response = "";
  created_at = 0;
  expires_at = 86400000;
  status = pending;
  request_fingerprint = none;
  locked_until = some 35000;
}

abbrev stored : IdempotencyRecord
stored = record {
  status_code = 201;
  response = "{}";
  created_at = 0;
  expires_at = 86400000;
  status = complete;
  request_fingerprint = none;
  locked_until = some 35000;
}

abbrev one_key : IdempotencyRecord → Keys
one_key r key = some r

created-is_deterministic : is_deterministic_outcome 201 ≡ true
unfolding is_deterministic_outcome
created-is_deterministic = refl

busy-is_not : is_deterministic_outcome 429 ≡ false
unfolding is_deterministic_outcome
busy-is_not = refl

owners-one_example : owners 35000 "k" ((5, none) ∷ (6, some "f") ∷ (35005, none) ∷ []) no_keys ≡ 1
owners-one_example =
    owners-one 5 35000 "k" none ((6, some "f") ∷ (35005, none) ∷ []) no_keys refl
      (omega arith, (omega arith, tt))

handle_idempotency-replays_example :
    (handle_idempotency 900 35000 "k" (some "f") (
      update_idempotency_record "k" 201 "{}"
        (handle_idempotency 5 35000 "k" (some "f") no_keys).1)).0
    ≡ replay 201 "{}"
handle_idempotency-replays_example =
    handle_idempotency-replays 5 900 35000 "k" (some "f") 201 "{}" no_keys refl
      created-is_deterministic (omega arith)

handle_idempotency-expired_example :
    ((handle_idempotency 86400000 35000 "k" none (one_key stored)).0 ≡ wait)
    × ((handle_idempotency 86400000 35000 "k" none (one_key stored)).1 "k" ≡ some stored)
    × (wait_for_completion true none (row (get_idempotency_record 86400000 "k" (one_key stored)))
        ≡ in_progress)
handle_idempotency-expired_example =
    handle_idempotency-expired 86400000 35000 "k" none true (one_key stored) stored refl refl
      (omega arith)
