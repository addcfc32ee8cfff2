-- ===== src/RateLimit/Lockout.antt =====
-- The lockout of src/middleware/authFailureLockout.ts over the in-memory store, whose `increment`
-- never rejects: the `catch` clauses, which pass the request on, are not reached and not modelled.
-- The four settings that the module reads from the environment are a record.
pub mod Backoff
pub mod Keys
pub mod Cycle
pub mod Resets
use Prim.Native.String
use scout_off_backend.Prelude.{
  ℕ, ◌+◌, ◌-◌, ◌*◌, ◌/◌, ◌^◌, min, max, String, Bool, true, false, Option, none, some, ◌++◌, ltb,
  leb, ◌==◌, str_eq, if◌then◌else◌,
}
use scout_off_backend.RateLimit.{Hits, increment}

pub record Settings : Type 0 where
  pub threshold : ℕ
  pub base_ms : ℕ
  pub max_ms : ℕ
  pub window_ms : ℕ

abbrev pub defaults : Settings
defaults = record { threshold = 5; base_ms = 30000; max_ms = 900000; window_ms = 900000 }

abbrev pub fail_key : String → String
fail_key account = String.◌++◌ "auth:fail:" account

abbrev pub lock_key : String → String
lock_key account = String.◌++◌ "auth:locked:account:" account

-- `computeLockoutMs`; truncated subtraction is the source's `Math.max(0, …)`.
unfoldable pub compute_lockout_ms : Settings → ℕ → ℕ
compute_lockout_ms s failure_count = min (s.base_ms * 2 ^ (failure_count - s.threshold)) s.max_ms

pub data LockState : Type 0 where
  unlocked : LockState
  locked : ℕ → LockState

-- `Math.max(1, Math.ceil((resetAt - now) / 1000))`
abbrev pub retry_after_sec : ℕ → ℕ → ℕ
retry_after_sec reset_at now = max 1 ((reset_at - now + 999) / 1000)

unfoldable pub is_account_locked : ℕ → String → Hits → Hits × LockState
is_account_locked now account hits =
    if str_eq account ""
    then (hits, unlocked)
    else let (hits', e) = increment now (lock_key account) 1 hits in
      (hits', (if ltb 1 e.count then locked (retry_after_sec e.reset_at now) else unlocked))

-- The `auth_lockout` row of the audit log: the account, the count and the lockout.
pub record Audit : Type 0 where
  pub account : String
  pub failure_count : ℕ
  pub lockout_ms : ℕ

unfoldable pub record_auth_failure : Settings → ℕ → String → Hits → Hits × Option Audit
unfolding compute_lockout_ms
record_auth_failure s now account hits =
    if str_eq account ""
    then (hits, none)
    else let (hits', e) = increment now (fail_key account) s.window_ms hits in
      let lockout_ms = compute_lockout_ms s e.count in
      if leb s.threshold e.count
      then (
        (increment now (lock_key account) lockout_ms hits').0,
        (if e.count == s.threshold
            then some
                (record { account = account; failure_count = e.count; lockout_ms = lockout_ms })
            else none),
      )
      else (hits', none)

unfoldable pub reset_auth_failures : ℕ → String → Hits → Hits
reset_auth_failures now account hits =
    if str_eq account ""
    then hits
    else (increment now (lock_key account) 1 (increment now (fail_key account) 1 hits).0).0

pub data Reply : Type 0 where
  pass : Reply
  auth_locked : ℕ → Reply

-- `enforceAuthLockout`: the account is what `extractAccount` found in the body, if anything.
unfoldable pub enforce_auth_lockout : Bool → ℕ → Option String → Hits → Hits × Reply
unfolding is_account_locked
enforce_auth_lockout false now account hits = (hits, pass)
enforce_auth_lockout true now none hits = (hits, pass)
enforce_auth_lockout true now (some account) hits =
    let (hits', state) = is_account_locked now account hits in
    (hits', elim state [ unlocked ↦ pass | locked sec ↦ auth_locked sec ])
