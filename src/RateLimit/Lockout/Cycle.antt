-- ===== src/RateLimit/Lockout/Cycle.antt =====
-- A lockout from the failure that triggers it to its end.
use scout_off_backend.Prelude.{
  ℕ, ◌+◌, ◌≤◌, ◌≡◌, ◌≢◌, String, some, arith, eq_iff, eq_refl, if◌then◌else◌, true, leb, ltb,
}
use scout_off_backend.RateLimit.{Hits, get, bump, increment}
use scout_off_backend.RateLimit.Window.{get-increment, IsOver, increment-entry}
use scout_off_backend.RateLimit.Lockout.{
  Settings, fail_key, lock_key, compute_lockout_ms, retry_after_sec, record_auth_failure,
  enforce_auth_lockout, pass, auth_locked,
}
use scout_off_backend.RateLimit.Lockout.Keys.{lock_key-ne-fail_key}

-- The count of a failure at `now`, from the entry of the account's failure key.
abbrev pub failures_at : Settings → ℕ → String → Hits → ℕ
failures_at s now account hits = (bump now s.window_ms (get (fail_key account) hits)).count

-- What `record_auth_failure` leaves under the lock key.
pub get-record :
    (s : Settings) (now : ℕ) (account : String) (hits : Hits)
    → account ≢ ""
    → get (lock_key account) (record_auth_failure s now account hits).0 ≡ (
        if leb s.threshold (failures_at s now account hits)
        then some (
            bump now
              (compute_lockout_ms s (failures_at s now account hits))
              (get (lock_key account) hits))
        else get (lock_key account) hits)
unfolding record_auth_failure
get-record s now account hits h =
    let fail = fail_key account in
    let lock = lock_key account in
    let hits' = (increment now fail s.window_ms hits).0 in
    let count = failures_at s now account hits in
    ground (
      arith,
      eq_iff account "",
      eq_iff fail lock,
      eq_refl lock,
      lock_key-ne-fail_key account account,
      increment-entry now s.window_ms fail hits,
      get-increment now s.window_ms lock fail hits,
      get-increment now (compute_lockout_ms s count) lock lock hits',
    )

-- If a failure reaches the threshold while the account has no lock, or an expired one, then the
-- next request of the account is answered AUTH_LOCKED, with the seconds that are left rounded up,
-- until the failure's time plus the computed lockout, and passes from then on.
pub record_auth_failure-locks :
    (s : Settings) (now at : ℕ) (account : String) (hits : Hits)
    → account ≢ ""
    → s.threshold ≤ failures_at s now account hits
    → IsOver now (get (lock_key account) hits)
    → (enforce_auth_lockout true at (some account) (record_auth_failure s now account hits).0).1 ≡ (
        if ltb at (now + compute_lockout_ms s (failures_at s now account hits))
        then auth_locked
            (retry_after_sec (now + compute_lockout_ms s (failures_at s now account hits)) at)
        else pass)
unfolding enforce_auth_lockout bump
record_auth_failure-locks s now at account hits h t o = ground (
  arith,
  eq_iff account "",
  get-record s now account hits h,
  increment-entry at 1 (lock_key account) (record_auth_failure s now account hits).0,
)
