-- ===== src/RateLimit/Lockout/Resets.antt =====
-- What the store makes of a reset and of two probes at one time.
use scout_off_backend.Prelude.{ℕ, ◌+◌, ◌<◌, ◌≡◌, ◌≢◌, String, some, arith, eq_iff, eq_refl, true}
use scout_off_backend.RateLimit.{Hits, Entry, get, bump, increment}
use scout_off_backend.RateLimit.Window.{get-increment, get-increment_over, IsOver, increment-entry}
use scout_off_backend.RateLimit.Lockout.{
  Settings, fail_key, lock_key, reset_auth_failures, enforce_auth_lockout, pass, auth_locked,
}
use scout_off_backend.RateLimit.Lockout.Keys.{lock_key-ne-fail_key}
use scout_off_backend.RateLimit.Lockout.Cycle.{failures_at}

get-reset_fail :
    (now : ℕ) (account : String) (hits : Hits)
    → account ≢ ""
    → get (fail_key account) (reset_auth_failures now account hits)
      ≡ some (bump now 1 (get (fail_key account) hits))
unfolding reset_auth_failures
get-reset_fail now account hits h =
    let fail = fail_key account in
    let lock = lock_key account in
    let hits' = (increment now fail 1 hits).0 in
    ground (
      arith,
      eq_iff account "",
      eq_iff lock fail,
      eq_refl fail,
      lock_key-ne-fail_key account account,
      get-increment now 1 fail lock hits',
      get-increment now 1 fail fail hits,
    )

get-reset_lock :
    (now : ℕ) (account : String) (hits : Hits)
    → account ≢ ""
    → get (lock_key account) (reset_auth_failures now account hits)
      ≡ some (bump now 1 (get (lock_key account) hits))
unfolding reset_auth_failures
get-reset_lock now account hits h =
    let fail = fail_key account in
    let lock = lock_key account in
    let hits' = (increment now fail 1 hits).0 in
    ground (
      arith,
      eq_iff account "",
      eq_iff fail lock,
      eq_refl lock,
      lock_key-ne-fail_key account account,
      get-increment now 1 lock lock hits',
      get-increment now 1 lock fail hits,
    )

-- With the in-memory store a successful exchange does not clear the count of failures: if the
-- account has `e.count` failures in an open window, then the failure after the success, still in
-- that window, is counted as number `e.count + 2`.
pub failures_at-reset :
    (s : Settings) (now later : ℕ) (account : String) (hits : Hits) (e : Entry)
    → account ≢ ""
    → get (fail_key account) hits ≡ some e
    → now < e.reset_at
    → later < e.reset_at
    → failures_at s later account (reset_auth_failures now account hits) ≡ e.count + 2
unfolding bump
failures_at-reset s now later account hits e h g n l =
    ground (arith, get-reset_fail now account hits h)

-- Two requests in the same millisecond of an account that has no lock, or an expired one: the first
-- passes, and the second is answered AUTH_LOCKED with one second to wait, whatever its failures.
pub enforce_auth_lockout_twice :
    (at : ℕ) (account : String) (hits : Hits)
    → account ≢ ""
    → IsOver at (get (lock_key account) hits)
    → ((enforce_auth_lockout true at (some account) hits).1 ≡ pass)
      × ((enforce_auth_lockout true at
            (some account)
            (enforce_auth_lockout true at (some account) hits).0).1
          ≡ auth_locked 1)
unfolding enforce_auth_lockout bump
enforce_auth_lockout_twice at account hits h o =
    let lock = lock_key account in
    ground (
      arith,
      eq_iff account "",
      increment-entry at 1 lock hits,
      increment-entry at 1 lock (increment at lock 1 hits).0,
      get-increment_over at 1 lock hits o,
    )
