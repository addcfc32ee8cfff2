-- ===== src/Semaphore.antt =====
-- `Semaphore`, `Mutex` and `withConcurrencyLimit` of src/utils/concurrency.ts. A waiter is the
-- number of its caller; `permits` is an integer, since the source lets it fall below zero. Around
-- the semaphore stands a `World` that counts, for the proofs, the callers that hold a permit and
-- the releases that passed one on to a waiter.
pub mod Accounting
pub mod Starvation
pub mod Limit
mod Examples
use scout_off_backend.Prelude.{
  ℕ, ◌+◌, ◌-◌, ℤ, pos, ◌+ℤ◌, ◌-ℤ◌, ltb_ℤ, Bool, true, false, List, [], ◌∷◌, ◌++◌, Option, none,
  some, if◌then◌else◌,
}

pub record Semaphore : Type 0 where
  pub permits : ℤ
  pub wait_queue : List ℕ

abbrev pub new_semaphore : ℕ → Semaphore
new_semaphore max_concurrent = record { permits = pos max_concurrent; wait_queue = [] }

-- The promise of `acquire` has resolved (true) or waits in the queue (false).
unfoldable pub acquire : ℕ → Semaphore → Semaphore × Bool
acquire caller s =
    if ltb_ℤ (pos 0) s.permits
    then (record s { permits = s.permits -ℤ pos 1 }, true)
    else (record s { wait_queue = s.wait_queue ++ caller ∷ [] }, false)

-- `shift` takes the waiter that queued first, whose callback takes a permit and resolves.
abbrev pub release_to : List ℕ → Semaphore → Semaphore × Option ℕ
release_to [] s = (record s { permits = s.permits +ℤ pos 1 }, none)
release_to (next ∷ rest) s =
    (record s { permits = s.permits -ℤ pos 1; wait_queue = rest }, some next)

unfoldable pub release : Semaphore → Semaphore × Option ℕ
release s = release_to s.wait_queue s

abbrev pub new_mutex : Semaphore
new_mutex = new_semaphore 1

-- The function that `Mutex.lock` resolves to, with its flag `released`.
unfoldable pub unlock : Bool → Semaphore → Bool × Semaphore
unfolding release
unlock true s = (true, s)
unlock false s = (true, (release s).0)

pub record World : Type 0 where
  pub sem : Semaphore
  pub running : ℕ
  pub handed : ℕ

abbrev pub start : ℕ → World
start max = record { sem = new_semaphore max; running = 0; handed = 0 }

unfoldable pub begin : ℕ → World → World
unfolding acquire
begin caller w =
    let (sem, granted) = acquire caller w.sem in
    record w { sem = sem; running = (if granted then w.running + 1 else w.running) }

-- One holder releases; a waiter that gets the permit is running in its place.
abbrev pub pass_on : Option ℕ → World → World
pass_on none w = record w { running = w.running - 1 }
pass_on (some next) w = record w { handed = w.handed + 1 }

unfoldable pub finish : World → World
unfolding release
finish w = let (sem, woken) = release w.sem in pass_on woken (record w { sem = sem })
