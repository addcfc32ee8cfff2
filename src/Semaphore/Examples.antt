-- ===== src/Semaphore/Examples.antt =====
-- Tests of the semaphore, and its theorems at concrete inputs.
use scout_off_backend.Prelude.{ℕ, ◌≡◌, refl, pos, false, [], ◌∷◌, arith, ◌+ℤ◌, ◌-ℤ◌}
use scout_off_backend.Semaphore.{World, start, begin, finish, new_mutex, unlock}
use scout_off_backend.Semaphore.Accounting.{
  IsAccounted, Reach, here, next, call, leave, Reach-IsAccounted,
}
use scout_off_backend.Semaphore.Starvation.{Reach-starves}
use scout_off_backend.Semaphore.Limit.{
  Batch, count, indices, fresh, launch_all, settle, Runs, Runs-settles_all,
}

-- A second unlock does nothing.
unlock_twice : unlock (unlock false new_mutex).0 (unlock false new_mutex).1 ≡ unlock false new_mutex
unfolding unlock ◌+ℤ◌
unlock_twice = refl

-- Caller 1 holds the mutex, caller 2 waits for it, and both unlock.
abbrev contended : World
contended = finish (finish (begin 2 (begin 1 (start 1))))

contended_run : Reach (start 1) contended
unfolding begin finish ◌+ℤ◌ ◌-ℤ◌
contended_run =
    next (next (next (next here (call 1 (start 1))) (call 2 _)) (leave _ (omega arith)))
      (leave _ (omega arith))

contended_permits : contended.sem.permits ≡ pos 0
unfolding begin finish ◌+ℤ◌ ◌-ℤ◌
contended_permits = refl

Reach-IsAccounted_example : IsAccounted 1 contended
Reach-IsAccounted_example = Reach-IsAccounted contended_run

-- Caller 3 can no longer get the mutex, although nobody holds it.
Reach-starves_example : (begin 3 contended).running ≡ 0
unfolding begin finish ◌+ℤ◌ ◌-ℤ◌
Reach-starves_example =
    Reach-starves contended_run refl (omega arith) (next here (call 3 contended))

abbrev doubled : ℕ → ℕ
doubled i = 2

abbrev launched : Batch ℕ
launched = launch_all (0 ∷ 1 ∷ 2 ∷ []) (fresh 2)

abbrev settled : Batch ℕ
settled = settle doubled 1 (settle doubled 2 (settle doubled 0 launched))

settled_run : Runs doubled launched settled
unfolding launch_all settle ◌+ℤ◌ ◌-ℤ◌
settled_run =
    Runs.next 1 (Runs.next 2 (Runs.next 0 Runs.here (omega arith)) (omega arith)) (omega arith)

Runs-settles_all_example : (count 1 (indices settled.results) ≡ 1) × (settled.sem.wait_queue ≡ [])
unfolding launch_all settle ◌+ℤ◌ ◌-ℤ◌
Runs-settles_all_example =
    Runs-settles_all doubled 2 (0 ∷ 1 ∷ 2 ∷ []) (omega arith) settled_run refl 1
