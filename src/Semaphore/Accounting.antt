-- ===== src/Semaphore/Accounting.antt =====
-- What every run of acquires and releases keeps.
use scout_off_backend.Prelude.{
  ℕ, ◌+◌, ◌≤◌, ◌<◌, ◌≡◌, ◌≢◌, refl, pos_part, neg_part, [], arith, ◌+ℤ◌, ◌-ℤ◌,
}
use scout_off_backend.Semaphore.{World, start, begin, finish}

pub record IsAccounted (max : ℕ) (w : World) : Type 0 where
  -- Each hand-over has cost a permit for good.
  pub balance : pos_part w.sem.permits + w.running + w.handed ≡ max + neg_part w.sem.permits
  pub bounded : w.running ≤ max
  -- Nobody waits while a permit is free.
  pub queued : w.sem.wait_queue ≢ [] → pos_part w.sem.permits ≡ 0

pub data Step : World → World → Type 0 where
  call : (caller : ℕ) (w : World) → Step w (begin caller w)
  leave : (w : World) → 0 < w.running → Step w (finish w)

pub data Reach (w : World) : World → Type 0 where
  here : Reach w w
  next : {u v : World} → Reach w u → Step u v → Reach w v

begin-IsAccounted :
    {max : ℕ} (caller : ℕ) (w : World) → IsAccounted max w → IsAccounted max (begin caller w)
unfolding begin ◌-ℤ◌
begin-IsAccounted {max} caller w h = ground arith

finish-IsAccounted :
    {max : ℕ} (w : World) → 0 < w.running → IsAccounted max w → IsAccounted max (finish w)
unfolding finish ◌-ℤ◌ ◌+ℤ◌
finish-IsAccounted {max} w r h = ground arith

pub Step-IsAccounted : {max : ℕ} {u v : World} → Step u v → IsAccounted max u → IsAccounted max v
Step-IsAccounted (call caller w) h = begin-IsAccounted caller w h
Step-IsAccounted (leave w r) h = finish-IsAccounted w r h

-- Whatever callers acquire and release, in any order: at most `max` of them hold a permit at once,
-- nobody waits while the counter is positive, and the counter plus the holders plus the releases
-- that passed a permit on to a waiter is `max`.
pub Reach-IsAccounted : {max : ℕ} {w : World} → Reach (start max) w → IsAccounted max w
Reach-IsAccounted {max} here = record {
  balance = omega arith;
  bounded = omega arith;
  queued = λ q. absurd (q refl);
}
Reach-IsAccounted (next r s) = Step-IsAccounted s (Reach-IsAccounted r)
