-- ===== src/Semaphore/Starvation.antt =====
-- The permits that hand-overs lose.
use scout_off_backend.Prelude.{
  ℕ, ◌≤◌, ◌≡◌, ℤ, pos, negsuc, pos_part, neg_part, ◌⊎◌, inl, inr, refl, arith,
}
use scout_off_backend.Semaphore.{World, start, begin}
use scout_off_backend.Semaphore.Accounting.{
  IsAccounted, Step, call, leave, Reach, here, next, Reach-IsAccounted,
}

parts_apart : (p : ℤ) → (pos_part p ≡ 0) ⊎ (neg_part p ≡ 0)
parts_apart (pos n) = inr refl
parts_apart (negsuc n) = inl refl

record IsStuck (w : World) : Type 0 where
  idle : w.running ≡ 0
  empty : pos_part w.sem.permits ≡ 0

Step-IsStuck : {u v : World} → Step u v → IsStuck u → IsStuck v
unfolding begin
Step-IsStuck (call caller w) h = ground arith
Step-IsStuck (leave w r) h = absurd (omega arith)

Reach-IsStuck : {u v : World} → Reach u v → IsStuck u → IsStuck v
Reach-IsStuck here h = h
Reach-IsStuck (next r s) h = Step-IsStuck s (Reach-IsStuck r h)

-- Once as many releases as there were permits have passed their permit on to a waiter, and all
-- holders have released, no caller ever gets a permit again: nobody is running in any later state.
pub Reach-starves :
    {max : ℕ} {w v : World}
    → Reach (start max) w
    → w.running ≡ 0
    → max ≤ w.handed
    → Reach w v
    → v.running ≡ 0
Reach-starves {max} {w} r idle spent later =
    let h = Reach-IsAccounted r in
    (Reach-IsStuck later (record { idle = idle; empty = empty h })).idle
  where
    empty : IsAccounted max w → pos_part w.sem.permits ≡ 0
    empty h = omega (arith, h.balance, parts_apart w.sem.permits)
