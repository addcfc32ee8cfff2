-- ===== src/Breaker/Plain/Probes.antt =====
-- How many calls a half-open breaker lets through.
use scout_off_backend.Prelude.{ℕ, ◌+◌, ◌≤◌, ◌≡◌, refl, Bool, true, some, List, [], ◌∷◌, map, arith}
use scout_off_backend.Breaker.Plain.{opened, half_open, CircuitBreaker, admit}

-- Calls that begin one after the other, none of them settled yet: which are let through.
unfoldable pub admit_run : List ℕ → CircuitBreaker → List Bool
admit_run [] b = []
admit_run (now ∷ times) b = (admit now b).1 ∷ admit_run times (admit now b).0

admit-half_open : (now : ℕ) (b : CircuitBreaker) → b.state ≡ half_open → admit now b ≡ (b, true)
unfolding admit
admit-half_open now b h = ground arith

admit_run-half_open :
    (times : List ℕ) (b : CircuitBreaker)
    → b.state ≡ half_open
    → admit_run times b ≡ map (λ now. true) times
unfolding admit_run
admit_run-half_open [] b h = refl
admit_run-half_open (now ∷ times) b h = rw (admit-half_open now b h, admit_run-half_open times b h)

admit-opened :
    (b : CircuitBreaker) (t now : ℕ)
    → b.state ≡ opened
    → b.last_opened_at ≡ some t
    → t + b.reset_timeout_ms ≤ now
    → ((admit now b).1 ≡ true) × ((admit now b).0.state ≡ half_open)
unfolding admit
admit-opened b t now s l h = ground arith

-- Once the reset timeout of an open breaker is over, every call that begins before the first of
-- them has settled is let through, however many they are.
pub admit_run-all :
    (b : CircuitBreaker) (t now : ℕ) (times : List ℕ)
    → b.state ≡ opened
    → b.last_opened_at ≡ some t
    → t + b.reset_timeout_ms ≤ now
    → admit_run (now ∷ times) b ≡ map (λ now. true) (now ∷ times)
unfolding admit_run
admit_run-all b t now times s l h =
    let (passed, half) = admit-opened b t now s l h in
    rw (passed, admit_run-half_open times (admit now b).0 half)
