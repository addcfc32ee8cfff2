-- ===== src/Breaker/Plain/Invariant.antt =====
-- The invariant of the plain breaker under every interleaving of its callers.
use scout_off_backend.Prelude.{ℕ, ◌≤◌, ◌<◌, Bool, ◌≢◌, Option, none, true, false, arith}
use scout_off_backend.Breaker.Plain.{
  CircuitState, closed, CircuitBreaker, init, get_state, admit, settle, reset,
}

-- Closed breakers are below the threshold; the others have reached it, and know since when.
abbrev StateFits : CircuitState → ℕ → Option ℕ → ℕ → Type 0
StateFits closed failures since threshold = failures < threshold
StateFits _ failures since threshold = (threshold ≤ failures) × (since ≢ none)

pub record IsCoherent (b : CircuitBreaker) : Type 0 where
  pub positive : 0 < b.failure_threshold
  pub fits : StateFits b.state b.failures b.last_opened_at b.failure_threshold

-- What a caller, or the event loop on its behalf, may do next.
pub data Step : CircuitBreaker → CircuitBreaker → Type 0 where
  query : (now : ℕ) (b : CircuitBreaker) → Step b (get_state now b)
  begin : (now : ℕ) (b : CircuitBreaker) → Step b (admit now b).0
  finish : (result : Bool) (now : ℕ) (b : CircuitBreaker) → Step b (settle result now b)
  clear : (b : CircuitBreaker) → Step b (reset b)

pub data Reach (b : CircuitBreaker) : CircuitBreaker → Type 0 where
  here : Reach b b
  next : {c d : CircuitBreaker} → Reach b c → Step c d → Reach b d

get_state-IsCoherent : (now : ℕ) (b : CircuitBreaker) → IsCoherent b → IsCoherent (get_state now b)
unfolding get_state
get_state-IsCoherent now b h = ground arith

admit-IsCoherent : (now : ℕ) (b : CircuitBreaker) → IsCoherent b → IsCoherent (admit now b).0
unfolding admit
admit-IsCoherent now b h = ground arith

settle-IsCoherent :
    (result : Bool) (now : ℕ) (b : CircuitBreaker) → IsCoherent b → IsCoherent (settle result now b)
unfolding settle
settle-IsCoherent true now b h = ground arith
settle-IsCoherent false now b h = ground arith

Step-IsCoherent : {c d : CircuitBreaker} → Step c d → IsCoherent c → IsCoherent d
unfolding reset
Step-IsCoherent (query now b) h = get_state-IsCoherent now b h
Step-IsCoherent (begin now b) h = admit-IsCoherent now b h
Step-IsCoherent (finish result now b) h = settle-IsCoherent result now b h
Step-IsCoherent (clear b) h = ground arith

-- Every breaker that is reached from a coherent one, by any interleaving of state queries, calls
-- that begin, calls that settle and resets, is coherent: closed with fewer failures than its
-- positive threshold, or open or half-open with at least that many and with an opening time.
pub Reach-IsCoherent : {b c : CircuitBreaker} → Reach b c → IsCoherent b → IsCoherent c
Reach-IsCoherent here h = h
Reach-IsCoherent (next r s) h = Step-IsCoherent s (Reach-IsCoherent r h)

pub init-IsCoherent : (threshold timeout : ℕ) → 0 < threshold → IsCoherent (init threshold timeout)
init-IsCoherent threshold timeout h = ground arith
