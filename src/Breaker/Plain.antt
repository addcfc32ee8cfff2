-- ===== src/Breaker/Plain.antt =====
-- `CircuitBreaker` of src/utils/circuitBreaker.ts. `Date.now()` is the argument `now`. `execute`
-- awaits the callback, and other calls run meanwhile, so it is two operations: `admit` up to the
-- callback, `settle` from its outcome on. The hook `onStateChange` is the list `changes` of the
-- transitions that were reported. The name, used in the error's text only, is left out.
pub mod Invariant
pub mod Opening
pub mod Probes
mod Examples
use scout_off_backend.Prelude.{
  ℕ, ◌+◌, Bool, true, false, ◌||◌, Option, none, some, List, [], ◌∷◌, ◌++◌, leb, if◌then◌else◌,
}

pub data CircuitState : Type 0 where
  closed opened half_open : CircuitState

pub record CircuitBreaker : Type 0 where
  pub state : CircuitState
  pub failures : ℕ
  pub last_opened_at : Option ℕ
  pub failure_threshold : ℕ
  pub reset_timeout_ms : ℕ
  pub changes : List (CircuitState × CircuitState)

abbrev pub init : ℕ → ℕ → CircuitBreaker
init failure_threshold reset_timeout_ms = record {
  state = closed;
  failures = 0;
  last_opened_at = none;
  failure_threshold = failure_threshold;
  reset_timeout_ms = reset_timeout_ms;
  changes = [];
}

-- `===` on states
abbrev pub same : CircuitState → CircuitState → Bool
same closed closed = true
same opened opened = true
same half_open half_open = true
same _ _ = false

-- `_transition`
unfoldable pub transition : CircuitState → CircuitBreaker → CircuitBreaker
transition to b =
    if same b.state to
    then b
    else record b { state = to; changes = b.changes ++ (b.state, to) ∷ [] }

-- the condition of `getState`; `now - lastOpenedAt >= resetTimeoutMs` over the integers
abbrev pub timed_out : ℕ → ℕ → Option ℕ → Bool
timed_out now reset none = false
timed_out now reset (some t) = leb (t + reset) now

-- `getState`, as the new breaker
unfoldable pub get_state : ℕ → CircuitBreaker → CircuitBreaker
unfolding transition
get_state now b =
    if same b.state opened
    then if timed_out now b.reset_timeout_ms b.last_opened_at then transition half_open b else b
    else b

-- `isOpen`
unfoldable pub is_open : ℕ → CircuitBreaker → Bool
unfolding get_state
is_open now b = same (get_state now b).state opened

unfoldable pub on_success : CircuitBreaker → CircuitBreaker
unfolding transition
on_success b = transition closed (record b { failures = 0; last_opened_at = none })

unfoldable pub on_failure : ℕ → CircuitBreaker → CircuitBreaker
unfolding transition
on_failure now b =
    let counted = record b { failures = b.failures + 1 } in
    if same b.state half_open || leb b.failure_threshold (b.failures + 1)
    then transition opened (record counted { last_opened_at = some now })
    else counted

-- `execute` up to the call of `fn`; false is the thrown `CircuitBreakerOpenError`.
unfoldable pub admit : ℕ → CircuitBreaker → CircuitBreaker × Bool
unfolding get_state
admit now b = let b' = get_state now b in (b', (if same b'.state opened then false else true))

-- `execute` once `fn` has settled: true is a fulfilled promise, false a rejected one.
unfoldable pub settle : Bool → ℕ → CircuitBreaker → CircuitBreaker
unfolding on_success on_failure
settle true now b = on_success b
settle false now b = on_failure now b

pub data Outcome : Type 0 where
  rejected : Outcome
  fulfilled failed : Outcome

-- A whole `execute` with nothing in between: the callback ends at `later`.
unfoldable pub execute : ℕ → ℕ → Bool → CircuitBreaker → CircuitBreaker × Outcome
unfolding admit settle
execute now later result b =
    let (b', admitted) = admit now b in
    if admitted
    then (settle result later b', (if result then fulfilled else failed))
    else (b', rejected)

unfoldable pub reset : CircuitBreaker → CircuitBreaker
reset b = record b { state = closed; failures = 0; last_opened_at = none }
