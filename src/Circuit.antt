-- ===== src/Circuit.antt =====
-- sdk/circuit_breaker.go: the circuit breaker, its per-endpoint manager and the no-op breaker.
-- Time is an argument of each call, in nanoseconds. The thresholds are `int` in the source; a
-- negative one acts as 0 does, so they are ℕ here, as is the timeout. The counters never pass the
-- thresholds (Circuit/Invariant), so no `int` overflows.
pub mod Invariant
pub mod Diagram
pub mod Opening
pub mod Recovery
pub mod Endpoints
pub mod Tests
use birb_nest.Prelude.{
  ℕ, ◌+◌, ◌*◌, ◌≡◌, refl, Bool, true, false, Option, none, some, List, [], ◌∷◌, leb, if◌then◌else◌,
}

-- CircuitState
pub data CircuitState : Type 0 where
  closed opened half_open : CircuitState

unfoldable pub state_eq : CircuitState → CircuitState → Bool
state_eq closed closed = true
state_eq opened opened = true
state_eq half_open half_open = true
state_eq _ _ = false

-- CircuitBreakerConfig
pub record Config : Type 0 where
  pub failure_threshold : ℕ
  pub success_threshold : ℕ
  pub timeout : ℕ
  pub half_open_limit : ℕ

abbrev pub second : ℕ
second = 1_000_000_000

abbrev pub default_config : Config
default_config = record {
  failure_threshold = 5;
  success_threshold = 2;
  timeout = 30 * second;
  half_open_limit = 3;
}

-- circuitBreaker
pub record Breaker : Type 0 where
  pub config : Config
  pub open config use *
  pub state : CircuitState
  pub failures : ℕ
  pub successes : ℕ
  pub half_open_requests : ℕ
  pub last_failure_time : ℕ
  pub last_state_change : ℕ

unfoldable pub new_breaker : ℕ → Config → Breaker
new_breaker now config = record {
  config = config;
  state = closed;
  failures = 0;
  successes = 0;
  half_open_requests = 0;
  last_failure_time = 0;
  last_state_change = now;
}

-- The switch of transitionTo: closing and opening reset all three counters.
reset_counters : CircuitState → Breaker → Breaker
reset_counters half_open cb = record cb { successes = 0; half_open_requests = 0 }
reset_counters _ cb = record cb { failures = 0; successes = 0; half_open_requests = 0 }

unfoldable pub transition_to : ℕ → CircuitState → Breaker → Breaker
unfolding state_eq reset_counters
transition_to now s cb =
    if state_eq cb.state s
    then cb
    else reset_counters s (record cb { state = s; last_state_change = now })

-- now.Sub(cb.lastFailureTime) >= cb.config.Timeout
abbrev pub timeout_over : ℕ → Breaker → Bool
timeout_over now cb = leb (cb.last_failure_time + cb.timeout) now

check_open : ℕ → CircuitState → Breaker → Breaker
unfolding transition_to
check_open now opened cb = if timeout_over now cb then transition_to now half_open cb else cb
check_open now _ cb = cb

unfoldable pub check_state_transition : ℕ → Breaker → Breaker
unfolding check_open
check_state_transition now cb = check_open now cb.state cb

-- The two messages under which Execute returns ErrCircuitOpen.
pub data Refusal : Type 0 where
  circuit_open half_open_limit_reached : Refusal

pub data Admission : Type 0 where
  admitted : Admission
  refused : Refusal → Admission

admit_in : CircuitState → Breaker → Admission × Breaker
admit_in closed cb = (admitted, cb)
admit_in opened cb = (refused circuit_open, cb)
admit_in half_open cb =
    if leb cb.half_open_limit cb.half_open_requests
    then (refused half_open_limit_reached, cb)
    else (admitted, record cb { half_open_requests = cb.half_open_requests + 1 })

-- Execute up to the call of the function: everything under the first lock.
unfoldable pub admit : ℕ → Breaker → Admission × Breaker
unfolding check_state_transition admit_in
admit now cb = let cb' = check_state_transition now cb in admit_in cb'.state cb'

success_in : ℕ → CircuitState → Breaker → Breaker
unfolding transition_to
success_in now closed cb = record cb { failures = 0 }
success_in now half_open cb =
    let cb' : Breaker = record cb { successes = cb.successes + 1 } in
    if leb cb'.success_threshold cb'.successes then transition_to now closed cb' else cb'
success_in now opened cb = cb

unfoldable pub on_success : ℕ → Breaker → Breaker
unfolding success_in
on_success now cb = success_in now cb.state cb

failure_in : ℕ → CircuitState → Breaker → Breaker
unfolding transition_to
failure_in now closed cb =
    let cb' : Breaker = record cb { failures = cb.failures + 1 } in
    if leb cb'.failure_threshold cb'.failures then transition_to now opened cb' else cb'
failure_in now half_open cb = transition_to now opened cb
failure_in now opened cb = cb

unfoldable pub on_failure : ℕ → Breaker → Breaker
unfolding failure_in
on_failure now cb = failure_in now cb.state (record cb { last_failure_time = now })

-- recordResult: the second lock of Execute. The error itself is not looked at.
unfoldable pub record_result : ℕ → Bool → Breaker → Breaker
unfolding on_success on_failure
record_result now failed cb = if failed then on_failure now cb else on_success now cb

-- What Execute returns: a refusal, or the error of the function (none: nil).
pub data Outcome (E : Type 0) : Type 0 where
  rejected : Refusal → Outcome E
  ran : Option E → Outcome E

abbrev pub is_some {ℓ} : {A : Type ℓ} → Option A → Bool
is_some none = false
is_some (some a) = true

module _ {E : Type 0} where
  -- Execute for a caller alone: `err` is what the function returns if it is called, at `later`.
  finish : ℕ → Option E → Admission → Breaker → Outcome E × Breaker
  unfolding record_result
  finish later err admitted cb = (ran err, record_result later (is_some err) cb)
  finish later err (refused r) cb = (rejected r, cb)

  unfoldable pub execute : ℕ → ℕ → Option E → Breaker → Outcome E × Breaker
  unfolding finish admit
  execute now later err cb = let (a, cb') = admit now cb in finish later err a cb'

-- State()
unfoldable pub get_state : ℕ → Breaker → CircuitState × Breaker
unfolding check_state_transition
get_state now cb = let cb' = check_state_transition now cb in (cb'.state, cb')

unfoldable pub reset : ℕ → Breaker → Breaker
reset now cb = record cb {
  state = closed;
  failures = 0;
  successes = 0;
  half_open_requests = 0;
  last_state_change = now;
}
