-- ===== src/Circuit/Endpoints.antt =====
-- sdk/circuit_breaker.go: perEndpointCircuitBreaker and noopCircuitBreaker. The map holds pointers,
-- so a call of a breaker's method is written back under its endpoint.
use birb_nest.Prelude.{
  ℕ, ◌≡◌, refl, Option, none, some, [], ◌∷◌, Text, text_eq, text_eq_refl, arith, if◌then◌else◌,
  Option-cases, inl, inr,
}
use birb_nest.Prelude.Maps.{Dict, lookup, insert, lookup-insert}
use birb_nest.Circuit.{
  CircuitState, closed, Config, Breaker, new_breaker, Outcome, ran, check_state_transition,
}
use birb_nest.Circuit

pub record Manager : Type 0 where
  pub breakers : Dict Breaker
  pub config : Config

unfoldable pub new_manager : Config → Manager
new_manager config = record { breakers = []; config = config }

created : ℕ → Text → Option Breaker → Manager → Breaker × Manager
created now endpoint (some cb) m = (cb, m)
created now endpoint none m =
    let cb = new_breaker now m.config in (cb, record m { breakers = insert endpoint cb m.breakers })

-- The part of getOrCreate under the write lock, with its second look at the map.
unfoldable pub create_locked : ℕ → Text → Manager → Breaker × Manager
unfolding created
create_locked now endpoint m = created now endpoint (lookup endpoint m.breakers) m

-- getOrCreate, with nobody between its two locks.
unfoldable pub get_or_create : ℕ → Text → Manager → Breaker × Manager
unfolding create_locked
get_or_create now endpoint m = elim (lookup endpoint m.breakers) [
  | some cb ↦ (cb, m)
  | none ↦ create_locked now endpoint m
]

put : Text → Breaker → Manager → Manager
put endpoint cb m = record m { breakers = insert endpoint cb m.breakers }

-- Execute for a caller alone, as for one breaker.
unfoldable pub execute_at : {E : Type 0} → Text → ℕ → ℕ → Option E → Manager → Outcome E × Manager
unfolding get_or_create put
execute_at endpoint now later err m =
    let (cb, m') = get_or_create now endpoint m in
    let (o, cb') = Circuit.execute now later err cb in (o, put endpoint cb' m')

unfoldable pub state_at : Text → ℕ → Manager → CircuitState × Manager
unfolding put
state_at endpoint now m = elim (lookup endpoint m.breakers) [
  | none ↦ (closed, m)
  | some cb ↦ let (s, cb') = Circuit.get_state now cb in (s, put endpoint cb' m)
]

unfoldable pub reset_at : Text → ℕ → Manager → Manager
unfolding put
reset_at endpoint now m = elim (lookup endpoint m.breakers) [
  | none ↦ m
  | some cb ↦ put endpoint (Circuit.reset now cb) m
]

reset_entries : ℕ → Dict Breaker → Dict Breaker
reset_entries now [] = []
reset_entries now ((e, cb) ∷ m) = (e, Circuit.reset now cb) ∷ reset_entries now m

unfoldable pub reset_all : ℕ → Manager → Manager
unfolding reset_entries
reset_all now m = record m { breakers = reset_entries now m.breakers }

-- noopCircuitBreaker
unfoldable pub noop_execute : {E : Type 0} → Option E → Outcome E
noop_execute err = ran err

unfoldable pub noop_state : CircuitState
noop_state = closed

-- The breaker that serves an endpoint: its own, or a new one.
abbrev pub serving : ℕ → Text → Manager → Breaker
serving now endpoint m = elim (lookup endpoint m.breakers) [
  | some cb ↦ cb
  | none ↦ new_breaker now m.config
]

-- Execute for an endpoint returns what the endpoint's own breaker returns, a new one if there is
-- none; that breaker's new state is stored, and every other endpoint keeps its breaker.
pub execute_at_lem :
    {E : Type 0} (endpoint j : Text) (now later : ℕ) (err : Option E) (m : Manager)
    → ((execute_at endpoint now later err m).0
        ≡ (Circuit.execute now later err (serving now endpoint m)).0)
      × (lookup j (execute_at endpoint now later err m).1.breakers ≡ (
          if text_eq endpoint j
          then some (Circuit.execute now later err (serving now endpoint m)).1
          else lookup j m.breakers))
unfolding execute_at
execute_at_lem endpoint j now later err m = elim (Option-cases (lookup endpoint m.breakers)) [
  | inl e ↦
      rw (e, execute_at, get_or_create, serving, create_locked)
        (rw (e, created) (refl, simp lookup-insert (ground arith)))
  | inr (cb, e) ↦
      rw (e, execute_at, get_or_create, serving) (refl, lookup-insert endpoint j _ m.breakers)
]

lookup-reset_entries :
    (now : ℕ) (j : Text) (m : Dict Breaker) (cb : Breaker)
    → lookup j (reset_entries now m) ≡ some cb
    → cb.state ≡ closed
unfolding lookup reset_entries Circuit.reset
lookup-reset_entries now j [] cb h = cc
lookup-reset_entries now j ((e, b) ∷ m) cb h = ground (arith, lookup-reset_entries now j m cb)

-- After ResetAll every endpoint reports the closed state, at any later time, whether it has a
-- breaker or not.
pub state_at-reset_all :
    (endpoint : Text) (now later : ℕ) (m : Manager)
    → (state_at endpoint later (reset_all now m)).0 ≡ closed
unfolding state_at reset_all Circuit.get_state
state_at-reset_all endpoint now later m =
    elim (Option-cases (lookup endpoint (reset_entries now m.breakers))) [
      | inl e ↦ rw (e, state_at)
      | inr (cb, e) ↦
          rw (e, state_at)
            (rw (lookup-reset_entries now endpoint m.breakers cb e, Circuit.check_state_transition))
    ]

-- Two callers that both missed the map get the same breaker, whoever takes the write lock first,
-- and the second leaves the map as the first made it.
pub create_locked_agree :
    (endpoint : Text) (first second : ℕ) (m : Manager)
    → create_locked second endpoint (create_locked first endpoint m).1
      ≡ create_locked first endpoint m
unfolding create_locked
create_locked_agree endpoint first second m = elim (Option-cases (lookup endpoint m.breakers)) [
  | inl e ↦ rw (e, created) (rw (lookup-insert endpoint endpoint, text_eq_refl endpoint))
  | inr (cb, e) ↦ rw (e, created) (rw e)
]
