-- ===== src/Circuit/Diagram.antt =====
-- The state diagram in the comment of CircuitState, as what each call may do.
use birb_nest.Prelude.{ℕ, ◌+◌, ◌≤◌, ◌⊎◌, ◌≡◌, true, false, Bool}
use birb_nest.Circuit.{closed, opened, half_open, Breaker}
use birb_nest.Circuit.Invariant.{System, Step, force}

-- What a call at `now` may do to the state, with what held before the call and holds after it.
abbrev pub Stays : Breaker → Breaker → Type 0
Stays a b = b.state ≡ a.state

abbrev pub Trips : ℕ → Breaker → Breaker → Type 0
Trips now a b =
    (a.state ≡ closed)
    × (b.state ≡ opened)
    × (a.failure_threshold ≤ a.failures + 1)
    × (b.last_failure_time ≡ now)

abbrev pub Probes : ℕ → Breaker → Breaker → Type 0
Probes now a b =
    (a.state ≡ opened)
    × (b.state ≡ half_open)
    × (a.last_failure_time + a.timeout ≤ now)
    × (b.successes ≡ 0)

abbrev pub Recovers : Breaker → Breaker → Type 0
Recovers a b =
    (a.state ≡ half_open)
    × (b.state ≡ closed)
    × (a.success_threshold ≤ a.successes + 1)
    × (b.failures ≡ 0)

abbrev pub Relapses : ℕ → Breaker → Breaker → Type 0
Relapses now a b = (a.state ≡ half_open) × (b.state ≡ opened) × (b.last_failure_time ≡ now)

abbrev pub Forced : ℕ → Breaker → Breaker → Type 0
Forced now a b =
    (b.state ≡ closed)
    × (b.failures ≡ 0)
    × (b.successes ≡ 0)
    × (b.half_open_requests ≡ 0)
    × (b.last_state_change ≡ now)

abbrev pub is_reset : {s t : System} → Step s t → Bool
is_reset (force s) = true
is_reset _ = false

-- Reset closes the breaker, and any other call does one of five things.
abbrev pub Edge : Bool → ℕ → Breaker → Breaker → Type 0
Edge true now a b = Forced now a b
Edge false now a b = Stays a b ⊎ Trips now a b ⊎ Probes now a b ⊎ Recovers a b ⊎ Relapses now a b
