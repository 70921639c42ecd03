-- ===== src/Sdk/Observer/Chain.antt =====
-- What an observed circuit breaker reports.
use birb_nest.Prelude.{
  ℕ, ◌≡◌, refl, sym, ◌∙◌, true, false, Option, List, [], ◌∷◌, ◌++◌, Text, Bool-cases, inl, inr,
  arith,
}
use birb_nest.Circuit.{CircuitState, closed, opened, half_open, state_eq, Breaker, get_state}
use birb_nest.Sdk.Observer.{
  Event, request_start, request_end, retry_attempt, state_change, cache_hit, cache_miss, Observed,
  new_observed, report, observed_execute,
}

-- The reports lead from one state to another, each from where the one before it ended.
abbrev pub Linked : CircuitState → List Event → CircuitState → Type 0
Linked s [] t = s ≡ t
Linked s (state_change endpoint old new ∷ es) t =
    (s ≡ old) × (state_eq new old ≡ false) × Linked new es t
Linked s (_ ∷ es) t = ⊥

Linked-append :
    (s a b : CircuitState) (endpoint : Text) (es : List Event)
    → Linked s es a
    → state_eq b a ≡ false
    → Linked s (es ++ state_change endpoint a b ∷ []) b
Linked-append s a b endpoint [] l n = (l, n, refl)
Linked-append s a b endpoint (state_change ep old new ∷ es) l n =
    (l.0, l.1, Linked-append new a b endpoint es l.2 n)
Linked-append s a b endpoint (request_start method path ∷ es) l n = absurd l
Linked-append s a b endpoint (request_end method path d f ∷ es) l n = absurd l
Linked-append s a b endpoint (retry_attempt method path i d f ∷ es) l n = absurd l
Linked-append s a b endpoint (cache_hit k ∷ es) l n = absurd l
Linked-append s a b endpoint (cache_miss k ∷ es) l n = absurd l

state_eq_sound : (a b : CircuitState) → state_eq a b ≡ true → a ≡ b
unfolding state_eq
state_eq_sound closed closed h = refl
state_eq_sound opened opened h = refl
state_eq_sound half_open half_open h = refl
state_eq_sound closed opened h = ground arith
state_eq_sound closed half_open h = ground arith
state_eq_sound opened closed h = ground arith
state_eq_sound opened half_open h = ground arith
state_eq_sound half_open closed h = ground arith
state_eq_sound half_open opened h = ground arith

-- The last state reported is the breaker's, and the reports lead to it.
abbrev pub IsTracked : CircuitState → Observed → Type 0
IsTracked s o = (o.last_state ≡ o.cb.state) × Linked s o.reports o.last_state

report-IsTracked :
    (s new : CircuitState) (cb : Breaker) (o : Observed)
    → new ≡ cb.state
    → Linked s o.reports o.last_state
    → IsTracked s (report o.last_state new cb o)
unfolding report
report-IsTracked s new cb o e l = elim (Bool-cases (state_eq new o.last_state)) [
  | inl h ↦ rw h (sym (state_eq_sound new o.last_state h) ∙ e, l)
  | inr h ↦ rw h (e, Linked-append s o.last_state new o.endpoint o.reports l h)
]

-- A call of Execute: its times, and what the function returns.
pub record Call (E : Type 0) : Type 0 where
  pub at : ℕ
  pub until : ℕ
  pub after : ℕ
  pub error : Option E

module _ {E : Type 0} where
  unfoldable pub executed : List (Call E) → Observed → Observed
  executed [] o = o
  executed (c ∷ cs) o = executed cs (observed_execute c.at c.until c.after c.error o).1

  execute-IsTracked :
      (s : CircuitState) (c : Call E) (o : Observed)
      → IsTracked s o
      → IsTracked s (observed_execute c.at c.until c.after c.error o).1
  unfolding observed_execute get_state
  execute-IsTracked s c o v = report-IsTracked s _ _ o refl v.1

  executed-IsTracked :
      (s : CircuitState) (cs : List (Call E)) (o : Observed)
      → IsTracked s o
      → IsTracked s (executed cs o)
  unfolding executed
  executed-IsTracked s [] o v = v
  executed-IsTracked s (c ∷ cs) o v = executed-IsTracked s cs _ (execute-IsTracked s c o v)

  -- Whatever calls of Execute follow on the making of an observed breaker, its reports lead without
  -- a gap from the state at its making to the state that the breaker has after the last call, and
  -- each is of a change.
  pub reports-IsTracked :
      (now : ℕ) (cb : Breaker) (endpoint : Text) (cs : List (Call E))
      → IsTracked (get_state now cb).0 (executed cs (new_observed now cb endpoint))
  unfolding new_observed get_state
  reports-IsTracked now cb endpoint cs = executed-IsTracked _ cs _ (refl, refl)
