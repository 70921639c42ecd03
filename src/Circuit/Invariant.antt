-- ===== src/Circuit/Invariant.antt =====
-- What holds of a breaker however its callers interleave. Execute takes the lock twice, so other
-- calls may run between the admission of a request and the record of its result.
use birb_nest.Prelude.{ℕ, suc, ◌+◌, ◌≤◌, ◌-◌, ◌⊎◌, ◌≡◌, Bool, arith}
use birb_nest.Circuit.{
  closed, half_open, Config, Breaker, new_breaker, check_state_transition, admitted, refused,
  Refusal, admit, record_result, get_state, reset,
}

-- Each counter stays below its threshold (at 0 for a threshold of 0), and counts only in its state.
pub record HasCounters (cb : Breaker) : Type 0 where
  pub failures_bound : cb.failures ≤ cb.failure_threshold - 1
  pub successes_bound : cb.successes ≤ cb.success_threshold - 1
  pub half_open_bound : cb.half_open_requests ≤ cb.half_open_limit
  pub failures_closed : (cb.state ≡ closed) ⊎ (cb.failures ≡ 0)
  pub half_open_only : (cb.state ≡ half_open) ⊎ ((cb.successes ≡ 0) × (cb.half_open_requests ≡ 0))

-- A breaker and the number of requests whose function is running.
pub record System : Type 0 where
  pub breaker : Breaker
  pub running : ℕ
  pub now : ℕ

pub record IsValid (s : System) : Type 0 where
  pub counters : HasCounters s.breaker
  pub failure_past : s.breaker.last_failure_time ≤ s.now
  pub change_past : s.breaker.last_state_change ≤ s.now

-- One call under the lock, or the clock.
pub data Step : System → System → Type 0 where
  tick : (s : System) (d : ℕ) → Step s (record s { now = s.now + d })
  start :
      (s : System)
      → (admit s.now s.breaker).0 ≡ admitted
      → Step s (record s { breaker = (admit s.now s.breaker).1; running = s.running + 1 })
  turn_away :
      (s : System) (r : Refusal)
      → (admit s.now s.breaker).0 ≡ refused r
      → Step s (record s { breaker = (admit s.now s.breaker).1 })
  finish :
      (s : System) (failed : Bool) (n : ℕ)
      → s.running ≡ suc n
      → Step s (record s { breaker = record_result s.now failed s.breaker; running = n })
  ask : (s : System) → Step s (record s { breaker = (get_state s.now s.breaker).1 })
  force : (s : System) → Step s (record s { breaker = reset s.now s.breaker })

pub data Reach (s : System) : System → Type 0 where
  here : Reach s s
  next : {t u : System} → Reach s t → Step t u → Reach s u

check-HasCounters :
    (now : ℕ) (cb : Breaker) → HasCounters cb → HasCounters (check_state_transition now cb)
unfolding check_state_transition
check-HasCounters now cb c = ground arith

admit-HasCounters : (now : ℕ) (cb : Breaker) → HasCounters cb → HasCounters (admit now cb).1
unfolding admit
admit-HasCounters now cb c = ground arith

record-HasCounters :
    (now : ℕ) (failed : Bool) (cb : Breaker)
    → HasCounters cb
    → HasCounters (record_result now failed cb)
unfolding record_result
record-HasCounters now failed cb c = ground arith

admit_times :
    (now : ℕ) (cb : Breaker)
    → cb.last_failure_time ≤ now
    → cb.last_state_change ≤ now
    → ((admit now cb).1.last_failure_time ≤ now) × ((admit now cb).1.last_state_change ≤ now)
unfolding admit
admit_times now cb f c = ground arith

check_times :
    (now : ℕ) (cb : Breaker)
    → cb.last_failure_time ≤ now
    → cb.last_state_change ≤ now
    → ((check_state_transition now cb).last_failure_time ≤ now)
      × ((check_state_transition now cb).last_state_change ≤ now)
unfolding check_state_transition
check_times now cb f c = ground arith

record_times :
    (now : ℕ) (failed : Bool) (cb : Breaker)
    → cb.last_failure_time ≤ now
    → cb.last_state_change ≤ now
    → ((record_result now failed cb).last_failure_time ≤ now)
      × ((record_result now failed cb).last_state_change ≤ now)
unfolding record_result
record_times now failed cb f c = ground arith

Step-IsValid : {s t : System} → Step s t → IsValid s → IsValid t
unfolding get_state reset
Step-IsValid (tick s d) v = record {
  counters = v.counters;
  failure_past = omega arith;
  change_past = omega arith;
}
Step-IsValid (start s e) v =
    let t = admit_times s.now s.breaker v.failure_past v.change_past in
    record {
      counters = admit-HasCounters s.now s.breaker v.counters;
      failure_past = t.0;
      change_past = t.1;
    }
Step-IsValid (turn_away s r e) v =
    let t = admit_times s.now s.breaker v.failure_past v.change_past in
    record {
      counters = admit-HasCounters s.now s.breaker v.counters;
      failure_past = t.0;
      change_past = t.1;
    }
Step-IsValid (finish s failed n e) v =
    let t = record_times s.now failed s.breaker v.failure_past v.change_past in
    record {
      counters = record-HasCounters s.now failed s.breaker v.counters;
      failure_past = t.0;
      change_past = t.1;
    }
Step-IsValid (ask s) v =
    let t = check_times s.now s.breaker v.failure_past v.change_past in
    record {
      counters = check-HasCounters s.now s.breaker v.counters;
      failure_past = t.0;
      change_past = t.1;
    }
Step-IsValid (force s) v = record {
  counters = ground arith;
  failure_past = v.failure_past;
  change_past = omega arith;
}

-- A new breaker, at the time of its making and with no request.
abbrev pub fresh : ℕ → Config → System
fresh now config = record { breaker = new_breaker now config; running = 0; now = now }

-- In every state that interleaved calls of Execute, State and Reset can reach from a new breaker,
-- each counter lies below its threshold, counts only in the state that it belongs to, and no time
-- recorded lies in the future.
pub Reach-IsValid :
    (now : ℕ) (config : Config) {s : System} → Reach (fresh now config) s → IsValid s
unfolding new_breaker
Reach-IsValid now config here = ground arith
Reach-IsValid now config (next r st) = Step-IsValid st (Reach-IsValid now config r)
