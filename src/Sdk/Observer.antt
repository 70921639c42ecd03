-- ===== src/Sdk/Observer.antt =====
-- sdk/observer.go: what an observer is told, the metrics collector, the composite observer and the
-- circuit breaker that reports its changes. The collector's int64 counters are ℕ; each method runs
-- under its lock.
pub mod Tally
pub mod Shielding
pub mod Chain
pub mod Tests
use birb_nest.Prelude.{
  ℕ, zero, suc, ◌+◌, Bool, true, false, not, Option, none, some, List, [], ◌∷◌, ◌++◌, Text, lit,
  if◌then◌else◌, ltb,
}
use birb_nest.Prelude.Maps.{Dict, lookup, insert}
use birb_nest.Circuit.{CircuitState, state_eq, Breaker, Outcome}
use birb_nest.Circuit

-- The calls of the interface Observer; of an error, whether it is one.
pub data Event : Type 0 where
  request_start : Text → Text → Event
  request_end : Text → Text → ℕ → Bool → Event
  retry_attempt : Text → Text → ℕ → ℕ → Bool → Event
  state_change : Text → CircuitState → CircuitState → Event
  cache_hit cache_miss : Text → Event

pub record MetricsCollector : Type 0 where
  pub request_count : Dict ℕ
  pub latencies : Dict (List ℕ)
  pub error_count : Dict ℕ
  pub retry_count : Dict ℕ
  pub circuit_state_changes : Dict ℕ
  pub cache_hit_count : ℕ
  pub cache_miss_count : ℕ

unfoldable pub new_metrics_collector : MetricsCollector
new_metrics_collector = record {
  request_count = [];
  latencies = [];
  error_count = [];
  retry_count = [];
  circuit_state_changes = [];
  cache_hit_count = 0;
  cache_miss_count = 0;
}

-- m[key], with 0 or nil for a missing key.
unfoldable pub count_at : Option ℕ → ℕ
count_at none = 0
count_at (some n) = n

unfoldable pub items_at : Option (List ℕ) → List ℕ
items_at none = []
items_at (some xs) = xs

-- m[key]++
unfoldable pub increment : Text → Dict ℕ → Dict ℕ
unfolding count_at
increment k m = insert k (count_at (lookup k m) + 1) m

unfoldable pub append_at : Text → ℕ → Dict (List ℕ) → Dict (List ℕ)
unfolding items_at
append_at k d m = insert k (items_at (lookup k m) ++ d ∷ []) m

unfoldable pub endpoint_key : Text → Text → Text
endpoint_key method path = method ++ (lit " " ++ path)

-- The methods of the collector.
unfoldable pub observe : Event → MetricsCollector → MetricsCollector
unfolding increment append_at endpoint_key
observe (request_start method path) m = record m {
  request_count = increment (endpoint_key method path) m.request_count;
}
observe (request_end method path duration failed) m = record m {
  latencies = append_at (endpoint_key method path) duration m.latencies;
  error_count =
      if failed then increment (endpoint_key method path) m.error_count else m.error_count;
}
observe (retry_attempt method path attempt delay failed) m = record m {
  retry_count = increment (endpoint_key method path) m.retry_count;
}
observe (state_change endpoint old new) m = record m {
  circuit_state_changes = increment endpoint m.circuit_state_changes;
}
observe (cache_hit key) m = record m { cache_hit_count = m.cache_hit_count + 1 }
observe (cache_miss key) m = record m { cache_miss_count = m.cache_miss_count + 1 }

-- GetMetrics, by the names of its map; `ratio` is the division of float64.
pub record Report (F : Type 0) : Type 0 where
  pub counted : MetricsCollector
  pub cache_hit_rate : F

unfoldable pub get_metrics : {F : Type 0} → (ℕ → ℕ → F) → F → MetricsCollector → Report F
get_metrics ratio fzero m = record {
  counted = m;
  cache_hit_rate =
      let total = m.cache_hit_count + m.cache_miss_count in
      if ltb 0 total then ratio m.cache_hit_count total else fzero;
}

-- An observer: its state after an event, and whether the call panics.
abbrev pub Watcher : Type 0 → Type 0
Watcher S = Event → S → S × Bool

-- A call of each observer in turn: a panic that is not recovered ends the loop.
unfoldable pub tell_all : {S : Type 0} → Bool → Watcher S → Event → List S → List S × Bool
tell_all recovers watch e [] = ([], false)
tell_all recovers watch e (s ∷ ss) =
    let (s', panics) = watch e s in
    let (rest, later) = tell_all recovers watch e ss in
    if not recovers
    then (if panics then (s' ∷ ss, true) else (s' ∷ rest, later))
    else (s' ∷ rest, later)

-- CompositeObserver: two of its methods recover.
unfoldable pub recovers_in : Event → Bool
recovers_in (request_start method path) = true
recovers_in (request_end method path duration failed) = true
recovers_in _ = false

unfoldable pub composite : {S : Type 0} → Watcher S → Event → List S → List S × Bool
unfolding tell_all recovers_in
composite watch e ss = tell_all (recovers_in e) watch e ss

-- observedCircuitBreaker, with what it has reported.
pub record Observed : Type 0 where
  pub cb : Breaker
  pub endpoint : Text
  pub last_state : CircuitState
  pub reports : List Event

unfoldable pub new_observed : ℕ → Breaker → Text → Observed
new_observed now cb endpoint =
    let (s, cb') = Circuit.get_state now cb in
    record { cb = cb'; endpoint = endpoint; last_state = s; reports = [] }

unfoldable pub report : CircuitState → CircuitState → Breaker → Observed → Observed
report old new cb o = if state_eq new old then record o { cb = cb } else record o {
  cb = cb;
  last_state = new;
  reports = o.reports ++ state_change o.endpoint old new ∷ [];
}

-- Execute: `after` is the time at which the state is asked for.
unfoldable pub observed_execute :
    {E : Type 0} → ℕ → ℕ → ℕ → Option E → Observed → Outcome E × Observed
unfolding report
observed_execute now later after err o =
    let (out, cb) = Circuit.execute now later err o.cb in
    let (s, cb') = Circuit.get_state after cb in (out, report o.last_state s cb' o)

unfoldable pub observed_state : ℕ → Observed → CircuitState × Observed
observed_state now o = let (s, cb) = Circuit.get_state now o.cb in (s, record o { cb = cb })

unfoldable pub observed_reset : ℕ → Observed → Observed
unfolding report
observed_reset now o =
    let (old, cb) = Circuit.get_state now o.cb in
    let (new, cb') = Circuit.get_state now (Circuit.reset now cb) in report old new cb' o
