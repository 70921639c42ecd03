-- ===== src/Sdk/Observer/Tally.antt =====
-- The collector's counters against the events that it was told.
use birb_nest.Prelude.{
  ℕ, ◌+◌, ◌≡◌, Bool, true, false, ◌&&◌, inl, inr, List, [], ◌∷◌, Text, text_eq, text_eq_sound,
  if◌then◌else◌, arith, Bool-cases,
}
use birb_nest.Prelude.Maps.{Dict, lookup, lookup-insert}
use birb_nest.Sdk.Observer.{
  Event, request_start, request_end, retry_attempt, state_change, cache_hit, cache_miss,
  MetricsCollector, count_at, increment, endpoint_key, observe,
}

unfoldable pub observe_all : List Event → MetricsCollector → MetricsCollector
observe_all [] m = m
observe_all (e ∷ es) m = observe_all es (observe e m)

-- How many of the events are such.
abbrev pub occurrences : (Event → Bool) → List Event → ℕ
occurrences test [] = 0
occurrences test (e ∷ es) = (if test e then 1 else 0) + occurrences test es

abbrev pub starts : Text → Event → Bool
starts k (request_start method path) = text_eq (endpoint_key method path) k
starts k _ = false

abbrev pub fails : Text → Event → Bool
fails k (request_end method path duration failed) = failed && text_eq (endpoint_key method path) k
fails k _ = false

abbrev pub retries : Text → Event → Bool
retries k (retry_attempt method path attempt delay failed) = text_eq (endpoint_key method path) k
retries k _ = false

abbrev pub changes : Text → Event → Bool
changes k (state_change endpoint old new) = text_eq endpoint k
changes k _ = false

abbrev pub hits : Event → Bool
hits (cache_hit key) = true
hits _ = false

abbrev pub misses : Event → Bool
misses (cache_miss key) = true
misses _ = false

increment_lem :
    (k j : Text) (m : Dict ℕ)
    → count_at (lookup j (increment k m)) ≡ (if text_eq k j then 1 else 0) + count_at (lookup j m)
unfolding increment count_at
increment_lem k j m = elim (Bool-cases (text_eq k j)) [
  | inl e ↦
      rw (lookup-insert k j (count_at (lookup k m) + 1) m, e, text_eq_sound k j e) (omega arith)
  | inr e ↦ rw (lookup-insert k j (count_at (lookup k m) + 1) m, e) (omega arith)
]

-- A number that goes up by one at such events does so as often as they occur.
tallied :
    (f : MetricsCollector → ℕ) (test : Event → Bool)
    → ((e : Event) (m : MetricsCollector) → f (observe e m) ≡ (if test e then 1 else 0) + f m)
    → (es : List Event) (m : MetricsCollector) → f (observe_all es m) ≡ occurrences test es + f m
unfolding observe_all
tallied f test step [] m = omega arith
tallied f test step (e ∷ es) m =
    let ih = tallied f test step es (observe e m) in let one = step e m in omega arith

request_step :
    (k : Text) (e : Event) (m : MetricsCollector)
    → count_at (lookup k (observe e m).request_count)
      ≡ (if starts k e then 1 else 0) + count_at (lookup k m.request_count)
unfolding observe
request_step k (request_start method path) m =
    increment_lem (endpoint_key method path) k m.request_count
request_step k (request_end method path duration true) m = omega arith
request_step k (request_end method path duration false) m = omega arith
request_step k (retry_attempt method path attempt delay failed) m = omega arith
request_step k (state_change endpoint old new) m = omega arith
request_step k (cache_hit key) m = omega arith
request_step k (cache_miss key) m = omega arith

error_step :
    (k : Text) (e : Event) (m : MetricsCollector)
    → count_at (lookup k (observe e m).error_count)
      ≡ (if fails k e then 1 else 0) + count_at (lookup k m.error_count)
unfolding observe
error_step k (request_start method path) m = omega arith
error_step k (request_end method path duration true) m =
    increment_lem (endpoint_key method path) k m.error_count
error_step k (request_end method path duration false) m = omega arith
error_step k (retry_attempt method path attempt delay failed) m = omega arith
error_step k (state_change endpoint old new) m = omega arith
error_step k (cache_hit key) m = omega arith
error_step k (cache_miss key) m = omega arith

retry_step :
    (k : Text) (e : Event) (m : MetricsCollector)
    → count_at (lookup k (observe e m).retry_count)
      ≡ (if retries k e then 1 else 0) + count_at (lookup k m.retry_count)
unfolding observe
retry_step k (request_start method path) m = omega arith
retry_step k (request_end method path duration true) m = omega arith
retry_step k (request_end method path duration false) m = omega arith
retry_step k (retry_attempt method path attempt delay failed) m =
    increment_lem (endpoint_key method path) k m.retry_count
retry_step k (state_change endpoint old new) m = omega arith
retry_step k (cache_hit key) m = omega arith
retry_step k (cache_miss key) m = omega arith

change_step :
    (k : Text) (e : Event) (m : MetricsCollector)
    → count_at (lookup k (observe e m).circuit_state_changes)
      ≡ (if changes k e then 1 else 0) + count_at (lookup k m.circuit_state_changes)
unfolding observe
change_step k (request_start method path) m = omega arith
change_step k (request_end method path duration true) m = omega arith
change_step k (request_end method path duration false) m = omega arith
change_step k (retry_attempt method path attempt delay failed) m = omega arith
change_step k (state_change endpoint old new) m = increment_lem endpoint k m.circuit_state_changes
change_step k (cache_hit key) m = omega arith
change_step k (cache_miss key) m = omega arith

hit_step :
    (e : Event) (m : MetricsCollector)
    → (observe e m).cache_hit_count ≡ (if hits e then 1 else 0) + m.cache_hit_count
unfolding observe
hit_step (request_start method path) m = omega arith
hit_step (request_end method path duration true) m = omega arith
hit_step (request_end method path duration false) m = omega arith
hit_step (retry_attempt method path attempt delay failed) m = omega arith
hit_step (state_change endpoint old new) m = omega arith
hit_step (cache_hit key) m = omega arith
hit_step (cache_miss key) m = omega arith

miss_step :
    (e : Event) (m : MetricsCollector)
    → (observe e m).cache_miss_count ≡ (if misses e then 1 else 0) + m.cache_miss_count
unfolding observe
miss_step (request_start method path) m = omega arith
miss_step (request_end method path duration true) m = omega arith
miss_step (request_end method path duration false) m = omega arith
miss_step (retry_attempt method path attempt delay failed) m = omega arith
miss_step (state_change endpoint old new) m = omega arith
miss_step (cache_hit key) m = omega arith
miss_step (cache_miss key) m = omega arith

-- What a collector counts of an endpoint, a breaker and the cache is what it was told since.
pub observe_all-counts :
    (es : List Event) (m : MetricsCollector) (k : Text)
    → let after = observe_all es m in
      (count_at (lookup k after.request_count)
        ≡ occurrences (starts k) es + count_at (lookup k m.request_count))
      × (count_at (lookup k after.error_count)
          ≡ occurrences (fails k) es + count_at (lookup k m.error_count))
      × (count_at (lookup k after.retry_count)
          ≡ occurrences (retries k) es + count_at (lookup k m.retry_count))
      × (count_at (lookup k after.circuit_state_changes)
          ≡ occurrences (changes k) es + count_at (lookup k m.circuit_state_changes))
      × (after.cache_hit_count ≡ occurrences hits es + m.cache_hit_count)
      × (after.cache_miss_count ≡ occurrences misses es + m.cache_miss_count)
observe_all-counts es m k = (
  tallied (λ x. count_at (lookup k x.request_count)) (starts k) (request_step k) es m,
  tallied (λ x. count_at (lookup k x.error_count)) (fails k) (error_step k) es m,
  tallied (λ x. count_at (lookup k x.retry_count)) (retries k) (retry_step k) es m,
  tallied (λ x. count_at (lookup k x.circuit_state_changes)) (changes k) (change_step k) es m,
  tallied (λ x. x.cache_hit_count) hits hit_step es m,
  tallied (λ x. x.cache_miss_count) misses miss_step es m,
)
