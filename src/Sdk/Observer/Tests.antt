-- ===== src/Sdk/Observer/Tests.antt =====
-- The observers at concrete events.
use birb_nest.Prelude.{◌+◌, ◌≡◌, true, none, some, List, [], ◌∷◌, Text, lit}
use birb_nest.Prelude.Maps.{lookup}
use birb_nest.Circuit.{Breaker, new_breaker, default_config, get_state}
use birb_nest.Sdk.Observer.{
  Event, request_start, request_end, cache_hit, new_metrics_collector, count_at, new_observed,
}
use birb_nest.Sdk.Observer.Tally.{
  observe_all, occurrences, starts, fails, retries, changes, hits, misses, observe_all-counts,
}
use birb_nest.Sdk.Observer.Chain.{Call, IsTracked, executed, reports-IsTracked}

abbrev events : List Event
events =
    request_start (lit "GET") (lit "/health")
    ∷ request_end (lit "GET") (lit "/health") 5 true
    ∷ cache_hit (lit "k")
    ∷ []

observe_all-counts_example :
    let after = observe_all events new_metrics_collector in
    (count_at (lookup (lit "GET /health") after.request_count)
      ≡ occurrences (starts (lit "GET /health")) events
        + count_at (lookup (lit "GET /health") new_metrics_collector.request_count))
    × (count_at (lookup (lit "GET /health") after.error_count)
        ≡ occurrences (fails (lit "GET /health")) events
          + count_at (lookup (lit "GET /health") new_metrics_collector.error_count))
    × (count_at (lookup (lit "GET /health") after.retry_count)
        ≡ occurrences (retries (lit "GET /health")) events
          + count_at (lookup (lit "GET /health") new_metrics_collector.retry_count))
    × (count_at (lookup (lit "GET /health") after.circuit_state_changes)
        ≡ occurrences (changes (lit "GET /health")) events
          + count_at (lookup (lit "GET /health") new_metrics_collector.circuit_state_changes))
    × (after.cache_hit_count ≡ occurrences hits events + new_metrics_collector.cache_hit_count)
    × (after.cache_miss_count ≡ occurrences misses events + new_metrics_collector.cache_miss_count)
observe_all-counts_example = observe_all-counts events new_metrics_collector (lit "GET /health")

abbrev fresh : Breaker
fresh = new_breaker 0 default_config

abbrev calls : List (Call Text)
calls =
    record { at = 1; until = 2; after = 2; error = some (lit "down") }
    ∷ record { at = 3; until = 4; after = 4; error = none }
    ∷ []

reports-IsTracked_example :
    IsTracked (get_state 0 fresh).0 (executed calls (new_observed 0 fresh (lit "default")))
reports-IsTracked_example = reports-IsTracked 0 fresh (lit "default") calls
