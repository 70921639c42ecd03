-- ===== src/Sdk/Config.antt =====
-- sdk/config.go: the configuration, its defaults, the methods With* and Validate, and the executor's
-- strategy that newHTTPTransport of sdk/native.go makes of it. An int or a duration that may be
-- negative is a ℤ; a threshold of the circuit breaker that is negative acts as 0 does. float64 is a
-- parameter with the test x <= 1.
use birb_nest.Prelude.{
  ℕ, ◌*◌, Bool, true, false, Option, none, some, [], Text, lit, text_eq, if◌then◌else◌, ◌==◌,
}
use birb_nest.Prelude.Int.{ℤ, pos, negsuc, positive}
use birb_nest.Prelude.Maps.{Dict, insert}
use birb_nest.Errors.{GoError, nil, sentinel, invalid_config}
use birb_nest.Retry.{Strategy}
use birb_nest.Circuit

abbrev pub second : ℕ
second = 1_000_000_000

abbrev pub millisecond : ℕ
millisecond = 1_000_000

-- RetryConfig
pub record RetryConfig (F : Type 0) : Type 0 where
  pub max_retries : ℤ
  pub initial_interval : ℤ
  pub max_interval : ℤ
  pub multiplier : F

-- TransportConfig
pub record TransportConfig : Type 0 where
  pub max_idle_conns : ℤ
  pub max_conns_per_host : ℤ
  pub idle_conn_timeout : ℤ

-- Config; `O` is the type of observers but nil, `H` that of HedgedRequest.
pub record Config (F O H : Type 0) : Type 0 where
  pub base_url : Text
  pub timeout : ℤ
  pub retry_config : RetryConfig F
  pub transport_config : TransportConfig
  pub headers : Dict Text
  pub circuit_breaker_config : Option Circuit.Config
  pub retry_strategy : Option (Strategy F)
  pub observer : Option O
  pub hedged_request_config : Option H
  pub enable_per_endpoint_circuit_breaker : Bool

-- The value, or the default where it is not positive.
unfoldable pub or_default : ℕ → ℤ → ℤ
unfolding positive
or_default d n = if positive n then n else pos d

unfoldable pub or_some : ℕ → ℕ → ℕ
or_some d n = if n == 0 then d else n

unfoldable pub not_negative : ℤ → ℤ
not_negative (pos n) = pos n
not_negative (negsuc n) = pos 0

unfoldable pub checked_breaker : Option Circuit.Config → Option Circuit.Config
unfolding or_some
checked_breaker none = none
checked_breaker (some b) = some (record b {
  failure_threshold = or_some 5 b.failure_threshold;
  success_threshold = or_some 2 b.success_threshold;
  timeout = or_some (30 * second) b.timeout;
  half_open_limit = or_some 3 b.half_open_limit;
})

unfoldable pub or_quiet : {O : Type 0} → O → Option O → Option O
or_quiet quiet none = some quiet
or_quiet quiet (some o) = some o

module _ {F O H : Type 0} where
  unfoldable pub with_base_url : Text → Config F O H → Config F O H
  with_base_url url c = record c { base_url = url }

  unfoldable pub with_timeout : ℤ → Config F O H → Config F O H
  with_timeout timeout c = record c { timeout = timeout }

  unfoldable pub with_retries : ℤ → Config F O H → Config F O H
  with_retries n c = record c { retry_config = record c.retry_config { max_retries = n } }

  unfoldable pub with_header : Text → Text → Config F O H → Config F O H
  with_header key value c = record c { headers = insert key value c.headers }

  unfoldable pub with_circuit_breaker : Circuit.Config → Config F O H → Config F O H
  with_circuit_breaker config c = record c { circuit_breaker_config = some config }

  unfoldable pub with_retry_strategy : Strategy F → Config F O H → Config F O H
  with_retry_strategy s c = record c { retry_strategy = some s }

  unfoldable pub with_observer : Option O → Config F O H → Config F O H
  with_observer o c = record c { observer = o }

  unfoldable pub with_hedged_requests : H → Config F O H → Config F O H
  with_hedged_requests h c = record c { hedged_request_config = some h }

  unfoldable pub with_per_endpoint_circuit_breaker : Config F O H → Config F O H
  with_per_endpoint_circuit_breaker c = record c { enable_per_endpoint_circuit_breaker = true }

  unfoldable pub default_config : F → O → Config F O H
  default_config two quiet = record {
    base_url = lit "http://localhost:8080";
    timeout = pos (30 * second);
    retry_config = record {
      max_retries = pos 3;
      initial_interval = pos (100 * millisecond);
      max_interval = pos (5 * second);
      multiplier = two;
    };
    transport_config = record {
      max_idle_conns = pos 100;
      max_conns_per_host = pos 10;
      idle_conn_timeout = pos (90 * second);
    };
    headers = [];
    circuit_breaker_config = none;
    retry_strategy = none;
    observer = some quiet;
    hedged_request_config = none;
    enable_per_endpoint_circuit_breaker = false;
  }

  unfoldable pub checked : (F → Bool) → F → O → Config F O H → Config F O H
  unfolding or_default not_negative checked_breaker or_quiet
  checked le_one two quiet c = record c {
    timeout = or_default (30 * second) c.timeout;
    retry_config = record {
      max_retries = not_negative c.retry_config.max_retries;
      initial_interval = or_default (100 * millisecond) c.retry_config.initial_interval;
      max_interval = or_default (5 * second) c.retry_config.max_interval;
      multiplier = if le_one c.retry_config.multiplier then two else c.retry_config.multiplier;
    };
    observer = or_quiet quiet c.observer;
    circuit_breaker_config = checked_breaker c.circuit_breaker_config;
  }

  -- Validate, which sets what is missing: its error, and the configuration after it. `two` is 2.0,
  -- `quiet` the NoopObserver.
  unfoldable pub validate : (F → Bool) → F → O → Config F O H → GoError × Config F O H
  unfolding checked
  validate le_one two quiet c =
      if text_eq c.base_url []
      then (sentinel invalid_config, c)
      else (nil, checked le_one two quiet c)
