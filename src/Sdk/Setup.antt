-- ===== src/Sdk/Setup.antt =====
-- NewClient of sdk/client.go and newHTTPTransport of sdk/native.go: what a client is made of.
use birb_nest.Prelude.{
  ℕ, ◌+◌, if◌then◌else◌, ◌==◌, Bool, true, false, ◌||◌, ◌⊎◌, inl, inr, Option, none, some, [], Text,
  lit, text_eq,
}
use birb_nest.Prelude.Int.{ℤ, pos, negsuc}
use birb_nest.Errors.{GoError, nil, opaque, wrapping}
use birb_nest.Retry.{Strategy, exponential}
use birb_nest.Circuit.{new_breaker}
use birb_nest.Circuit
use birb_nest.Circuit.Endpoints.{new_manager}
use birb_nest.Sdk.Transport.{Breaking, single, observed, per_endpoint, noop}
use birb_nest.Sdk.Observer.{new_observed}
use birb_nest.Sdk.Client.{Client}
use birb_nest.Sdk.Config.{Config, default_config, validate}

-- A ℤ as a duration or a bound, where a negative one acts as 0 does.
unfoldable pub natural : ℤ → ℕ
natural (pos n) = n
natural (negsuc n) = 0

-- A Go int plus one; the largest wraps to a negative one.
unfoldable pub plus_one : ℤ → ℕ
plus_one (pos n) = if n + 1 == 9_223_372_036_854_775_808 then 0 else n + 1
plus_one (negsuc n) = 0

-- By whether there is an observer, which a breaker reports to.
unfoldable pub chosen_breaker :
    {O : Type 0} → ℕ → Bool → Option O → Option Circuit.Config → Breaking
chosen_breaker now each o none = noop
chosen_breaker now true o (some b) = per_endpoint (new_manager b)
chosen_breaker now false none (some b) = single (new_breaker now b)
chosen_breaker now false (some o) (some b) =
    observed (new_observed now (new_breaker now b) (lit "default"))

-- The guards on the base URL: it is empty, or cannot be parsed, or has no scheme or no host.
unfoldable pub hosted : {R : Type 0} → Bool → R → GoError ⊎ R
hosted true r = inl (opaque (lit "base URL must have a scheme and host"))
hosted false r = inr r

unfoldable pub based : {R : Type 0} → Bool → Text ⊎ (Text × Text) → R → GoError ⊎ R
unfolding hosted
based true url r = inl (opaque (lit "base URL cannot be empty"))
based false (inl e) r = inl (wrapping (lit "invalid base URL") (opaque e))
based false (inr (scheme, host)) r = hosted (text_eq scheme [] || text_eq host []) r

unfoldable pub made :
    {F : Type 0} → GoError ⊎ (Breaking × Strategy F) → GoError ⊎ (Client × Breaking × Strategy F)
made (inl e) = inl (wrapping (lit "failed to create transport") e)
made (inr (b, s)) = inr (record { closed = false }, b, s)

module _ {F O H : Type 0} where
  -- `jitter` is 0.3.
  unfoldable pub chosen_strategy : F → Option (Strategy F) → Config F O H → Strategy F
  unfolding natural plus_one
  chosen_strategy jitter (some s) c = s
  chosen_strategy jitter none c = exponential (record {
    initial_interval = natural c.retry_config.initial_interval;
    max_interval = natural c.retry_config.max_interval;
    multiplier = c.retry_config.multiplier;
    jitter = jitter;
    budget = record {
      max_attempts = plus_one c.retry_config.max_retries;
      max_duration = 0;
      retryable_errors = [];
    };
  })

  -- newHTTPTransport: its breaker and its strategy. `parsed` is url.Parse with the scheme and the
  -- host that it finds.
  unfoldable pub transport_of :
      (Text → Text ⊎ (Text × Text)) → F → ℕ → Config F O H → GoError ⊎ (Breaking × Strategy F)
  unfolding chosen_breaker chosen_strategy based
  transport_of parsed jitter now c = based (text_eq c.base_url []) (parsed c.base_url) (
    chosen_breaker now c.enable_per_endpoint_circuit_breaker c.observer c.circuit_breaker_config,
    chosen_strategy jitter c.retry_strategy c,
  )

  unfoldable pub validated :
      (Text → Text ⊎ (Text × Text))
      → F
      → ℕ
      → GoError × Config F O H
      → GoError ⊎ (Client × Breaking × Strategy F)
  unfolding made transport_of
  validated parsed jitter now (nil, c) = made (transport_of parsed jitter now c)
  validated parsed jitter now (err, c) = inl err

  -- A nil configuration is the default one.
  unfoldable pub given : F → O → Option (Config F O H) → Config F O H
  unfolding default_config
  given two quiet none = default_config two quiet
  given two quiet (some c) = c

  -- NewClient, and NewExtendedClient.
  unfoldable pub new_client :
      (Text → Text ⊎ (Text × Text))
      → (F → Bool)
      → F
      → F
      → O
      → ℕ
      → Option (Config F O H)
      → GoError ⊎ (Client × Breaking × Strategy F)
  unfolding given validated validate
  new_client parsed le_one two jitter quiet now c =
      validated parsed jitter now (validate le_one two quiet (given two quiet c))
