-- ===== src/Sdk/Tests.antt =====
-- The client SDK at concrete inputs.
use birb_nest.Prelude.{
  if◌then◌else◌, ◌==◌, ℕ, zero, suc, ◌≡◌, refl, ◌∙◌, ap, Bool, true, false, ◌⊎◌, inl, inr, none,
  some, [], ◌∷◌, ◌++◌, Text, lit, text_eq, arith, ◌+◌, leb,
}
use birb_nest.Prelude.Int.{pos, negsuc, positive}
use birb_nest.Cache.{Bytes}
use birb_nest.Errors.{nil, opaque, wrapping, is_retryable}
use birb_nest.Registry.Forms.{put_text, take_text, first_lem}
use birb_nest.Retry.{Strategy, constant, default_retry_budget}
use birb_nest.Retry.Tests.{whole}
use birb_nest.Circuit.{Breaker, new_breaker, default_config}
use birb_nest.Sdk.{CacheRequest, entry, Parsed, Wire, Request, response}
use birb_nest.Sdk.Transport.{Answer, execute_request, noop, perform_http_request}
use birb_nest.Sdk.Typed.{Typed, typed_value, typed_get_multiple}
use birb_nest.Sdk.Client.{
  string, to, Strings, serialize, Target, to_raw, deserialize, send, set_with_options, path_of, got,
  get_request,
}
use birb_nest.Sdk.Config.{Config, validate, checked, not_negative}
use birb_nest.Sdk.Bounds.{IsNatural, HasValue, HasThresholds, validate_done}
use birb_nest.Sdk.Setup.{chosen_strategy, natural, new_client}
use birb_nest.Sdk.Ending.{new_client_ends}
use birb_nest.Sdk.Misses.{Miss}
use birb_nest.Sdk.Envelope.{ReadsValue, got-set_with_options, set_misread}

parse_envelope : Bytes → Text ⊎ Parsed
parse_envelope (suc zero ∷ b) = inr (take_text b).0
parse_envelope _ = inl (lit "invalid character")

abbrev envelopes : Wire
unfolding parse_envelope
envelopes = record {
  marshal = λ r. inr (suc zero ∷ put_text r.value []);
  parse = λ w b. parse_envelope b;
  api_error = λ b. none;
  number = λ n. n ∷ [];
  resolve = λ p. lit "http://localhost:8080" ++ p;
}

same_body :
    (r : CacheRequest) (b : Bytes)
    → envelopes.marshal r ≡ inr b
    → b ≡ suc zero ∷ put_text r.value []
unfolding envelopes
same_body r b h = cc

envelopes-ReadsValue : ReadsValue envelopes (λ b. b)
unfolding envelopes parse_envelope
envelopes-ReadsValue r b h = (
  (λ e. ground (arith, same_body r b h)),
  ap parse_envelope (same_body r b h) ∙ rw (first_lem r.value []) refl,
)

abbrev js : Strings
js = record { is_json = λ s. false; quote = λ s. b'"' ∷ (s ++ b'"' ∷ []) }

abbrev text_target : Target Text
text_target = to_raw (λ b. b)

got-set_with_options_example :
    (body : Text ⊎ Bytes) × (set_with_options envelopes js
        (lit "k")
        (string (lit "v"))
        (some (pos 5))
        none
        (record { closed = false })
      ≡ send
          (record { method = lit "POST"; path = path_of (lit "k"); body = some body; want = entry })
          (λ a. a.0))
    × ((b : Bytes)
        → body ≡ inr b
        → got text_target
            (perform_http_request envelopes 3 (get_request (lit "k")) (response 200 b []))
          ≡ deserialize text_target (lit "\"v\""))
unfolding text_eq serialize
got-set_with_options_example =
    got-set_with_options envelopes js (λ b. b) envelopes-ReadsValue text_target 3 (lit "k") []
      (string (lit "v")) (some (pos 5)) none (lit "\"v\"") refl refl

set_misread_run :
    (r : Request) × (set_with_options envelopes js
        (lit "k")
        (string (lit "v"))
        none
        none
        (record { closed = false })
      ≡ send r (λ a. a.0))
    × ((perform_http_request envelopes 3 r (response 200 (lit "OK") [])).0
        ≡ wrapping (lit "failed to parse response") (opaque (lit "invalid character")))
    × (is_retryable (wrapping (lit "failed to parse response") (opaque (lit "invalid character")))
        ≡ false)
unfolding text_eq serialize envelopes
set_misread_run =
    set_misread envelopes js 3 (lit "k") [] (string (lit "v")) none none (lit "\"v\"") _ b'O'
      (lit "K") (lit "invalid character") refl refl refl refl

-- 2.0 is 20 here, and so on.
abbrev bare : Config ℕ Text Text
bare = record {
  base_url = lit "http://birb";
  timeout = negsuc 4;
  retry_config = record {
    max_retries = negsuc 0;
    initial_interval = pos 0;
    max_interval = pos 7;
    multiplier = 5;
  };
  transport_config = record {
    max_idle_conns = pos 0;
    max_conns_per_host = pos 0;
    idle_conn_timeout = pos 0;
  };
  headers = [];
  circuit_breaker_config = none;
  retry_strategy = none;
  observer = none;
  hedged_request_config = none;
  enable_per_endpoint_circuit_breaker = false;
}

abbrev at_most_one : ℕ → Bool
at_most_one n = leb n 10

validate_done_example :
    let v = validate at_most_one 20 (lit "quiet") bare in
    (v.0 ≡ nil)
    × (positive v.1.timeout ≡ true)
    × IsNatural v.1.retry_config.max_retries
    × (positive v.1.retry_config.initial_interval ≡ true)
    × (positive v.1.retry_config.max_interval ≡ true)
    × (at_most_one v.1.retry_config.multiplier ≡ false)
    × HasValue v.1.observer
    × HasThresholds v.1.circuit_breaker_config
    × (validate at_most_one 20 (lit "quiet") v.1 ≡ v)
unfolding text_eq
validate_done_example = validate_done at_most_one 20 (lit "quiet") bare refl refl

abbrev twice : Strategy ℕ
twice = constant (record { interval = 10; budget = default_retry_budget })

-- A Get of a key that is not there.
abbrev miss : ℕ → Miss whole envelopes
miss n = record {
  key = lit "k";
  at = n;
  until = n + 1;
  body = lit "Not Found";
  id = [];
  attempts = λ i. record {
    reply = response 404 (lit "Not Found") [];
    ctx_error = nil;
    wait_error = nil;
    time = n;
    draw = 0;
  };
  missing = refl;
}

abbrev fresh : Breaker
fresh = new_breaker 0 default_config

parse_url : Text → Text ⊎ (Text × Text)
parse_url s = inr (lit "http", s)

new_client_ends_example :
    (a : Answer) × (execute_request whole envelopes
        (chosen_strategy 0 none (checked at_most_one 20 (lit "quiet") bare))
        0
        (miss 1).attempts
        (natural (not_negative (negsuc 0)) + 1)
        (get_request (lit "k"))
      ≡ some a)
unfolding new_client text_eq parse_url
new_client_ends_example =
    new_client_ends whole envelopes parse_url at_most_one 20 0 (lit "quiet") 0 bare
      (record { closed = false }) noop _ 0 (miss 1).attempts (get_request (lit "k")) refl
      (omega arith) refl

-- Strings where only digits are JSON, and a type whose decoding wants a quotation mark first.
abbrev digits : Strings
digits = record { is_json = λ s. text_eq s (lit "123"); quote = λ s. b'"' ∷ (s ++ b'"' ∷ []) }

abbrev unquoted : Bytes → Text ⊎ Text
unquoted [] = inl (lit "unexpected end of JSON input")
unquoted (b ∷ bs) =
    if b == b'"' then inr bs else inl (lit "cannot unmarshal number into Go value of type string")

abbrev texts : Typed Text
texts = record { value_of = λ s. string s; target = to unquoted }

typed_text : typed_value digits texts (lit "k") (string (lit "abc")) ≡ inr (lit "abc\"")
unfolding typed_value text_eq
typed_text = refl

typed_digits :
    typed_get_multiple digits texts (lit "k" ∷ []) (inr ((lit "k", string (lit "123")) ∷ []))
    ≡ inl (
        wrapping (lit "failed to deserialize value for key k") (
          wrapping
            (lit "failed to deserialize value")
            (opaque (lit "cannot unmarshal number into Go value of type string"))))
unfolding typed_get_multiple text_eq
typed_digits = refl
