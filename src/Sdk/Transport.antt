-- ===== src/Sdk/Transport.antt =====
-- sdk/native.go and parseAPIError of sdk/serializer.go: one HTTP request, under the retries and the
-- circuit breaker. The calls of the observer are left out: it only watches.
use birb_nest.Prelude.{
  ℕ, ◌-◌, ◌&&◌, ◌⊎◌, inl, inr, Option, none, some, [], ◌∷◌, ◌++◌, Text, lit, text_eq, leb, ltb,
  if◌then◌else◌,
}
use birb_nest.Cache.{Bytes}
use birb_nest.Errors.{
  ApiError, GoError, nil, network_error, wrapping, opaque, network, open_circuit, sentinel,
  circuit_open, enhanced, as_error, new_error, with_detail, with_context, text, api_to_error,
  is_nil,
}
use birb_nest.Retry.{Floats, Strategy, Trial}
use birb_nest.Retry
use birb_nest.Circuit.{Breaker, Outcome, rejected, ran, Refusal, half_open_limit_reached}
use birb_nest.Circuit
use birb_nest.Circuit.Endpoints.{Manager, execute_at, noop_execute}
use birb_nest.Sdk.Observer.{Observed, observed_execute}
use birb_nest.Sdk.{Want, nothing, Parsed, Wire, Request, Reply, unmade, broken, unread, response}

-- NetworkError.ToError
unfoldable pub network_to_error : ℕ → Text → Text → GoError
unfolding new_error with_detail
network_to_error now op e =
    let (i, w) =
      new_error now network (lit "network error during " ++ (op ++ (lit ": " ++ e)))
        (network_error op (opaque e)) in
    enhanced (with_detail (lit "operation") (text op) i) w

unfoldable pub parsed_error : ℕ → Bytes → Option ApiError → ApiError
parsed_error status body none = record {
  status_code = status;
  message = body;
  code = [];
  details = [];
}
parsed_error status body (some e) = record e { status_code = status }

-- parseAPIError
unfoldable pub parse_api_error : Wire → ℕ → Bytes → ApiError
unfolding parsed_error
parse_api_error wire status [] = record {
  status_code = status;
  message = lit "HTTP " ++ (wire.number status ++ lit " error");
  code = [];
  details = [];
}
parse_api_error wire status (b ∷ bs) = parsed_error status (b ∷ bs) (wire.api_error (b ∷ bs))

-- The context of the request, and its ID where the answer has one.
unfoldable pub with_request : Text → Text → Text → GoError → GoError
unfolding with_context
with_request url method id (enhanced i w) =
    let c = with_context (record { url = url; method = method; retry_count = 0 }) i in
    enhanced (if text_eq id [] then c else record c { request_id = id }) w
with_request url method id err = err

-- An error, and the Go variable that the answer is decoded into: none, if it is not written.
abbrev pub Answer : Type 0
Answer = GoError × Option Parsed

unfoldable pub decoded : Text ⊎ Parsed → Answer
decoded (inl e) = (wrapping (lit "failed to parse response") (opaque e), none)
decoded (inr p) = (nil, some p)

unfoldable pub success : Wire → Want → Bytes → Answer
unfolding decoded
success wire nothing body = (nil, none)
success wire want [] = (nil, none)
success wire want body = decoded (wire.parse want body)

unfoldable pub replied : Wire → ℕ → Request → Reply → Answer
unfolding network_to_error success parse_api_error with_request api_to_error
replied wire now r (unmade e) = (wrapping (lit "failed to create request") (opaque e), none)
replied wire now r (broken e) = (network_to_error now (r.method ++ (lit " " ++ r.path)) e, none)
replied wire now r (unread e) = (network_to_error now (lit "reading response") e, none)
replied wire now r (response status body id) =
    if leb 200 status && ltb status 300 then success wire r.want body else (
      with_request (wire.resolve r.path) r.method id
          (api_to_error now (parse_api_error wire status body)),
      none,
    )

unfoldable pub unmarshalled : Option (Text ⊎ Bytes) → Answer → Answer
unmarshalled (some (inl e)) a = (wrapping (lit "failed to marshal request body") (opaque e), none)
unmarshalled _ a = a

-- performHTTPRequest
unfoldable pub perform_http_request : Wire → ℕ → Request → Reply → Answer
unfolding unmarshalled replied
perform_http_request wire now r reply = unmarshalled r.body (replied wire now r reply)

-- What the surroundings give in one attempt.
pub record Attempt (F : Type 0) : Type 0 where
  pub reply : Reply
  pub ctx_error : GoError
  pub wait_error : GoError
  pub time : ℕ
  pub draw : F

-- The breaker that newHTTPTransport chooses.
pub data Breaking : Type 0 where
  single : Breaker → Breaking
  observed : Observed → Breaking
  per_endpoint : Manager → Breaking
  noop : Breaking

-- What Execute of the breaker returns.
unfoldable pub refusal_error : ℕ → Refusal → GoError
unfolding new_error
refusal_error now half_open_limit_reached = as_error (
    new_error now open_circuit (lit "circuit breaker half-open limit reached")
      (sentinel circuit_open))
refusal_error now Circuit.circuit_open =
    as_error (new_error now open_circuit (lit "circuit breaker is open") (sentinel circuit_open))

unfoldable pub outcome : ℕ → Outcome GoError → Answer → Answer
unfolding refusal_error
outcome now (rejected r) a = (refusal_error now r, none)
outcome now (ran e) a = a

unfoldable pub as_option : GoError → Option GoError
unfolding is_nil
as_option e = if is_nil e then none else some e

-- `after` is the time at which an observed breaker is asked for its state.
unfoldable pub guarded : ℕ → ℕ → ℕ → Request → Answer → Breaking → Answer × Breaking
unfolding outcome as_option
guarded now later after r a (observed ob) =
    let (o, ob') = observed_execute now later after (as_option a.0) ob in
    (outcome now o a, observed ob')
guarded now later after r a (single cb) =
    let (o, cb') = Circuit.execute now later (as_option a.0) cb in (outcome now o a, single cb')
guarded now later after r a (per_endpoint m) =
    let (o, m') = execute_at (r.method ++ (lit " " ++ r.path)) now later (as_option a.0) m in
    (outcome now o a, per_endpoint m')
guarded now later after r a noop = (outcome now (noop_execute (as_option a.0)) a, noop)

module _ (fl : Floats) (wire : Wire) where
  open fl use {Float}

  unfoldable pub trial : Request → Attempt Float → Trial Float
  trial r a = record {
    result = (perform_http_request wire a.time r a.reply).0;
    ctx_error = a.ctx_error;
    wait_error = a.wait_error;
    time = a.time;
    draw = a.draw;
  }

  -- What is decoded in the last of the attempts; the others fail.
  unfoldable pub last_answer : Request → (ℕ → Attempt Float) → GoError × ℕ → Answer
  last_answer r attempts (err, calls) =
      let a = attempts (calls - 1) in (err, (perform_http_request wire a.time r a.reply).1)

  -- executeRequest. `none`: the fuel is out.
  unfoldable pub execute_request :
      Strategy Float → ℕ → (ℕ → Attempt Float) → ℕ → Request → Option Answer
  unfolding trial last_answer
  execute_request s start attempts fuel r =
      elim (Retry.execute fl s start (λ n. trial r (attempts n)) fuel 0) [
        | none ↦ none
        | some e ↦ some (last_answer r attempts e)
      ]

  unfoldable pub answered :
      ℕ → ℕ → ℕ → Request → Breaking → Option Answer → Option (Answer × Breaking)
  unfolding guarded
  answered now later after r b none = none
  answered now later after r b (some a) = some (guarded now later after r a b)

  -- do: `now` is the time at which the breaker is asked, `later` that at which it is told.
  unfoldable pub do_request :
      Strategy Float
      → ℕ
      → ℕ
      → ℕ
      → (ℕ → Attempt Float)
      → ℕ
      → Request
      → Breaking
      → Option (Answer × Breaking)
  unfolding answered execute_request
  do_request s now later after attempts fuel r b =
      answered now later after r b (execute_request s now attempts fuel r)
