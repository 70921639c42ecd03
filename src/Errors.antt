-- ===== src/Errors.antt =====
-- sdk/errors.go: the errors of the client SDK and their classification. A Go `error` is a value of
-- `GoError`, with nil among them; the kinds of errors that other packages make are opaque texts, or
-- texts that wrap another error.
pub mod Classify
pub mod Chains
pub mod Tests
use birb_nest.Prelude.{
  ℕ, zero, suc, ◌+◌, ◌/◌, ◌%◌, Bool, true, false, ◌&&◌, ◌||◌, not, Option, none, some, List, [],
  ◌∷◌, ◌++◌, Text, lit, text_eq, leb, ltb, ◌==◌, if◌then◌else◌,
}
use birb_nest.Prelude.Maps.{Dict, insert}

-- The package's error values.
pub data Sentinel : Type 0 where
  invalid_config not_found timeout server_error invalid_response context_canceled : Sentinel
  circuit_open rate_limited retry_budget_exhausted : Sentinel

-- ErrorType
pub data ErrorType : Type 0 where
  unknown network timed_out server client open_circuit rate_limit validation retry_budget :
      ErrorType

-- A value of a detail: a text or a number.
pub data Detail : Type 0 where
  text : Text → Detail
  number : ℕ → Detail

-- ErrorContext, as far as the transport fills it in.
pub record RequestContext : Type 0 where
  pub url : Text
  pub method : Text
  pub retry_count : ℕ

-- The fields of Error but the wrapped error.
pub record Info : Type 0 where
  pub type : ErrorType
  pub code : Text
  pub message : Text
  pub details : Dict Detail
  pub request_id : Text
  pub timestamp : ℕ
  pub retryable : Bool
  pub context : Option RequestContext

-- APIError
pub record ApiError : Type 0 where
  pub status_code : ℕ
  pub message : Text
  pub code : Text
  pub details : Text

pub data GoError : Type 0 where
  nil : GoError
  sentinel : Sentinel → GoError
  enhanced : Info → GoError → GoError
  api : ApiError → GoError
  network_error : Text → GoError → GoError
  timeout_error : Text → GoError
  wrapping : Text → GoError → GoError
  opaque : Text → GoError

unfoldable pub sentinel_eq : Sentinel → Sentinel → Bool
sentinel_eq invalid_config invalid_config = true
sentinel_eq not_found not_found = true
sentinel_eq timeout timeout = true
sentinel_eq server_error server_error = true
sentinel_eq invalid_response invalid_response = true
sentinel_eq context_canceled context_canceled = true
sentinel_eq circuit_open circuit_open = true
sentinel_eq rate_limited rate_limited = true
sentinel_eq retry_budget_exhausted retry_budget_exhausted = true
sentinel_eq _ _ = false

unfoldable pub is_nil : GoError → Bool
is_nil nil = true
is_nil _ = false

-- The method Is of Error, at a target that is one of the package's error values.
type_is : ErrorType → Sentinel → Bool
unfolding sentinel_eq
type_is timed_out target = sentinel_eq target timeout
type_is server target = sentinel_eq target server_error
type_is open_circuit target = sentinel_eq target circuit_open
type_is rate_limit target = sentinel_eq target rate_limited
type_is retry_budget target = sentinel_eq target retry_budget_exhausted
type_is _ target = false

-- errors.Is(err, target): along the chain of wrapped errors, by identity or the method Is.
unfoldable pub is_error : GoError → Sentinel → Bool
unfolding sentinel_eq type_is
is_error nil target = false
is_error (sentinel s) target = sentinel_eq s target
is_error (enhanced i w) target = type_is i.type target || is_error w target
is_error (api a) target = false
is_error (network_error op e) target = is_error e target
is_error (timeout_error op) target = false
is_error (wrapping m e) target = is_error e target
is_error (opaque m) target = false

-- errors.As(err, &enhancedErr): the first Error of the chain, with what it wraps.
unfoldable pub as_enhanced : GoError → Option (Info × GoError)
as_enhanced (enhanced i w) = some (i, w)
as_enhanced (network_error op e) = as_enhanced e
as_enhanced (wrapping m e) = as_enhanced e
as_enhanced _ = none

-- errors.As(err, &apiErr)
unfoldable pub as_api : GoError → Option ApiError
as_api (api a) = some a
as_api (enhanced i w) = as_api w
as_api (network_error op e) = as_api e
as_api (wrapping m e) = as_api e
as_api _ = none

-- errors.As(err, &netErr) and errors.As(err, &timeoutErr) succeed.
unfoldable pub is_network : GoError → Bool
is_network (network_error op e) = true
is_network (enhanced i w) = is_network w
is_network (wrapping m e) = is_network e
is_network _ = false

unfoldable pub is_timeout : GoError → Bool
is_timeout (timeout_error op) = true
is_timeout (enhanced i w) = is_timeout w
is_timeout (network_error op e) = is_timeout e
is_timeout (wrapping m e) = is_timeout e
is_timeout _ = false

unfoldable pub is_retryable_type : ErrorType → Bool
is_retryable_type network = true
is_retryable_type timed_out = true
is_retryable_type server = true
is_retryable_type rate_limit = true
is_retryable_type _ = false

-- NewErrorWithCode; NewError is the case of an empty code.
unfoldable pub new_error_with_code : ℕ → ErrorType → Text → Text → GoError → Info × GoError
unfolding is_retryable_type
new_error_with_code now type code message wrapped = (
  record {
    type = type;
    code = code;
    message = message;
    details = [];
    request_id = [];
    timestamp = now;
    retryable = is_retryable_type type;
    context = none;
  },
  wrapped,
)

unfoldable pub new_error : ℕ → ErrorType → Text → GoError → Info × GoError
unfolding new_error_with_code
new_error now type message wrapped = new_error_with_code now type [] message wrapped

-- The methods WithDetail and WithContext.
unfoldable pub with_detail : Text → Detail → Info → Info
with_detail key value i = record i { details = insert key value i.details }

unfoldable pub with_context : RequestContext → Info → Info
with_context c i = record i { context = some c }

-- A pair of the fields and the wrapped error as an error.
abbrev pub as_error : Info × GoError → GoError
as_error (i, w) = enhanced i w

unfoldable pub api_is_not_found : ApiError → Bool
api_is_not_found e = e.status_code == 404 || text_eq e.code (lit "NOT_FOUND")

unfoldable pub is_server_error : ApiError → Bool
is_server_error e = leb 500 e.status_code

unfoldable pub is_client_error : ApiError → Bool
is_client_error e = leb 400 e.status_code && ltb e.status_code 500

unfoldable pub api_is_retryable : ApiError → Bool
unfolding is_server_error
api_is_retryable e =
    if is_server_error e
    then true
    else if e.status_code == 429
    then true
    else e.status_code == 408 || e.status_code == 504

unfoldable pub api_type : ApiError → ErrorType
unfolding is_server_error
api_type e =
    if is_server_error e
    then server
    else if e.status_code == 429
    then rate_limit
    else if e.status_code == 408 || e.status_code == 504
    then timed_out
    else client

api_detail : Text → Info → Info
unfolding with_detail
api_detail d i = if text_eq d [] then i else with_detail (lit "api_details") (text d) i

-- APIError.ToError
unfoldable pub api_to_error : ℕ → ApiError → GoError
unfolding api_type new_error_with_code api_detail with_detail
api_to_error now e =
    let (i, w) = new_error_with_code now (api_type e) e.code e.message (api e) in
    enhanced (with_detail (lit "status_code") (number e.status_code) (api_detail e.details i)) w

-- The type assertion on the error that an Error wraps directly.
direct_api : GoError → Bool
unfolding api_is_not_found
direct_api (api a) = api_is_not_found a
direct_api _ = false

not_found_in : Option ApiError → Option (Info × GoError) → Bool
unfolding api_is_not_found direct_api
not_found_in (some a) e = api_is_not_found a
not_found_in none (some (i, w)) = direct_api w
not_found_in none none = false

-- IsNotFound
unfoldable pub is_not_found : GoError → Bool
unfolding is_error as_api as_enhanced not_found_in
is_not_found err =
    if is_error err not_found then true else not_found_in (as_api err) (as_enhanced err)

-- IsRetryable
unfoldable pub is_retryable : GoError → Bool
unfolding is_error as_enhanced as_api api_is_retryable is_network is_timeout
is_retryable err =
    if is_error err timeout || is_error err server_error || is_error err rate_limited
    then true
    else elim (as_enhanced err) [
      | some (i, w) ↦ i.retryable
      | none ↦ elim (as_api err) [
        | some a ↦ api_is_retryable a
        | none ↦ is_network err || is_timeout err
      ]
    ]

-- WrapError: the first Error of the chain gets the message and is returned without what wraps it.
unfoldable pub wrap_error : ℕ → GoError → ErrorType → Text → GoError
unfolding as_enhanced new_error
wrap_error now nil type message = nil
wrap_error now err type message = elim (as_enhanced err) [
  | some (i, w) ↦ enhanced (record i { message = message }) w
  | none ↦ as_error (new_error now type message err)
]
