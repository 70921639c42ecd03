-- ===== src/Errors/Classify.antt =====
-- Which errors are retried, and what a status code becomes.
use birb_nest.Prelude.{ℕ, ◌≤◌, ◌↔◌, ◌≡◌, false, arith, Option, none, some, Text}
use birb_nest.Errors.{
  Sentinel, timeout, server_error, rate_limited, circuit_open, retry_budget_exhausted, ErrorType,
  unknown, timed_out, server, open_circuit, rate_limit, retry_budget, ApiError, GoError, api,
  is_error, is_retryable_type, new_error, as_error, api_is_not_found, api_is_retryable, api_type,
  api_to_error, is_not_found, is_retryable,
}

-- Turning an APIError into an Error keeps whether it is retried, and IsRetryable agrees with the
-- APIError's own method on both.
pub is_retryable-api_to_error :
    (now : ℕ) (e : ApiError)
    → (is_retryable (api_to_error now e) ≡ api_is_retryable e)
      × (is_retryable (api e) ≡ api_is_retryable e)
unfolding is_retryable api_to_error
is_retryable-api_to_error now e = ground arith

-- Turning an APIError into an Error keeps whether it means that the key is not there.
pub is_not_found-api_to_error :
    (now : ℕ) (e : ApiError)
    → (is_not_found (api_to_error now e) ≡ api_is_not_found e)
      × (is_not_found (api e) ≡ api_is_not_found e)
unfolding is_not_found api_to_error
is_not_found-api_to_error now e = ground arith

-- The type of a status code: a server error from 500 on, a rate limit at 429 only, a timeout at
-- 408 only, and a client error for every other code. So a gateway timeout, 504, is a server error,
-- though the code has a branch that would make it a timeout.
pub api_type_exact :
    (e : ApiError)
    → ((api_type e ≡ server) ↔ (500 ≤ e.status_code))
      × ((api_type e ≡ rate_limit) ↔ (e.status_code ≡ 429))
      × ((api_type e ≡ timed_out) ↔ (e.status_code ≡ 408))
unfolding api_type
api_type_exact e = ground arith

-- The error value that errors.Is finds in an Error of each type with nothing wrapped.
abbrev pub matching : ErrorType → Option Sentinel
matching timed_out = some timeout
matching server = some server_error
matching open_circuit = some circuit_open
matching rate_limit = some rate_limited
matching retry_budget = some retry_budget_exhausted
matching _ = none

-- An Error is retried exactly if its type is a network error, a timeout, a server error or a rate
-- limit, whatever it wraps, as long as the wrapped chain holds none of the error values that are
-- retried by themselves.
pub is_retryable-new_error :
    (now : ℕ) (type : ErrorType) (message : Text) (w : GoError)
    → is_error w timeout ≡ false
    → is_error w server_error ≡ false
    → is_error w rate_limited ≡ false
    → is_retryable (as_error (new_error now type message w)) ≡ is_retryable_type type
unfolding is_retryable new_error
is_retryable-new_error now unknown message w a b c = ground arith
is_retryable-new_error now _ message w a b c = ground arith
