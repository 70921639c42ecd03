-- ===== src/Errors/Tests.antt =====
-- The classification at concrete errors.
use birb_nest.Prelude.{◌≤◌, ◌↔◌, ◌≡◌, refl, [], lit}
use birb_nest.Errors.{
  Sentinel, timeout, server, timed_out, rate_limit, validation, Info, ApiError, sentinel, enhanced,
  api, wrapping, opaque, is_error, as_enhanced, new_error, api_is_retryable, api_type, api_to_error,
  is_not_found, is_retryable, wrap_error,
}
use birb_nest.Errors.Classify.{is_retryable-api_to_error, api_type_exact}
use birb_nest.Errors.Chains.{wrapping_transparent, wrap_error_keeps}

abbrev gateway_timeout : ApiError
gateway_timeout = record {
  status_code = 504;
  message = lit "slow";
  code = [];
  details = lit "upstream";
}

abbrev missing : ApiError
missing = record { status_code = 400; message = lit "no"; code = lit "NOT_FOUND"; details = [] }

is_retryable-api_to_error_run :
    (is_retryable (api_to_error 9 gateway_timeout) ≡ api_is_retryable gateway_timeout)
    × (is_retryable (api gateway_timeout) ≡ api_is_retryable gateway_timeout)
is_retryable-api_to_error_run = is_retryable-api_to_error 9 gateway_timeout

api_type_exact_run :
    ((api_type gateway_timeout ≡ server) ↔ (500 ≤ gateway_timeout.status_code))
    × ((api_type gateway_timeout ≡ rate_limit) ↔ (gateway_timeout.status_code ≡ 429))
    × ((api_type gateway_timeout ≡ timed_out) ↔ (gateway_timeout.status_code ≡ 408))
api_type_exact_run = api_type_exact gateway_timeout

wrapping_transparent_example :
    (is_retryable (wrapping (lit "get") (sentinel timeout)) ≡ is_retryable (sentinel timeout))
    × (is_not_found (wrapping (lit "get") (sentinel timeout)) ≡ is_not_found (sentinel timeout))
    × (is_error (wrapping (lit "get") (sentinel timeout)) timeout
        ≡ is_error (sentinel timeout) timeout)
wrapping_transparent_example = wrapping_transparent (lit "get") (sentinel timeout) timeout

abbrev bad_input : Info
bad_input = (new_error 9 validation (lit "bad") (opaque (lit "cause"))).0

wrap_error_keeps_run :
    ((s : Sentinel)
      → is_error
          (wrap_error 10
            (wrapping (lit "set") (enhanced bad_input (opaque (lit "cause"))))
            timed_out
            (lit "late"))
          s
        ≡ is_error (wrapping (lit "set") (enhanced bad_input (opaque (lit "cause")))) s)
    × (is_retryable (
          wrap_error 10
            (wrapping (lit "set") (enhanced bad_input (opaque (lit "cause"))))
            timed_out
            (lit "late"))
        ≡ is_retryable (wrapping (lit "set") (enhanced bad_input (opaque (lit "cause")))))
    × (is_not_found (
          wrap_error 10
            (wrapping (lit "set") (enhanced bad_input (opaque (lit "cause"))))
            timed_out
            (lit "late"))
        ≡ is_not_found (wrapping (lit "set") (enhanced bad_input (opaque (lit "cause")))))
unfolding as_enhanced new_error
wrap_error_keeps_run =
    wrap_error_keeps 10 (wrapping (lit "set") (enhanced bad_input (opaque (lit "cause")))) timed_out
      (lit "late") bad_input (opaque (lit "cause")) refl
