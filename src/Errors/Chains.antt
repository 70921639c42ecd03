-- ===== src/Errors/Chains.antt =====
-- What wrapping an error keeps and drops.
use birb_nest.Prelude.{ℕ, ◌≡◌, refl, sym, ◌∙◌, false, arith, some, Text}
use birb_nest.Errors.{
  Sentinel, not_found, timeout, server_error, rate_limited, ErrorType, Info, GoError, nil, is_nil,
  sentinel, enhanced, api, network_error, timeout_error, wrapping, opaque, is_error, as_enhanced,
  as_api, is_not_found, is_retryable, wrap_error,
}

-- fmt.Errorf with %w around an error changes neither classification, nor what errors.Is finds.
pub wrapping_transparent :
    (m : Text) (e : GoError) (s : Sentinel)
    → (is_retryable (wrapping m e) ≡ is_retryable e)
      × (is_not_found (wrapping m e) ≡ is_not_found e)
      × (is_error (wrapping m e) s ≡ is_error e s)
unfolding is_retryable is_not_found
wrapping_transparent m e s = (refl, refl, refl)

-- The first Error of a chain decides all that is asked of the chain.
first_error :
    (e : GoError) (i : Info) (w : GoError) (s : Sentinel)
    → as_enhanced e ≡ some (i, w)
    → (is_error e s ≡ is_error (enhanced i w) s) × (as_api e ≡ as_api w)
unfolding is_error as_enhanced as_api
first_error nil i w s h = cc
first_error (sentinel t) i w s h = cc
first_error (enhanced j v) i w s h = ground arith
first_error (api a) i w s h = cc
first_error (network_error op e) i w s h = first_error e i w s h
first_error (timeout_error op) i w s h = cc
first_error (wrapping m e) i w s h = first_error e i w s h
first_error (opaque m) i w s h = cc

retryable_of_first :
    (e : GoError) (i : Info) (w : GoError)
    → as_enhanced e ≡ some (i, w)
    → is_retryable e ≡ is_retryable (enhanced i w)
unfolding is_retryable
retryable_of_first e i w h = rw (
  (first_error e i w timeout h).0,
  (first_error e i w server_error h).0,
  (first_error e i w rate_limited h).0,
  h,
  is_retryable,
)

not_found_of_first :
    (e : GoError) (i : Info) (w : GoError)
    → as_enhanced e ≡ some (i, w)
    → is_not_found e ≡ is_not_found (enhanced i w)
unfolding is_not_found
not_found_of_first e i w h =
    rw ((first_error e i w not_found h).0, (first_error e i w not_found h).1, h, is_not_found)

message_ignored :
    (i : Info) (message : Text) (w : GoError)
    → (is_retryable (enhanced (record i { message = message }) w) ≡ is_retryable (enhanced i w))
      × (is_not_found (enhanced (record i { message = message }) w) ≡ is_not_found (enhanced i w))
unfolding is_retryable is_not_found
message_ignored i message w = (refl, ground arith)

wrap_found :
    (now : ℕ) (e : GoError) (type : ErrorType) (message : Text) (i : Info) (w : GoError)
    → as_enhanced e ≡ some (i, w)
    → wrap_error now e type message ≡ enhanced (record i { message = message }) w
unfolding wrap_error
wrap_found now nil type message i w h = cc
wrap_found now e type message i w h = ground arith

-- Where the chain holds an Error, WrapError changes its message and nothing that a caller can ask:
-- what errors.Is finds, whether the error is retried and whether it means a missing key stay as
-- they were, whatever type the caller asked for.
pub wrap_error_keeps :
    (now : ℕ) (e : GoError) (type : ErrorType) (message : Text) (i : Info) (w : GoError)
    → as_enhanced e ≡ some (i, w)
    → ((s : Sentinel) → is_error (wrap_error now e type message) s ≡ is_error e s)
      × (is_retryable (wrap_error now e type message) ≡ is_retryable e)
      × (is_not_found (wrap_error now e type message) ≡ is_not_found e)
unfolding is_error
wrap_error_keeps now e type message i w h = rw (wrap_found now e type message i w h) (
  λ s. sym (first_error e i w s h).0,
  (message_ignored i message w).0 ∙ sym (retryable_of_first e i w h),
  (message_ignored i message w).1 ∙ sym (not_found_of_first e i w h),
)

-- WrapError gives an error for an error.
pub is_nil-wrap_error :
    (now : ℕ) (e : GoError) (type : ErrorType) (message : Text)
    → is_nil e ≡ false
    → is_nil (wrap_error now e type message) ≡ false
unfolding is_nil wrap_error
is_nil-wrap_error now nil type message h = h
is_nil-wrap_error now e type message h = ground arith
