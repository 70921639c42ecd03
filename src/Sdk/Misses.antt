-- ===== src/Sdk/Misses.antt =====
-- Gets of missing keys, and the circuit breaker.
use birb_nest.Prelude.{ℕ, suc, ◌≡◌, true, false, Option, none, some, List, [], ◌∷◌, Text}
use birb_nest.Cache.{Bytes}
use birb_nest.Errors.{ApiError, GoError, is_nil, is_retryable, is_not_found}
use birb_nest.Retry.{Floats, Strategy, custom}
use birb_nest.Retry
use birb_nest.Circuit
use birb_nest.Circuit.Opening.{Call}
use birb_nest.Sdk.{Wire, response}
use birb_nest.Sdk.Transport.{Answer, Attempt, Breaking, trial, last_answer, do_request}
use birb_nest.Sdk.Client.{get_request}

-- The answer 404 is an error that is not retried and that IsNotFound knows.
IsMiss : GoError → Type 0
IsMiss e = (is_nil e ≡ false) × (is_retryable e ≡ false) × (is_not_found e ≡ true)

abbrev api_404 : Text → Text → Text → ApiError
api_404 message code details = record {
  status_code = 404;
  message = message;
  code = code;
  details = details;
}

module _ (fl : Floats) (wire : Wire) where
  open fl use {Float}

  -- A strategy of the package.
  abbrev pub IsPackaged : Strategy Float → Type 0
  IsPackaged (custom next should) = ⊥
  IsPackaged _ = Unit

  -- A Get of a key that the server does not have.
  pub record Miss : Type 0 where
    pub key : Text
    pub at : ℕ
    pub until : ℕ
    pub body : Bytes
    pub id : Text
    pub attempts : ℕ → Attempt Float
    pub missing : (attempts 0).reply ≡ response 404 body id

  error_of : Miss → GoError
  error_of m = (trial fl wire (get_request m.key) (m.attempts 0)).result

  -- The call of the breaker that such a Get is.
  call_of : Miss → Call GoError
  unfolding error_of
  call_of m = record { at = m.at; until = m.until; error = some (error_of m) }

  -- What such a Get is answered, before the breaker.
  answer_of : Miss → Answer
  answer_of m = last_answer fl wire (get_request m.key) m.attempts (error_of m, 1)

  module _ (s : Strategy Float) (fuel : ℕ) where
    -- Gets one after the other, each with fuel for one attempt at least.
    pub ask : Miss → Breaking → Option (Answer × Breaking)
    ask m b = do_request fl wire s m.at m.until m.until m.attempts (suc fuel) (get_request m.key) b

    unfoldable pub asked :
        (Breaking → Option Breaking) → Option (Answer × Breaking) → Option Breaking
    asked next none = none
    asked next (some (a, b)) = next b

    unfoldable pub ask_all : List Miss → Breaking → Option Breaking
    unfolding asked ask
    ask_all [] b = some b
    ask_all (m ∷ ms) b = asked (ask_all ms) (ask m b)
