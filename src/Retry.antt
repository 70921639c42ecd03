-- ===== src/Retry.antt =====
-- sdk/retry.go: retry budgets, the back-off strategies and the retry executor. Durations are
-- nanoseconds and not negative. Go's float64 is a parameter, `Floats`; the random draw of a jitter,
-- the clock, the context and the results of the function are given for each attempt by `Trial`.
pub mod Intervals
pub mod Attempts
pub mod Results
pub mod Hedged
pub mod Tests
use birb_nest.Prelude.{
  ℕ, zero, suc, ◌+◌, ◌-◌, ◌*◌, Bool, true, false, ◌&&◌, ◌||◌, not, Option, none, some, List, [],
  ◌∷◌, Text, lit, leb, ltb, ◌==◌, if◌then◌else◌,
}
use birb_nest.Errors.{
  ErrorType, unknown, network, timed_out, server, client, open_circuit, rate_limit, validation,
  retry_budget, Info, GoError, as_enhanced, is_nil, wrap_error,
}
use birb_nest.Errors

pub record Floats : Type 1 where
  pub Float : Type 0
  pub of_duration : ℕ → Float
  -- time.Duration(x), for a value that is not negative
  pub to_duration : Float → ℕ
  pub fzero : Float
  pub one : Float
  pub two : Float
  pub add : Float → Float → Float
  pub sub : Float → Float → Float
  pub mul : Float → Float → Float
  -- math.Pow(x, float64(n))
  pub pow : Float → ℕ → Float
  -- x > y
  pub exceeds : Float → Float → Bool

-- RetryBudget
pub record RetryBudget : Type 0 where
  pub max_attempts : ℕ
  pub max_duration : ℕ
  pub retryable_errors : List ErrorType

abbrev pub second : ℕ
second = 1_000_000_000

abbrev pub default_retry_budget : RetryBudget
default_retry_budget = record {
  max_attempts = 3;
  max_duration = 30 * second;
  retryable_errors = [];
}

unfoldable pub is_exhausted : RetryBudget → ℕ → ℕ → Bool
is_exhausted rb attempt elapsed =
    if ltb 0 rb.max_attempts && leb rb.max_attempts attempt
    then true
    else ltb 0 rb.max_duration && leb rb.max_duration elapsed

type_number : ErrorType → ℕ
type_number unknown = 0
type_number network = 1
type_number timed_out = 2
type_number server = 3
type_number client = 4
type_number open_circuit = 5
type_number rate_limit = 6
type_number validation = 7
type_number retry_budget = 8

allows : ErrorType → List ErrorType → Bool
unfolding type_number
allows t [] = false
allows t (a ∷ as') = type_number t == type_number a || allows t as'

listed : List ErrorType → Option (Info × GoError) → Bool
unfolding allows
listed [] e = true
listed (t ∷ ts) (some (i, w)) = allows i.type (t ∷ ts)
listed (t ∷ ts) none = false

-- The budget's IsRetryable.
unfoldable pub budget_retryable : RetryBudget → GoError → Bool
unfolding listed
budget_retryable rb err =
    if Errors.is_retryable err then listed rb.retryable_errors (as_enhanced err) else false

-- ExponentialBackoffStrategy, LinearBackoffStrategy, ConstantBackoffStrategy
pub record Exponential (F : Type 0) : Type 0 where
  pub initial_interval : ℕ
  pub max_interval : ℕ
  pub multiplier : F
  pub jitter : F
  pub budget : RetryBudget

pub record Linear (F : Type 0) : Type 0 where
  pub interval : ℕ
  pub jitter : F
  pub budget : RetryBudget

pub record Constant : Type 0 where
  pub interval : ℕ
  pub budget : RetryBudget

-- A RetryStrategy: one of the package's, or a caller's own with its two methods.
pub data Strategy (F : Type 0) : Type 0 where
  exponential : Exponential F → Strategy F
  linear : Linear F → Strategy F
  constant : Constant → Strategy F
  no_retry : Strategy F
  custom : (ℕ → ℕ) → (GoError → ℕ → Bool) → Strategy F

module _ (fl : Floats) where
  open fl use {Float, of_duration, to_duration, fzero, one, two, add, sub, mul, pow, exceeds}

  jittered : Float → Float → Float → Float
  jittered draw jitter interval =
      if exceeds jitter fzero
      then add interval (mul (mul interval jitter) (sub (mul two draw) one))
      else interval

  not_negative : Float → Float
  not_negative interval = if exceeds fzero interval then fzero else interval

  -- The interval before the cap, and the cap.
  unfoldable pub base_interval : Exponential Float → ℕ → Float
  base_interval s attempt = mul (of_duration s.initial_interval) (pow s.multiplier (attempt - 1))

  unfoldable pub capped : Exponential Float → Float → Float
  capped s interval =
      if exceeds interval (of_duration s.max_interval) then of_duration s.max_interval else interval

  unfoldable pub exponential_interval : Exponential Float → ℕ → Float → ℕ
  unfolding jittered not_negative base_interval capped
  exponential_interval s zero draw = 0
  exponential_interval s (suc a) draw =
      to_duration (not_negative (jittered draw s.jitter (capped s (base_interval s (suc a)))))

  unfoldable pub linear_interval : Linear Float → ℕ → Float → ℕ
  unfolding jittered not_negative
  linear_interval s zero draw = 0
  linear_interval s (suc a) draw =
      to_duration (not_negative (jittered draw s.jitter (of_duration s.interval)))

  unfoldable pub constant_interval : Constant → ℕ → ℕ
  constant_interval s zero = 0
  constant_interval s (suc a) = s.interval

  unfoldable pub next_interval : Strategy Float → ℕ → Float → ℕ
  unfolding exponential_interval linear_interval constant_interval
  next_interval (exponential s) attempt draw = exponential_interval s attempt draw
  next_interval (linear s) attempt draw = linear_interval s attempt draw
  next_interval (constant s) attempt draw = constant_interval s attempt
  next_interval no_retry attempt draw = 0
  next_interval (custom next should) attempt draw = next attempt

module _ {F : Type 0} where
  unfoldable pub should_retry : Strategy F → GoError → ℕ → Bool
  unfolding budget_retryable
  should_retry (exponential s) err attempt = budget_retryable s.budget err
  should_retry (linear s) err attempt = budget_retryable s.budget err
  should_retry (constant s) err attempt = budget_retryable s.budget err
  should_retry no_retry err attempt = false
  should_retry (custom next should) err attempt = should err attempt

  -- The type assertions of Execute: three of the strategies have a budget.
  unfoldable pub budget_of : Strategy F → Option RetryBudget
  budget_of (exponential s) = some s.budget
  budget_of (linear s) = some s.budget
  budget_of (constant s) = some s.budget
  budget_of _ = none

  unfoldable pub over_budget : Strategy F → ℕ → ℕ → Bool
  unfolding budget_of is_exhausted
  over_budget s attempt elapsed = elim (budget_of s) [
    | none ↦ false
    | some b ↦ is_exhausted b attempt elapsed
  ]

-- What the surroundings give in one round of the loop: the function's result, the context's error
-- (nil while it lives) after the call and during the wait, the clock and the random draw.
pub record Trial (F : Type 0) : Type 0 where
  pub result : GoError
  pub ctx_error : GoError
  pub wait_error : GoError
  pub time : ℕ
  pub draw : F

module _ (fl : Floats) where
  open fl use {Float}

  -- One round of the loop of retryExecutor.Execute, after `calls` calls of the function: what it
  -- returns, or `none` to go on.
  unfoldable pub round : Strategy Float → ℕ → Trial Float → ℕ → Option GoError
  round s start t calls =
      if is_nil t.result
      then some Errors.nil
      else if not (should_retry s t.result calls)
      then some t.result
      else if not (is_nil t.ctx_error)
      then some (wrap_error t.time t.ctx_error timed_out (lit "context canceled during retry"))
      else if over_budget s calls (t.time - start)
      then some t.result
      else if next_interval fl s calls t.draw == 0
      then some t.result
      else if not (is_nil t.wait_error)
      then some
          (wrap_error t.time t.wait_error timed_out (lit "context canceled during retry wait"))
      else none

  -- retryExecutor.Execute from round `attempt` on: what it returns and how often it has called the
  -- function. `none`: the fuel is out.
  unfoldable pub execute : Strategy Float → ℕ → (ℕ → Trial Float) → ℕ → ℕ → Option (GoError × ℕ)
  unfolding round
  execute s start trials zero attempt = none
  execute s start trials (suc fuel) attempt = elim (round s start (trials attempt) (attempt + 1)) [
    | some err ↦ some (err, attempt + 1)
    | none ↦ execute s start trials fuel (attempt + 1)
  ]
