-- ===== src/Retry/Tests.antt =====
-- The executor and the strategies at concrete inputs, with floats that are whole numbers.
use birb_nest.Prelude.{
  ℕ, ◌+◌, ◌-◌, ◌*◌, ◌^◌, ◌≤◌, ◌<◌, ◌≡◌, refl, false, arith, some, [], ◌∷◌, ltb, lit,
}
use birb_nest.Errors.{
  timed_out, server_error, wrap_error, GoError, sentinel, timeout, nil, is_nil, is_retryable,
}
use birb_nest.Retry.{
  Floats, RetryBudget, default_retry_budget, Exponential, Strategy, constant, Trial, execute,
  budget_of, exponential_interval, should_retry, round, next_interval, over_budget,
}
use birb_nest.Retry.Attempts.{GoesWrong, execute_bounded, execute_exact}
use birb_nest.Retry.Results.{Retried, execute_result}
use birb_nest.Retry.Hedged.{
  hedged_execute-Failing, default_hedged_request, timer, answered, cancelled, hedged_execute,
}
use birb_nest.Retry.Intervals.{FloatLaws, exponential_interval-le}

abbrev pub whole : Floats
whole = record {
  Float = ℕ;
  of_duration = λ d. d;
  to_duration = λ d. d;
  fzero = 0;
  one = 1;
  two = 2;
  add = λ a b. a + b;
  sub = λ a b. a - b;
  mul = λ a b. a * b;
  pow = λ a n. a ^ n;
  exceeds = λ a b. ltb b a;
}

abbrev Any : ℕ → Type 0
Any n = Unit {0}

whole_truncates : (x y : ℕ) → Any x → Any y → ltb y x ≡ false → x ≤ y
whole_truncates x y _ _ h = ground arith

whole_laws : FloatLaws whole Any
whole_laws = record {
  durations = λ d. tt;
  exact = λ d h. refl;
  zero_duration = refl;
  truncates = whole_truncates;
}

abbrev doubling : Exponential ℕ
doubling = record {
  initial_interval = 100;
  max_interval = 500;
  multiplier = 2;
  jitter = 0;
  budget = default_retry_budget;
}

intervals : exponential_interval whole doubling 3 0 ≡ 400
unfolding exponential_interval
intervals = refl

exponential_interval-le_run : exponential_interval whole doubling 7 0 ≤ 500
exponential_interval-le_run =
    exponential_interval-le whole Any whole_laws doubling 7 0 (omega arith) refl tt

abbrev budget : RetryBudget
budget = record { max_attempts = 3; max_duration = 0; retryable_errors = [] }

abbrev steady : Strategy ℕ
steady = constant (record { interval = 5; budget = budget })

-- Every call fails with a timeout at its own time.
abbrev failing : ℕ → Trial ℕ
failing i = record {
  result = sentinel timeout;
  ctx_error = nil;
  wait_error = nil;
  time = i;
  draw = 0;
}

failing-GoesWrong : (i : ℕ) → GoesWrong whole steady (failing i) (i + 1)
unfolding is_nil should_retry is_retryable next_interval
failing-GoesWrong i = record {
  fails = refl;
  retried = refl;
  ctx_alive = refl;
  waits = ground arith;
  wait_alive = refl;
}

runs : execute whole steady 0 failing 9 0 ≡ some (sentinel timeout, 3)
unfolding execute round is_nil should_retry is_retryable next_interval over_budget
runs = refl

execute_exact_example : execute whole steady 0 failing 3 0 ≡ some ((failing 2).result, 3)
unfolding budget_of
execute_exact_example =
    execute_exact whole steady budget 0 failing 2 0 refl refl refl failing-GoesWrong

execute_bounded_example :
    (r : GoError × ℕ) × (execute whole steady 0 failing 3 0 ≡ some r) × (0 < r.1) × (r.1 ≤ 3)
unfolding budget_of
execute_bounded_example =
    execute_bounded whole steady budget 0 failing 3 0 refl (omega arith) (omega arith) (omega arith)

execute_result_example :
    (0 < 3)
    × (is_nil (sentinel timeout) ≡ is_nil (failing 2).result)
    × Retried whole steady failing 0 2
unfolding execute round is_nil should_retry is_retryable next_interval over_budget
execute_result_example = execute_result whole steady 0 failing 9 0 (sentinel timeout) 3 refl

abbrev refused : GoError
refused = sentinel server_error

abbrev late : GoError
late = sentinel timeout

-- The second request succeeds after the first one failed.
hedged_success :
    hedged_execute default_hedged_request 0 (timer ∷ answered refused ∷ answered nil ∷ [])
    ≡ some (nil, 2)
unfolding hedged_execute
hedged_success = refl

-- A success within the delay: no second request.
hedged_early : hedged_execute default_hedged_request 0 (answered nil ∷ []) ≡ some (nil, 1)
unfolding hedged_execute
hedged_early = refl

hedged_failures :
    hedged_execute default_hedged_request 0 (answered refused ∷ answered late ∷ [])
    ≡ some (refused, 2)
unfolding hedged_execute
hedged_failures = refl

hedged_cancelled :
    hedged_execute default_hedged_request 5 (timer ∷ cancelled late ∷ [])
    ≡ some (wrap_error 5 late timed_out (lit "context canceled during hedged request"), 2)
unfolding hedged_execute
hedged_cancelled = refl

hedged_execute-Failing_example :
    hedged_execute default_hedged_request 0 (timer ∷ answered refused ∷ answered late ∷ [])
    ≡ some (refused, 2)
unfolding is_nil
hedged_execute-Failing_example =
    hedged_execute-Failing default_hedged_request 0 (timer ∷ answered refused ∷ answered late ∷ [])
      (omega arith) (tt, (refl, (refl, tt))) refl
