-- ===== src/Retry/Attempts.antt =====
-- How often the function is called.
use birb_nest.Prelude.{
  ℕ, zero, suc, ◌+◌, ◌-◌, ◌≤◌, ◌<◌, ◌≡◌, ◌≢◌, sym, ap, ◌∙◌, inl, inr, true, false, none, some,
  arith, ◌==◌, Option-cases,
}
use birb_nest.Errors.{GoError, is_nil}
use birb_nest.Retry.{
  Floats, RetryBudget, Strategy, is_exhausted, budget_of, over_budget, should_retry, next_interval,
  Trial, round, execute,
}

within_attempts :
    (b : RetryBudget) (calls elapsed : ℕ)
    → 0 < b.max_attempts
    → is_exhausted b calls elapsed ≡ false
    → calls < b.max_attempts
unfolding is_exhausted
within_attempts b calls elapsed m h = ground arith

over_budget-some :
    {F : Type 0} (s : Strategy F) (b : RetryBudget) (calls elapsed : ℕ)
    → budget_of s ≡ some b
    → over_budget s calls elapsed ≡ is_exhausted b calls elapsed
unfolding over_budget
over_budget-some s b calls elapsed h = rw (h, over_budget)

attempts_over :
    {F : Type 0} (s : Strategy F) (b : RetryBudget) (calls elapsed : ℕ)
    → budget_of s ≡ some b
    → 0 < b.max_attempts
    → b.max_attempts ≤ calls
    → over_budget s calls elapsed ≡ true
unfolding over_budget is_exhausted
attempts_over s b calls elapsed e m l = rw (e, over_budget) (ground arith)

attempts_left :
    {F : Type 0} (s : Strategy F) (b : RetryBudget) (calls elapsed : ℕ)
    → budget_of s ≡ some b
    → calls < b.max_attempts
    → b.max_duration ≡ 0
    → over_budget s calls elapsed ≡ false
unfolding over_budget is_exhausted
attempts_left s b calls elapsed e l d = rw (e, over_budget) (ground arith)

module _ (fl : Floats) where
  open fl use {Float}

  -- What holds when the loop goes on.
  pub round_goes_on :
      (s : Strategy Float) (start : ℕ) (t : Trial Float) (calls : ℕ)
      → round fl s start t calls ≡ none
      → (is_nil t.result ≡ false)
        × (should_retry s t.result calls ≡ true)
        × (is_nil t.ctx_error ≡ true)
        × (over_budget s calls (t.time - start) ≡ false)
        × (next_interval fl s calls t.draw ≢ 0)
        × (is_nil t.wait_error ≡ true)
  unfolding round
  round_goes_on s start t calls h = ground arith

  -- Under a budget of `max_attempts` attempts, not 0, the loop ends, and has called the function
  -- at least once and at most `max_attempts` times, the first call included.
  pub execute_bounded :
      (s : Strategy Float) (b : RetryBudget) (start : ℕ) (trials : ℕ → Trial Float)
      (fuel attempt : ℕ)
      → budget_of s ≡ some b
      → 0 < b.max_attempts
      → attempt < b.max_attempts
      → b.max_attempts ≤ attempt + fuel
      → (r : GoError × ℕ) × (execute fl s start trials fuel attempt ≡ some r)
        × (attempt < r.1)
        × (r.1 ≤ b.max_attempts)
  unfolding execute
  execute_bounded s b start trials zero attempt e m l f = absurd (omega arith)
  execute_bounded s b start trials (suc fuel) attempt e m l f =
      elim (Option-cases (round fl s start (trials attempt) (attempt + 1))) [
        | inl goes ↦
            let t = trials attempt in
            let g = round_goes_on s start t (attempt + 1) goes in
            let within =
              within_attempts b (attempt + 1) (t.time - start) m
                (sym (over_budget-some s b (attempt + 1) (t.time - start) e) ∙ g.3) in
            let r = execute_bounded s b start trials fuel (attempt + 1) e m within (omega arith) in
            (r.0, rw (goes, execute) r.1, omega arith, r.3)
        | inr (err, stops) ↦ ((err, attempt + 1), rw (stops, execute), omega arith, omega arith)
      ]

  -- A round in which nothing ends the loop: a failure that the strategy retries, a live context, a
  -- positive interval.
  pub record GoesWrong (s : Strategy Float) (t : Trial Float) (calls : ℕ) : Type 0 where
    pub fails : is_nil t.result ≡ false
    pub retried : should_retry s t.result calls ≡ true
    pub ctx_alive : is_nil t.ctx_error ≡ true
    pub waits : (next_interval fl s calls t.draw == 0) ≡ false
    pub wait_alive : is_nil t.wait_error ≡ true

  round_last :
      (s : Strategy Float) (start : ℕ) (t : Trial Float) (calls : ℕ)
      → GoesWrong s t calls
      → over_budget s calls (t.time - start) ≡ true
      → round fl s start t calls ≡ some t.result
  unfolding round
  round_last s start t calls w o = ground arith

  round_more :
      (s : Strategy Float) (start : ℕ) (t : Trial Float) (calls : ℕ)
      → GoesWrong s t calls
      → over_budget s calls (t.time - start) ≡ false
      → round fl s start t calls ≡ none
  unfolding round
  round_more s start t calls w o = ground arith

  -- Under a budget of `max_attempts` attempts, not 0, and no limit on the duration, a function that
  -- fails each time, with errors that are retried while the context lives, is called exactly
  -- `max_attempts` times, and its last error is returned.
  pub execute_exact :
      (s : Strategy Float) (b : RetryBudget) (start : ℕ) (trials : ℕ → Trial Float) (n attempt : ℕ)
      → budget_of s ≡ some b
      → b.max_attempts ≡ attempt + suc n
      → b.max_duration ≡ 0
      → ((i : ℕ) → GoesWrong s (trials i) (i + 1))
      → execute fl s start trials (suc n) attempt
        ≡ some ((trials (attempt + n)).result, attempt + n + 1)
  unfolding execute
  execute_exact s b start trials zero attempt e m d w =
      rw
        (
          round_last s start (trials attempt) (attempt + 1) (w attempt)
              (attempts_over s b (attempt + 1) _ e (omega arith) (omega arith)),
          execute,
        )
        (ground arith)
  execute_exact s b start trials (suc n) attempt e m d w =
      rw
        (
          round_more s start (trials attempt) (attempt + 1) (w attempt)
              (attempts_left s b (attempt + 1) _ e (omega arith) d),
          execute,
        )
        (execute_exact s b start trials n (attempt + 1) e (omega arith) d w
          ∙ ap (λ k. some ((trials k).result, k + 1)) {x = attempt + 1 + n} {y = attempt + suc n}
              (omega arith))
