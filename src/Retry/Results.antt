-- ===== src/Retry/Results.antt =====
-- What the executor returns.
use birb_nest.Prelude.{
  ℕ, zero, suc, ◌+◌, ◌-◌, ◌≤◌, ◌<◌, ◌≡◌, ◌⊎◌, inl, inr, true, false, Option, none, some, arith,
  Option-cases, lit,
}
use birb_nest.Errors.{GoError, is_nil, timed_out}
use birb_nest.Errors.Chains.{is_nil-wrap_error}
use birb_nest.Retry.{Floats, Strategy, should_retry, Trial, round, execute}
use birb_nest.Retry.Attempts.{round_goes_on}

first_or_later : (a i : ℕ) → a ≤ i → (a ≡ i) ⊎ (a + 1 ≤ i)
first_or_later a i h = grind arith

module _ (fl : Floats) where
  open fl use {Float}

  -- The result of a round that ends the loop is nil exactly if the function's is.
  round_nil :
      (s : Strategy Float) (start : ℕ) (t : Trial Float) (calls : ℕ) (e : GoError)
      → round fl s start t calls ≡ some e
      → is_nil e ≡ is_nil t.result
  unfolding round is_nil
  round_nil s start t calls e h = ground (
    arith,
    is_nil-wrap_error t.time t.ctx_error timed_out (lit "context canceled during retry"),
    is_nil-wrap_error t.time t.wait_error timed_out (lit "context canceled during retry wait"),
  )

  -- Every call but the last failed with an error that the strategy retries.
  abbrev pub Retried : Strategy Float → (ℕ → Trial Float) → ℕ → ℕ → Type 0
  Retried s trials from to =
      (i : ℕ)
      → from ≤ i
      → i < to
      → (is_nil (trials i).result ≡ false) × (should_retry s (trials i).result (i + 1) ≡ true)

  -- What Execute returns after its last call is nil exactly if that call succeeded; and each call
  -- before it failed with an error that the strategy retries.
  pub execute_result :
      (s : Strategy Float) (start : ℕ) (trials : ℕ → Trial Float) (fuel attempt : ℕ) (e : GoError)
      (n : ℕ)
      → execute fl s start trials fuel attempt ≡ some (e, n)
      → (attempt < n)
        × (is_nil e ≡ is_nil (trials (n - 1)).result)
        × Retried s trials attempt (n - 1)
  unfolding execute
  execute_result s start trials zero attempt e n h = cc
  execute_result s start trials (suc fuel) attempt e n h =
      elim (Option-cases (round fl s start (trials attempt) (attempt + 1))) [
        | inl goes ↦
            let r =
              execute_result s start trials fuel (attempt + 1) e n (rw (goes, execute) at h) in
            (omega arith, r.1, more goes r.2)
        | inr (err, stops) ↦ last err stops (rw (stops, execute) at h)
      ]
    where
      more :
          round fl s start (trials attempt) (attempt + 1) ≡ none
          → Retried s trials (attempt + 1) (n - 1)
          → Retried s trials attempt (n - 1)
      more goes r i lo hi = elim (first_or_later attempt i lo) [
        | inl p ↦
            let g = round_goes_on fl s start (trials attempt) (attempt + 1) goes in
            rw (← p) (g.0, g.1)
        | inr later ↦ r i later hi
      ]

      last :
          (err : GoError)
          → round fl s start (trials attempt) (attempt + 1) ≡ some err
          → ◌≡◌ {A = Option (GoError × ℕ)} (some (err, attempt + 1)) (some (e, n))
          → (attempt < n)
            × (is_nil e ≡ is_nil (trials (n - 1)).result)
            × Retried s trials attempt (n - 1)
      last err stops q =
          let a : attempt + 1 ≡ n = ground arith in
          let b : err ≡ e = ground arith in
          let c : n - 1 ≡ attempt = omega arith in
          (
            omega arith,
            rw (c, ← b) (round_nil s start (trials attempt) (attempt + 1) err stops),
            λ i lo hi. absurd (omega arith),
          )
