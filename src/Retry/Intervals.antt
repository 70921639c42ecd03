-- ===== src/Retry/Intervals.antt =====
-- How long the strategies wait.
use birb_nest.Prelude.{ℕ, zero, suc, ◌≤◌, ◌<◌, ◌≡◌, false, arith, ◌^◌}
use birb_nest.Retry.{Floats, Exponential, base_interval, exponential_interval}

-- What is known of the float64 operations: on values that are ordinary (no NaN), `>` decides the
-- order of the truncated durations, zero is not above a duration, and a duration of less than 2^53
-- nanoseconds is exact as a float64.
pub record FloatLaws (fl : Floats) (Ordinary : fl.Float → Type 0) : Type 0 where
  pub durations : (d : ℕ) → Ordinary (fl.of_duration d)
  pub exact : (d : ℕ) → d < 2 ^ 53 → fl.to_duration (fl.of_duration d) ≡ d
  pub zero_duration : fl.to_duration fl.fzero ≡ 0
  pub truncates :
      (x y : fl.Float)
      → Ordinary x
      → Ordinary y
      → fl.exceeds x y ≡ false
      → fl.to_duration x ≤ fl.to_duration y

module _ (fl : Floats) (Ordinary : fl.Float → Type 0) (laws : FloatLaws fl Ordinary) where
  open fl use {Float, of_duration, to_duration, exceeds, fzero}

  -- With no jitter, an exponential back-off waits at most its maximal interval, in every attempt,
  -- where the interval before the cap is an ordinary float64.
  pub exponential_interval-le :
      (s : Exponential Float) (attempt : ℕ) (draw : Float)
      → s.max_interval < 2 ^ 53
      → exceeds s.jitter fzero ≡ false
      → Ordinary (base_interval fl s attempt)
      → exponential_interval fl s attempt draw ≤ s.max_interval
  unfolding exponential_interval
  exponential_interval-le s zero draw m j o = omega arith
  exponential_interval-le s (suc a) draw m j o = ground (
    arith,
    laws.durations s.max_interval,
    laws.exact s.max_interval m,
    laws.zero_duration,
    laws.truncates (base_interval fl s (suc a)) (of_duration s.max_interval) o
        (laws.durations s.max_interval),
  )
