-- ===== src/Sdk/Bounds.antt =====
-- What Validate of sdk/config.go leaves.
use birb_nest.Prelude.{
  ℕ, suc, ◌<◌, ◌≡◌, refl, ap, Bool, true, false, inl, inr, Option, none, some, [], text_eq,
  if◌then◌else◌, arith, Bool-cases,
}
use birb_nest.Prelude.Int.{ℤ, pos, negsuc, positive}
use birb_nest.Errors.{nil}
use birb_nest.Circuit
use birb_nest.Sdk.Config.{
  Config, or_default, or_some, not_negative, checked_breaker, or_quiet, checked, validate,
}

-- What Validate sees to.
abbrev pub IsNatural : ℤ → Type 0
IsNatural (pos n) = Unit
IsNatural (negsuc n) = ⊥

abbrev pub HasValue : {O : Type 0} → Option O → Type 0
HasValue none = ⊥
HasValue (some o) = Unit

abbrev pub HasThresholds : Option Circuit.Config → Type 0
HasThresholds none = Unit
HasThresholds (some b) =
    (0 < b.failure_threshold)
    × (0 < b.success_threshold)
    × (0 < b.timeout)
    × (0 < b.half_open_limit)

or_default_idem : (d : ℕ) (n : ℤ) → or_default d (or_default d n) ≡ or_default d n
unfolding or_default
or_default_idem d n = elim (Bool-cases (positive n)) [
  | inl e ↦ rw (e, e) refl
  | inr e ↦ elim (Bool-cases (positive (pos d))) [ inl f ↦ rw (e, f) refl | inr f ↦ rw (e, f) refl ]
]

or_default-positive : (d : ℕ) (n : ℤ) → positive (or_default (suc d) n) ≡ true
unfolding or_default positive
or_default-positive d n = elim (Bool-cases (positive n)) [
  | inl e ↦ rw (e, e) refl
  | inr e ↦ rw e refl
]

or_some_idem : (d n : ℕ) → or_some (suc d) (or_some (suc d) n) ≡ or_some (suc d) n
unfolding or_some
or_some_idem d n = ground arith

or_some-positive : (d n : ℕ) → 0 < or_some (suc d) n
unfolding or_some
or_some-positive d n = ground arith

not_negative_idem : (n : ℤ) → not_negative (not_negative n) ≡ not_negative n
unfolding not_negative
not_negative_idem (pos n) = refl
not_negative_idem (negsuc n) = refl

not_negative-IsNatural : (n : ℤ) → IsNatural (not_negative n)
unfolding not_negative
not_negative-IsNatural (pos n) = tt
not_negative-IsNatural (negsuc n) = tt

checked_breaker_idem :
    (b : Option Circuit.Config) → checked_breaker (checked_breaker b) ≡ checked_breaker b
unfolding checked_breaker
checked_breaker_idem none = refl
checked_breaker_idem (some b) =
    rw
      (
        or_some_idem 4 b.failure_threshold,
        or_some_idem 1 b.success_threshold,
        or_some_idem 29_999_999_999 b.timeout,
        or_some_idem 2 b.half_open_limit,
      )
      refl

checked_breaker-HasThresholds : (b : Option Circuit.Config) → HasThresholds (checked_breaker b)
unfolding checked_breaker
checked_breaker-HasThresholds none = tt
checked_breaker-HasThresholds (some b) = (
  or_some-positive 4 b.failure_threshold,
  or_some-positive 1 b.success_threshold,
  or_some-positive 29_999_999_999 b.timeout,
  or_some-positive 2 b.half_open_limit,
)

or_quiet_idem :
    {O : Type 0} (quiet : O) (o : Option O) → or_quiet quiet (or_quiet quiet o) ≡ or_quiet quiet o
unfolding or_quiet
or_quiet_idem quiet none = refl
or_quiet_idem quiet (some o) = refl

or_quiet-HasValue : {O : Type 0} (quiet : O) (o : Option O) → HasValue (or_quiet quiet o)
unfolding or_quiet
or_quiet-HasValue quiet none = tt
or_quiet-HasValue quiet (some o) = tt

module _ {F : Type 0} (le_one : F → Bool) (two : F) where
  multiplier_idem :
      (m : F)
      → (if le_one (if le_one m then two else m) then two else (if le_one m then two else m))
        ≡ (if le_one m then two else m)
  multiplier_idem m = elim (Bool-cases (le_one m)) [
    | inl e ↦ elim (Bool-cases (le_one two)) [ inl f ↦ rw (e, f) refl | inr f ↦ rw (e, f) refl ]
    | inr e ↦ rw (e, e) refl
  ]

  multiplier_over : (m : F) → le_one two ≡ false → le_one (if le_one m then two else m) ≡ false
  multiplier_over m h = elim (Bool-cases (le_one m)) [ inl e ↦ rw e h | inr e ↦ rw (e, e) refl ]

module _ {F O H : Type 0} (le_one : F → Bool) (two : F) (quiet : O) where
  checked_idem :
      (c : Config F O H)
      → checked le_one two quiet (checked le_one two quiet c) ≡ checked le_one two quiet c
  unfolding checked
  checked_idem c =
      rw
        (
          or_default_idem 30_000_000_000 c.timeout,
          not_negative_idem c.retry_config.max_retries,
          or_default_idem 100_000_000 c.retry_config.initial_interval,
          or_default_idem 5_000_000_000 c.retry_config.max_interval,
          multiplier_idem le_one two c.retry_config.multiplier,
          or_quiet_idem quiet c.observer,
          checked_breaker_idem c.circuit_breaker_config,
        )
        refl

  -- A configuration with a base URL is accepted by Validate, which leaves a positive timeout and
  -- positive intervals, a number of retries that is not negative, a multiplier above 1, an observer,
  -- and positive thresholds of a circuit breaker if one is configured; a second Validate accepts it
  -- and changes nothing. 2.0 <= 1 must be false.
  pub validate_done :
      (c : Config F O H)
      → le_one two ≡ false
      → text_eq c.base_url [] ≡ false
      → let v = validate le_one two quiet c in
        (v.0 ≡ nil)
        × (positive v.1.timeout ≡ true)
        × IsNatural v.1.retry_config.max_retries
        × (positive v.1.retry_config.initial_interval ≡ true)
        × (positive v.1.retry_config.max_interval ≡ true)
        × (le_one v.1.retry_config.multiplier ≡ false)
        × HasValue v.1.observer
        × HasThresholds v.1.circuit_breaker_config
        × (validate le_one two quiet v.1 ≡ v)
  unfolding validate checked
  validate_done c h u = rw u (
    refl,
    or_default-positive 29_999_999_999 c.timeout,
    not_negative-IsNatural c.retry_config.max_retries,
    or_default-positive 99_999_999 c.retry_config.initial_interval,
    or_default-positive 4_999_999_999 c.retry_config.max_interval,
    multiplier_over le_one two c.retry_config.multiplier h,
    or_quiet-HasValue quiet c.observer,
    checked_breaker-HasThresholds c.circuit_breaker_config,
    rw u (ap (λ x. (nil, x)) (checked_idem c)),
  )
