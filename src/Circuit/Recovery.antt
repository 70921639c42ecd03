-- ===== src/Circuit/Recovery.antt =====
-- How a breaker recovers from its open state, and when it never does.
use birb_nest.Prelude.{ℕ, ◌+◌, ◌≤◌, ◌<◌, ◌≡◌, refl, arith, List, [], ◌∷◌, length, All}
use birb_nest.Circuit.{
  closed, opened, half_open, Config, Breaker, half_open_limit_reached, execute, rejected,
}
use birb_nest.Circuit.Opening.{Call, Succeeds, drive, outcomes}

-- The half-open state after `n` of its requests were admitted and succeeded.
record Probing (config : Config) (n : ℕ) (cb : Breaker) : Type 0 where
  pub same_config : cb.config ≡ config
  pub is_half_open : cb.state ≡ half_open
  pub all_admitted : cb.half_open_requests ≡ n
  pub all_succeeded : cb.successes ≡ n

limit_reached :
    (config : Config) (cb : Breaker)
    → Probing config config.half_open_limit cb
    → cb.half_open_limit ≤ cb.half_open_requests
limit_reached config cb p = ground arith

module _ {E : Type 0} where
  first_probe :
      (c : Call E) (cb : Breaker)
      → Succeeds c
      → cb.state ≡ opened
      → cb.last_failure_time + cb.timeout ≤ c.at
      → 0 < cb.half_open_limit
      → 1 < cb.success_threshold
      → Probing cb.config 1 (execute c.at c.until c.error cb).1
  unfolding execute
  first_probe c cb s st t l h = ground arith

  more_probe :
      (config : Config) (n : ℕ) (c : Call E) (cb : Breaker)
      → Succeeds c
      → Probing config n cb
      → n < config.half_open_limit
      → n + 1 < config.success_threshold
      → Probing config (n + 1) (execute c.at c.until c.error cb).1
  unfolding execute
  more_probe config n c cb s p l h = ground arith

  last_probe :
      (config : Config) (n : ℕ) (c : Call E) (cb : Breaker)
      → Succeeds c
      → Probing config n cb
      → n < config.half_open_limit
      → n + 1 ≡ config.success_threshold
      → let next = (execute c.at c.until c.error cb).1 in
        (next.state ≡ closed)
        × (next.failures ≡ 0)
        × (next.successes ≡ 0)
        × (next.half_open_requests ≡ 0)
  unfolding execute
  last_probe config n c cb s p l h = ground arith

  -- A half-open breaker that has admitted all it may refuses, whatever the functions would return.
  exhausted :
      (c : Call E) (cb : Breaker)
      → cb.state ≡ half_open
      → cb.half_open_limit ≤ cb.half_open_requests
      → execute c.at c.until c.error cb ≡ (rejected half_open_limit_reached, cb)
  unfolding execute
  exhausted c cb st l = ground arith

  -- One call is enough for a threshold of one.
  only_probe :
      (c : Call E) (cb : Breaker)
      → Succeeds c
      → cb.state ≡ opened
      → cb.last_failure_time + cb.timeout ≤ c.at
      → 0 < cb.half_open_limit
      → cb.success_threshold ≡ 1
      → let next = (execute c.at c.until c.error cb).1 in
        (next.state ≡ closed)
        × (next.failures ≡ 0)
        × (next.successes ≡ 0)
        × (next.half_open_requests ≡ 0)
  unfolding execute
  only_probe c cb s st t l h = ground arith

  finish-Probing :
      (config : Config) (n : ℕ) (c : Call E) (cs : List (Call E)) (cb : Breaker)
      → All Succeeds (c ∷ cs)
      → Probing config n cb
      → n + length (c ∷ cs) ≡ config.success_threshold
      → config.success_threshold ≤ config.half_open_limit
      → let last = drive (c ∷ cs) cb in
        (last.state ≡ closed)
        × (last.failures ≡ 0)
        × (last.successes ≡ 0)
        × (last.half_open_requests ≡ 0)
  unfolding drive
  finish-Probing config n c [] cb s p h l =
      last_probe config n c cb s.0 p (omega arith) (omega arith)
  finish-Probing config n c (d ∷ cs) cb s p h l =
      finish-Probing config (n + 1) d cs (execute c.at c.until c.error cb).1 s.1
        (more_probe config n c cb s.0 p (omega arith) (omega arith)) (omega arith) l

  -- An open breaker whose timeout is over closes again, with its counters at zero, after as many
  -- successful calls as the success threshold asks for, where the half-open limit allows as many.
  pub recovers :
      (c : Call E) (cs : List (Call E)) (cb : Breaker)
      → cb.state ≡ opened
      → cb.last_failure_time + cb.timeout ≤ c.at
      → All Succeeds (c ∷ cs)
      → length (c ∷ cs) ≡ cb.success_threshold
      → cb.success_threshold ≤ cb.half_open_limit
      → let last = drive (c ∷ cs) cb in
        (last.state ≡ closed)
        × (last.failures ≡ 0)
        × (last.successes ≡ 0)
        × (last.half_open_requests ≡ 0)
  unfolding drive
  recovers c [] cb st t s h l = only_probe c cb s.0 st t (omega arith) (omega arith)
  recovers c (d ∷ cs) cb st t s h l =
      finish-Probing cb.config 1 d cs (execute c.at c.until c.error cb).1 s.1
        (first_probe c cb s.0 st t (omega arith) (omega arith)) (omega arith) l

  keep-Probing :
      (config : Config) (n : ℕ) (cs : List (Call E)) (cb : Breaker)
      → All Succeeds cs
      → Probing config n cb
      → n + length cs ≡ config.half_open_limit
      → config.half_open_limit < config.success_threshold
      → Probing config config.half_open_limit (drive cs cb)
  unfolding drive
  keep-Probing config n [] cb s p h l = record {
    same_config = p.same_config;
    is_half_open = p.is_half_open;
    all_admitted = omega arith;
    all_succeeded = omega arith;
  }
  keep-Probing config n (c ∷ cs) cb s p h l =
      keep-Probing config (n + 1) cs (execute c.at c.until c.error cb).1 s.1
        (more_probe config n c cb s.0 p (omega arith) (omega arith)) (omega arith) l

  exhausted_run :
      (cs : List (Call E)) (cb : Breaker)
      → cb.state ≡ half_open
      → cb.half_open_limit ≤ cb.half_open_requests
      → (drive cs cb ≡ cb) × All (λ o. o ≡ rejected half_open_limit_reached) (outcomes cs cb)
  unfolding drive outcomes
  exhausted_run [] cb st l = (refl, tt)
  exhausted_run (c ∷ cs) cb st l =
      rw (exhausted c cb st l) (let r = exhausted_run cs cb st l in (r.0, (refl, r.1)))

  -- Where the half-open limit lies below the success threshold, a breaker that opened never closes
  -- again by calls: after as many successes as the limit allows it stays half-open and refuses
  -- every further call, at whatever time it comes and whatever its function would return.
  pub never_recovers :
      (c : Call E) (cs more : List (Call E)) (cb : Breaker)
      → cb.state ≡ opened
      → cb.last_failure_time + cb.timeout ≤ c.at
      → All Succeeds (c ∷ cs)
      → length (c ∷ cs) ≡ cb.half_open_limit
      → cb.half_open_limit < cb.success_threshold
      → let stuck = drive (c ∷ cs) cb in
        (stuck.state ≡ half_open)
        × (drive more stuck ≡ stuck)
        × All (λ o. o ≡ rejected half_open_limit_reached) (outcomes more stuck)
  unfolding drive
  never_recovers c cs more cb st t s h l =
      let p =
        keep-Probing cb.config 1 cs (execute c.at c.until c.error cb).1 s.1
          (first_probe c cb s.0 st t (omega arith) (omega arith)) (omega arith) l in
      let r =
        exhausted_run more (drive cs (execute c.at c.until c.error cb).1) p.is_half_open
          (limit_reached cb.config _ p) in
      (p.is_half_open, r.0, r.1)
