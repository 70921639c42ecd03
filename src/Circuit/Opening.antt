-- ===== src/Circuit/Opening.antt =====
-- How a breaker opens, and how it refuses calls while it is open.
use birb_nest.Prelude.{
  ℕ, ◌+◌, ◌≤◌, ◌<◌, ◌≡◌, refl, arith, Option, none, some, List, [], ◌∷◌, ◌++◌, length, All,
}
use birb_nest.Circuit.{closed, opened, Breaker, circuit_open, execute, Outcome, rejected}

-- A call of Execute by a lone caller: when it starts, when the function returns, and what.
pub record Call (E : Type 0) : Type 0 where
  pub at : ℕ
  pub until : ℕ
  pub error : Option E

module _ {E : Type 0} where
  -- Calls one after the other.
  unfoldable pub drive : List (Call E) → Breaker → Breaker
  drive [] cb = cb
  drive (c ∷ cs) cb = drive cs (execute c.at c.until c.error cb).1

  abbrev pub Fails : Call E → Type 0
  Fails c = (e : E) × (c.error ≡ some e)

  abbrev pub Succeeds : Call E → Type 0
  Succeeds c = c.error ≡ none

  fail_step :
      (c : Call E) (cb : Breaker)
      → Fails c
      → cb.state ≡ closed
      → cb.failures + 1 < cb.failure_threshold
      → let next = (execute c.at c.until c.error cb).1 in
        (next.state ≡ closed)
        × (next.failures ≡ cb.failures + 1)
        × (next.failure_threshold ≡ cb.failure_threshold)
  unfolding execute
  fail_step c cb f st h = ground arith

  fail_last :
      (c : Call E) (cb : Breaker)
      → Fails c
      → cb.state ≡ closed
      → cb.failure_threshold ≤ cb.failures + 1
      → let next = (execute c.at c.until c.error cb).1 in
        (next.state ≡ opened) × (next.last_failure_time ≡ c.until)
  unfolding execute
  fail_last c cb f st h = ground arith

  drive-append :
      (cs : List (Call E)) (c : Call E) (cb : Breaker)
      → drive (cs ++ c ∷ []) cb ≡ (execute c.at c.until c.error (drive cs cb)).1
  unfolding drive
  drive-append [] c cb = refl
  drive-append (d ∷ cs) c cb = drive-append cs c (execute d.at d.until d.error cb).1

  below_threshold :
      (cs : List (Call E)) (cb : Breaker)
      → All Fails cs
      → cb.state ≡ closed
      → cb.failures + length cs < cb.failure_threshold
      → let last = drive cs cb in
        (last.state ≡ closed)
        × (last.failures ≡ cb.failures + length cs)
        × (last.failure_threshold ≡ cb.failure_threshold)
  unfolding drive
  below_threshold [] cb fs st h = (st, omega arith, refl)
  below_threshold (c ∷ cs) cb fs st h =
      let f = fail_step c cb fs.0 st (omega arith) in
      let r = below_threshold cs (execute c.at c.until c.error cb).1 fs.1 f.0 (omega arith) in
      (r.0, omega arith, omega arith)

  -- From the closed state, failing calls one after the other leave the breaker closed as long as
  -- the failures stay below the threshold, and the one that reaches it opens the breaker and
  -- starts the timeout.
  pub opens_at_threshold :
      (cs : List (Call E)) (c : Call E) (cb : Breaker)
      → All Fails cs
      → Fails c
      → cb.state ≡ closed
      → cb.failures + length cs + 1 ≡ cb.failure_threshold
      → ((drive cs cb).state ≡ closed)
        × ((drive (cs ++ c ∷ []) cb).state ≡ opened)
        × ((drive (cs ++ c ∷ []) cb).last_failure_time ≡ c.until)
  opens_at_threshold cs c cb fs f st h =
      let r = below_threshold cs cb fs st (omega arith) in
      let l = fail_last c (drive cs cb) f r.0 (omega arith) in
      (r.0, rw (drive-append cs c cb) l.0, rw (drive-append cs c cb) l.1)

  -- What the calls return.
  unfoldable pub outcomes : List (Call E) → Breaker → List (Outcome E)
  outcomes [] cb = []
  outcomes (c ∷ cs) cb = let (o, cb') = execute c.at c.until c.error cb in o ∷ outcomes cs cb'

  execute_open :
      (c : Call E) (cb : Breaker)
      → cb.state ≡ opened
      → c.at < cb.last_failure_time + cb.timeout
      → execute c.at c.until c.error cb ≡ (rejected circuit_open, cb)
  unfolding execute
  execute_open c cb st h = ground arith

  -- Calls that start before an open breaker's timeout is over are all refused without a call of
  -- their functions, and they leave the breaker as it was.
  pub drive_open :
      (cs : List (Call E)) (cb : Breaker)
      → cb.state ≡ opened
      → All (λ c. c.at < cb.last_failure_time + cb.timeout) cs
      → (drive cs cb ≡ cb) × All (λ o. o ≡ rejected circuit_open) (outcomes cs cb)
  unfolding drive outcomes
  drive_open [] cb st h = (refl, tt)
  drive_open (c ∷ cs) cb st h =
      rw (execute_open c cb st h.0) (let r = drive_open cs cb st h.1 in (r.0, (refl, r.1)))
