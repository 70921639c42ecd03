-- ===== src/Retry/Hedged.antt =====
-- sdk/retry.go: the hedged executor. What happens while it waits is given in its order: a request
-- ends, the timer fires, or the context is cancelled.
use birb_nest.Prelude.{
  ℕ, zero, suc, ◌+◌, ◌-◌, ◌≤◌, ◌≡◌, ◌∙◌, ap, false, Option, none, some, List, [], ◌∷◌, length, lit,
  leb, if◌then◌else◌, arith, All,
}
use birb_nest.Errors.{GoError, nil, is_nil, timed_out, wrap_error}

-- HedgedRequest
pub record HedgedRequest : Type 0 where
  pub max_requests : ℕ
  pub delay : ℕ

abbrev pub default_hedged_request : HedgedRequest
default_hedged_request = record { max_requests = 2; delay = 50_000_000 }

pub data Wait : Type 0 where
  answered : GoError → Wait
  timer : Wait
  cancelled : GoError → Wait

-- firstErr, resultsReceived, and how often the function is called.
pub record Hedge : Type 0 where
  pub first : GoError
  pub received : ℕ
  pub launched : ℕ

unfoldable pub note : GoError → Hedge → Hedge
unfolding is_nil
note e h = record h { first = if is_nil h.first then e else h.first; received = h.received + 1 }

unfoldable pub launch : Hedge → Hedge
launch h = record h { launched = h.launched + 1 }

unfoldable pub abandoned : ℕ → GoError → GoError
unfolding wrap_error
abandoned now e = wrap_error now e timed_out (lit "context canceled during hedged request")

-- The wait for the remaining results: what it returns, with how often the function was called;
-- none, while it waits.
unfoldable pub collect : ℕ → ℕ → List Wait → Hedge → Option (GoError × ℕ)
unfolding note abandoned
collect now max [] h = if leb max h.received then some (h.first, h.launched) else none
collect now max (answered e ∷ ws) h =
    let rest = collect now max ws (note e h) in
    if leb max h.received
    then some (h.first, h.launched)
    else if is_nil e
    then some (nil, h.launched)
    else rest
collect now max (timer ∷ ws) h = collect now max ws h
collect now max (cancelled e ∷ ws) h =
    if leb max h.received then some (h.first, h.launched) else some (abandoned now e, h.launched)

-- The loop that starts the further requests, each after a result or a delay.
unfoldable pub spread : ℕ → ℕ → ℕ → List Wait → Hedge → Option (GoError × ℕ)
unfolding collect note launch abandoned
spread now max zero ws h = collect now max ws h
spread now max (suc n) [] h = none
spread now max (suc n) (answered e ∷ ws) h =
    let rest = spread now max n ws (launch (note e h)) in
    if is_nil e then some (nil, h.launched) else rest
spread now max (suc n) (timer ∷ ws) h = spread now max n ws (launch h)
spread now max (suc n) (cancelled e ∷ ws) h = some (abandoned now e, h.launched)

-- One call alone.
unfoldable pub alone : List Wait → Option (GoError × ℕ)
alone [] = none
alone (answered e ∷ ws) = some (e, 1)
alone (_ ∷ ws) = alone ws

-- hedgedExecutor.Execute
unfoldable pub hedged_execute : HedgedRequest → ℕ → List Wait → Option (GoError × ℕ)
unfolding spread alone
hedged_execute c now ws =
    if leb c.max_requests 1
    then alone ws
    else spread now c.max_requests (c.max_requests - 1) ws
        (record { first = nil; received = 0; launched = 1 })

-- A request that fails, or the timer.
abbrev pub Failing : Wait → Type 0
Failing (answered e) = is_nil e ≡ false
Failing timer = Unit
Failing (cancelled e) = ⊥

abbrev pub answers : List Wait → ℕ
answers [] = 0
answers (answered e ∷ ws) = 1 + answers ws
answers (_ ∷ ws) = answers ws

-- The first error, after `e`.
abbrev pub first_error : GoError → List Wait → GoError
first_error e [] = e
first_error e (answered e' ∷ ws) = first_error (if is_nil e then e' else e) ws
first_error e (_ ∷ ws) = first_error e ws

collect-Failing :
    (now max : ℕ) (ws : List Wait) (h : Hedge)
    → All Failing ws
    → answers ws + h.received ≡ max
    → collect now max ws h ≡ some (first_error h.first ws, h.launched)
unfolding collect note
collect-Failing now max [] h a c = ground arith
collect-Failing now max (answered e ∷ ws) h a c =
    let ih = collect-Failing now max ws (note e h) a.1 (omega arith) in
    let l : leb max h.received ≡ false = ground arith in rw (l, a.0) ih
collect-Failing now max (timer ∷ ws) h a c = collect-Failing now max ws h a.1 c
collect-Failing now max (cancelled e ∷ ws) h a c = absurd a.0

spread-Failing :
    (now max n : ℕ) (ws : List Wait) (h : Hedge)
    → All Failing ws
    → answers ws + h.received ≡ max
    → n ≤ length ws
    → spread now max n ws h ≡ some (first_error h.first ws, n + h.launched)
unfolding spread note launch
spread-Failing now max zero ws h a c l =
    collect-Failing now max ws h a c ∙ ap (λ k. some (first_error h.first ws, k)) (omega arith)
spread-Failing now max (suc n) [] h a c l = absurd (omega arith)
spread-Failing now max (suc n) (answered e ∷ ws) h a c l = rw a.0 (
    spread-Failing now max n ws (launch (note e h)) a.1 (omega arith) (omega arith)
    ∙ ap (λ k. some (first_error (if is_nil h.first then e else h.first) ws, k)) (omega arith))
spread-Failing now max (suc n) (timer ∷ ws) h a c l =
    spread-Failing now max n ws (launch h) a.1 c (omega arith)
    ∙ ap (λ k. some (first_error h.first ws, k)) (omega arith)
spread-Failing now max (suc n) (cancelled e ∷ ws) h a c l = absurd a.0

answers_le : (ws : List Wait) → answers ws ≤ length ws
answers_le [] = omega arith
answers_le (answered e ∷ ws) = let ih = answers_le ws in omega arith
answers_le (timer ∷ ws) = let ih = answers_le ws in omega arith
answers_le (cancelled e ∷ ws) = let ih = answers_le ws in omega arith

-- With at least two requests, where only failing requests end and timers fire until as many have
-- ended as there may be requests: each of the `max_requests` is made, and the first error is
-- returned.
pub hedged_execute-Failing :
    (c : HedgedRequest) (now : ℕ) (ws : List Wait)
    → 2 ≤ c.max_requests
    → All Failing ws
    → answers ws ≡ c.max_requests
    → hedged_execute c now ws ≡ some (first_error nil ws, c.max_requests)
unfolding hedged_execute
hedged_execute-Failing c now ws two a n =
    let le = answers_le ws in
    let start : Hedge = record { first = nil; received = 0; launched = 1 } in
    let l : leb c.max_requests 1 ≡ false = ground arith in
    rw l (
      spread-Failing now c.max_requests (c.max_requests - 1) ws start a (omega arith) (omega arith)
      ∙ ap (λ k. some (first_error nil ws, k)) (omega arith))
