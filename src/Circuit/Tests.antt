-- ===== src/Circuit/Tests.antt =====
-- The circuit breaker at concrete inputs.
use birb_nest.Prelude.{
  ℕ, ◌+◌, ◌≡◌, refl, true, Option, none, some, [], ◌∷◌, lit, arith, All, text_eq, if◌then◌else◌,
}
use birb_nest.Prelude.Maps.{lookup}
use birb_nest.Circuit.{
  closed, opened, half_open, Config, Breaker, new_breaker, circuit_open, half_open_limit_reached,
  rejected, ran, execute, admit, record_result,
}
use birb_nest.Circuit.Invariant.{
  System, IsValid, Step, start, finish, here, next, fresh, Reach-IsValid,
}
use birb_nest.Circuit.Opening.{Call, drive, outcomes, opens_at_threshold, drive_open}
use birb_nest.Circuit.Recovery.{recovers, never_recovers}
use birb_nest.Circuit.Endpoints.{
  Manager, new_manager, execute_at, execute_at_lem, serving, create_locked, create_locked_agree,
}

abbrev small : Config
small = record { failure_threshold = 2; success_threshold = 2; timeout = 30; half_open_limit = 3 }

-- The half-open limit is below the success threshold.
abbrev tight : Config
tight = record small { half_open_limit = 1 }

abbrev failing : ℕ → Call ℕ
failing t = record { at = t; until = t + 1; error = some 7 }

abbrev working : ℕ → Call ℕ
working t = record { at = t; until = t + 1; error = none }

abbrev open_breaker : Config → Breaker
open_breaker c = record {
  config = c;
  state = opened;
  failures = 0;
  successes = 0;
  half_open_requests = 0;
  last_failure_time = 12;
  last_state_change = 12;
}

opens : drive (failing 10 ∷ failing 11 ∷ []) (new_breaker 5 small) ≡ open_breaker small
unfolding drive execute new_breaker
opens = refl

outcomes_of_run :
    outcomes (failing 10 ∷ failing 11 ∷ working 20 ∷ working 50 ∷ []) (new_breaker 5 small)
    ≡ ran (some 7) ∷ ran (some 7) ∷ rejected circuit_open ∷ ran none ∷ []
unfolding outcomes execute new_breaker
outcomes_of_run = refl

opens_at_threshold_example :
    ((drive (failing 10 ∷ []) (new_breaker 5 small)).state ≡ closed)
    × ((drive (failing 10 ∷ failing 11 ∷ []) (new_breaker 5 small)).state ≡ opened)
    × ((drive (failing 10 ∷ failing 11 ∷ []) (new_breaker 5 small)).last_failure_time ≡ 12)
unfolding new_breaker
opens_at_threshold_example =
    opens_at_threshold (failing 10 ∷ []) (failing 11) (new_breaker 5 small) ((7, refl), tt)
      (7, refl) refl refl

drive_open_example :
    (drive (working 20 ∷ failing 41 ∷ []) (open_breaker small) ≡ open_breaker small)
    × All
        (λ o. o ≡ rejected circuit_open)
        (outcomes (working 20 ∷ failing 41 ∷ []) (open_breaker small))
drive_open_example =
    drive_open (working 20 ∷ failing 41 ∷ []) (open_breaker small) refl (omega arith)

recovers_example :
    let last = drive (working 42 ∷ working 50 ∷ []) (open_breaker small) in
    (last.state ≡ closed)
    × (last.failures ≡ 0)
    × (last.successes ≡ 0)
    × (last.half_open_requests ≡ 0)
recovers_example =
    recovers (working 42) (working 50 ∷ []) (open_breaker small) refl (omega arith)
      (refl, (refl, tt)) refl (omega arith)

never_recovers_example :
    let stuck = drive (working 42 ∷ []) (open_breaker tight) in
    (stuck.state ≡ half_open)
    × (drive (working 1000 ∷ failing 2000 ∷ []) stuck ≡ stuck)
    × All
        (λ o. o ≡ rejected half_open_limit_reached)
        (outcomes (working 1000 ∷ failing 2000 ∷ []) stuck)
never_recovers_example =
    never_recovers (working 42) [] (working 1000 ∷ failing 2000 ∷ []) (open_breaker tight) refl
      (omega arith) (refl, tt) refl (omega arith)

-- A request starts, time passes, and its failure is recorded.
abbrev started : System
started = record (fresh 5 small) { running = 1 }

abbrev later : System
later = record started { now = 9 }

starts :
    Step
      (fresh 5 small)
      (record (fresh 5 small) { breaker = (admit 5 (new_breaker 5 small)).1; running = 1 })
unfolding admit new_breaker
starts = start (fresh 5 small) refl

fails :
    Step started
      (record started { breaker = record_result 5 true (new_breaker 5 small); running = 0 })
fails = finish started true 0 refl

Reach-IsValid_example :
    IsValid (record (fresh 5 small) { breaker = (admit 5 (new_breaker 5 small)).1; running = 1 })
Reach-IsValid_example = Reach-IsValid 5 small (next here starts)

abbrev broken : Option ℕ
broken = some 7

abbrev manager : Manager
manager = new_manager small

execute_at_lem_example :
    ((execute_at (lit "GET /a") 3 4 broken manager).0
      ≡ (execute 3 4 broken (serving 3 (lit "GET /a") manager)).0)
    × (lookup (lit "GET /b") (execute_at (lit "GET /a") 3 4 broken manager).1.breakers ≡ (
        if text_eq (lit "GET /a") (lit "GET /b")
        then some (execute 3 4 broken (serving 3 (lit "GET /a") manager)).1
        else lookup (lit "GET /b") manager.breakers))
execute_at_lem_example = execute_at_lem (lit "GET /a") (lit "GET /b") 3 4 broken manager

create_locked_agree_run :
    create_locked 4 (lit "GET /a") (create_locked 3 (lit "GET /a") manager).1
    ≡ create_locked 3 (lit "GET /a") manager
create_locked_agree_run = create_locked_agree (lit "GET /a") 3 4 manager
