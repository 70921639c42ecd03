-- ===== src/Sdk/Ending.antt =====
-- Requests of a client made by NewClient end.
use birb_nest.Prelude.{
  ℕ, ◌+◌, ◌≡◌, ◌<◌, refl, sym, ◌∙◌, ap, Bool, true, false, ◌||◌, ◌⊎◌, inl, inr, none, some, Text,
  text_eq, arith, [], Bool-cases, if◌then◌else◌,
}
use birb_nest.Prelude.Int.{ℤ, pos, negsuc}
use birb_nest.Errors.{GoError, nil, sentinel, invalid_config}
use birb_nest.Retry.{Floats, Strategy, exponential, budget_of, RetryBudget}
use birb_nest.Retry
use birb_nest.Retry.Attempts.{execute_bounded}
use birb_nest.Sdk.{Wire, Request}
use birb_nest.Sdk.Transport.{Answer, Attempt, Breaking, trial, last_answer, execute_request}
use birb_nest.Sdk.Client.{Client}
use birb_nest.Sdk.Config.{Config, validate, checked, not_negative}
use birb_nest.Sdk.Setup.{
  natural, plus_one, hosted, based, made, chosen_strategy, transport_of, validated, given,
  new_client,
}

hosted_result : {R : Type 0} (b : Bool) (r r' : R) → hosted b r ≡ inr r' → r ≡ r'
unfolding hosted
hosted_result true r r' h = ground arith
hosted_result false r r' h = cc

based_result :
    {R : Type 0} (b : Bool) (url : Text ⊎ (Text × Text)) (r r' : R)
    → based b url r ≡ inr r'
    → r ≡ r'
unfolding based
based_result true url r r' h = ground arith
based_result false (inl e) r r' h = ground arith
based_result false (inr (scheme, host)) r r' h =
    hosted_result (text_eq scheme [] || text_eq host []) r r' h

made_result :
    {F : Type 0} (o : GoError ⊎ (Breaking × Strategy F)) (c : Client) (b : Breaking)
    (s : Strategy F)
    → made o ≡ inr (c, b, s)
    → o ≡ inr (b, s)
unfolding made
made_result (inl e) c b s h = ground arith
made_result (inr (b', s')) c b s h = cc

-- Below the largest int, one more does not wrap.
plus_one-natural :
    (n : ℤ)
    → natural (not_negative n) + 1 < 9_223_372_036_854_775_808
    → plus_one (not_negative n) ≡ natural (not_negative n) + 1
unfolding plus_one not_negative natural
plus_one-natural (pos n) h = ground arith
plus_one-natural (negsuc n) h = ground arith

module _ {F O H : Type 0} (parsed : Text → Text ⊎ (Text × Text)) (le_one : F → Bool)
    (two jitter : F) (quiet : O) (now : ℕ) where
  made_of : Config F O H → GoError ⊎ (Client × Breaking × Strategy F)
  made_of c = made (transport_of parsed jitter now (checked le_one two quiet c))

  validated_result :
      (c : Config F O H) (r : Client × Breaking × Strategy F)
      → new_client parsed le_one two jitter quiet now (some c) ≡ inr r
      → made_of c ≡ inr r
  unfolding new_client given validate validated made_of
  validated_result c r h = elim (Bool-cases (text_eq c.base_url [])) [
    | inl e ↦ absurd (
        ground (
          arith,
          sym (
                ap
                  (λ x.
                    validated parsed jitter now (
                      if x
                      then (sentinel invalid_config, c)
                      else (nil, checked le_one two quiet c)))
                  e)
              ∙ h,
        ))
    | inr e ↦
        sym (
          ap
            (λ x.
              validated parsed jitter now
                (if x then (sentinel invalid_config, c) else (nil, checked le_one two quiet c)))
            e)
        ∙ h
  ]

  -- The strategy of a client whose configuration has none of its own.
  new_client-strategy :
      (c : Config F O H) (cl : Client) (b : Breaking) (s : Strategy F)
      → c.retry_strategy ≡ none
      → new_client parsed le_one two jitter quiet now (some c) ≡ inr (cl, b, s)
      → chosen_strategy jitter none (checked le_one two quiet c) ≡ s
  unfolding made_of transport_of checked
  new_client-strategy c cl b s own h =
      let q = made_result _ cl b s (validated_result c (cl, b, s) h) in
      let p = based_result _ _ _ (b, s) q in
      sym (ap (λ o. chosen_strategy jitter o (checked le_one two quiet c)) own) ∙ ap (λ x. x.1) p

  new_client-budget :
      (c : Config F O H) (cl : Client) (b : Breaking) (s : Strategy F)
      → c.retry_strategy ≡ none
      → new_client parsed le_one two jitter quiet now (some c) ≡ inr (cl, b, s)
      → (k : RetryBudget) × (budget_of s ≡ some k)
        × (k.max_attempts ≡ plus_one (not_negative c.retry_config.max_retries))
  unfolding chosen_strategy budget_of checked
  new_client-budget c cl b s own h =
      (_, sym (ap budget_of (new_client-strategy c cl b s own h)), refl)

module _ (fl : Floats) (wire : Wire) where
  open fl use {Float}

  answered_some :
      (s : Strategy Float) (start fuel : ℕ) (attempts : ℕ → Attempt Float) (r : Request)
      (e : GoError × ℕ)
      → Retry.execute fl s start (λ n. trial fl wire r (attempts n)) fuel 0 ≡ some e
      → execute_request fl wire s start attempts fuel r ≡ some (last_answer fl wire r attempts e)
  unfolding execute_request
  answered_some s start fuel attempts r e h =
      ap (λ o. elim o [ none ↦ none | some x ↦ some (last_answer fl wire r attempts x) ]) h

  -- Every request of a client that NewClient makes of a configuration without a retry strategy of
  -- its own, whose MaxRetries is below the largest int, ends, with an answer or an error, after at most one attempt more than MaxRetries, a
  -- negative MaxRetries counting as 0, whatever the server, the network and the context do.
  pub new_client_ends :
      {O H : Type 0} (parsed : Text → Text ⊎ (Text × Text)) (le_one : Float → Bool)
      (two jitter : Float) (quiet : O) (now : ℕ) (c : Config Float O H) (cl : Client) (b : Breaking)
      (s : Strategy Float) (start : ℕ) (attempts : ℕ → Attempt Float) (r : Request)
      → c.retry_strategy ≡ none
      → natural (not_negative c.retry_config.max_retries) + 1 < 9_223_372_036_854_775_808
      → new_client parsed le_one two jitter quiet now (some c) ≡ inr (cl, b, s)
      → (a : Answer) × (execute_request fl wire s start attempts
            (natural (not_negative c.retry_config.max_retries) + 1)
            r
          ≡ some a)
  unfolding plus_one natural not_negative
  new_client_ends parsed le_one two jitter quiet now c cl b s start attempts r own small h =
      let (k, e, m) = new_client-budget parsed le_one two jitter quiet now c cl b s own h in
      let fuel = natural (not_negative c.retry_config.max_retries) + 1 in
      let p = m ∙ plus_one-natural c.retry_config.max_retries small in
      let (d, q, l, u) =
        execute_bounded fl s k start (λ i. trial fl wire r (attempts i)) fuel 0 e (omega arith)
          (omega arith) (omega arith) in
      (last_answer fl wire r attempts d, answered_some s start fuel attempts r d q)
