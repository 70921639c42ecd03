-- ===== src/Sdk/Observer/Shielding.antt =====
-- The composite observer and observers that panic.
use birb_nest.Prelude.{◌≡◌, refl, ap, ◌∙◌, true, false, List, [], ◌∷◌, map}
use birb_nest.Sdk.Observer.{Event, Watcher, tell_all, recovers_in, composite}

module _ {S : Type 0} (watch : Watcher S) where
  told : (e : Event) (ss : List S) → tell_all true watch e ss ≡ (map (λ s. (watch e s).0) ss, false)
  unfolding tell_all
  told e [] = refl
  told e (s ∷ ss) = rw (told e ss) refl

  -- The start and the end of a request reach every observer of a composite one, whichever of them
  -- panic, and no panic leaves it.
  pub composite_shields :
      (e : Event) (ss : List S)
      → recovers_in e ≡ true
      → composite watch e ss ≡ (map (λ s. (watch e s).0) ss, false)
  unfolding composite
  composite_shields e ss h = ap (λ b. tell_all b watch e ss) h ∙ told e ss
