-- ===== src/Cache/Isolation.antt =====
-- What one tenant does leaves the entries of another as they were.
use birb_nest.Prelude.{
  ℕ, ◌≡◌, ◌≢◌, refl, ◌∙◌, false, Option, none, List, [], ◌∷◌, map, Text, text_eq, not-text_eq,
  arith,
}
use birb_nest.Prelude.Strings.{Free}
use birb_nest.Prelude.Maps.{Dict, lookup, lookup-insert}
use birb_nest.Keys.{KeyBuilder, separator}
use birb_nest.Keys.Ownership.{cache_key_injective}
use birb_nest.Instance.{Carried}
use birb_nest.Cache.{Bytes, Cache, IsCache, elem}
use birb_nest.Cache.Contextual.{key_in, instance_items, context_builder}
use birb_nest.Cache.ByContext

-- A call of the context cache.
pub data Call : Type 0 where
  get exists delete : Text → Call
  set : Text → Bytes → ℕ → Call
  get_multiple delete_multiple : List Text → Call
  set_multiple : Dict Bytes → ℕ → Call

module _ {S : Type 0} (c : Cache S) where
  -- The state after a call, whether it succeeds or not.
  unfoldable pub perform : Carried → Call → S → S
  perform ctx (get k) s = (ByContext.get c ctx k s).1
  perform ctx (exists k) s = (ByContext.exists c ctx k s).1
  perform ctx (delete k) s = (ByContext.delete c ctx k s).1
  perform ctx (set k v ttl) s = (ByContext.set c ctx k v ttl s).1
  perform ctx (get_multiple ks) s = (ByContext.get_multiple c ctx ks s).1
  perform ctx (delete_multiple ks) s = (ByContext.delete_multiple c ctx ks s).1
  perform ctx (set_multiple items ttl) s = (ByContext.set_multiple c ctx items ttl s).1

  unfoldable pub perform_all : Carried → List Call → S → S
  perform_all ctx [] s = s
  perform_all ctx (x ∷ xs) s = perform_all ctx xs (perform ctx x s)

-- No key of the builder becomes this one.
abbrev Foreign : KeyBuilder → Text → Type 0
Foreign kb j = (k : Text) → text_eq (key_in kb k) j ≡ false

Foreign-items :
    (kb : KeyBuilder) (j : Text) (items : Dict Bytes)
    → Foreign kb j
    → lookup j (instance_items kb items) ≡ none
unfolding instance_items lookup
Foreign-items kb j [] f = refl
Foreign-items kb j ((k, v) ∷ items) f = ground (
  arith,
  lookup-insert (key_in kb k) j v (instance_items kb items),
  f k,
  Foreign-items kb j items f,
)

Foreign-keys :
    (kb : KeyBuilder) (j : Text) (ks : List Text)
    → Foreign kb j
    → elem j (map (key_in kb) ks) ≡ false
unfolding elem
Foreign-keys kb j [] f = refl
Foreign-keys kb j (k ∷ ks) f = ground (arith, f k, Foreign-keys kb j ks f)

module _ {S : Type 0} (c : Cache S) {stored : S → Text → Option Bytes}
    (law : IsCache c stored) where
  perform-Foreign :
      (ctx : Carried) (x : Call) (s : S) (j : Text)
      → Foreign (context_builder ctx) j
      → stored (perform c ctx x s) j ≡ stored s j
  unfolding perform ByContext.get ByContext.set ByContext.delete ByContext.exists
      ByContext.get_multiple ByContext.set_multiple ByContext.delete_multiple
  perform-Foreign ctx (get k) s j f = law.get_keeps _ j s
  perform-Foreign ctx (exists k) s j f = law.exists_keeps _ j s
  perform-Foreign ctx (delete k) s j f = law.delete_other _ j s (f k)
  perform-Foreign ctx (set k v ttl) s j f = law.set_other _ j v ttl s (f k)
  perform-Foreign ctx (get_multiple ks) s j f =
      ground (arith, law.get_multiple_keeps (map (key_in (context_builder ctx)) ks) j s)
  perform-Foreign ctx (delete_multiple ks) s j f =
      law.delete_multiple_other _ j s (Foreign-keys (context_builder ctx) j ks f)
  perform-Foreign ctx (set_multiple items ttl) s j f =
      law.set_multiple_other _ ttl j s (Foreign-items (context_builder ctx) j items f)

  perform_all-Foreign :
      (ctx : Carried) (xs : List Call) (s : S) (j : Text)
      → Foreign (context_builder ctx) j
      → stored (perform_all c ctx xs s) j ≡ stored s j
  unfolding perform_all
  perform_all-Foreign ctx [] s j f = refl
  perform_all-Foreign ctx (x ∷ xs) s j f =
      perform_all-Foreign ctx xs (perform c ctx x s) j f ∙ perform-Foreign ctx x s j f

  -- Whatever calls one tenant makes through the context cache, failing ones included, every entry
  -- of another tenant is stored as before, where neither ID holds the separator.
  pub perform_all-other_tenant :
      (a b : Carried) (xs : List Call) (s : S) (k : Text)
      → Free separator (context_builder a).instance_id
      → Free separator (context_builder b).instance_id
      → (context_builder a).instance_id ≢ (context_builder b).instance_id
      → stored (perform_all c a xs s) (key_in (context_builder b) k)
        ≡ stored s (key_in (context_builder b) k)
  perform_all-other_tenant a b xs s k fa fb ne =
      perform_all-Foreign a xs s (key_in (context_builder b) k) λ j.
        not-text_eq _ _
          λ e. ne (cache_key_injective (context_builder a) (context_builder b) j k fa fb e).0
