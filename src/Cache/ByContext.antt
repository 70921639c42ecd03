-- ===== src/Cache/ByContext.antt =====
-- internal/cache/instance_cache.go: ContextCache.
use birb_nest.Prelude.{ℕ, Bool, List, Text}
use birb_nest.Prelude.Maps.{Dict}
use birb_nest.Instance.{Carried}
use birb_nest.Cache.{Bytes, Result, Done, Cache}
use birb_nest.Cache.Contextual.{
  get_by, set_by, delete_by, exists_by, get_multiple_by, set_multiple_by, delete_multiple_by,
  context_builder,
}

module _ {S : Type 0} where
  unfoldable pub get : Cache S → Carried → Text → S → Result Bytes × S
  unfolding get_by context_builder
  get c ctx key s = get_by c (context_builder ctx) key s

  unfoldable pub set : Cache S → Carried → Text → Bytes → ℕ → S → Done × S
  unfolding set_by context_builder
  set c ctx key v ttl s = set_by c (context_builder ctx) key v ttl s

  unfoldable pub delete : Cache S → Carried → Text → S → Done × S
  unfolding delete_by context_builder
  delete c ctx key s = delete_by c (context_builder ctx) key s

  unfoldable pub exists : Cache S → Carried → Text → S → Result Bool × S
  unfolding exists_by context_builder
  exists c ctx key s = exists_by c (context_builder ctx) key s

  unfoldable pub get_multiple : Cache S → Carried → List Text → S → Result (Dict Bytes) × S
  unfolding get_multiple_by context_builder
  get_multiple c ctx keys s = get_multiple_by c (context_builder ctx) keys s

  unfoldable pub set_multiple : Cache S → Carried → Dict Bytes → ℕ → S → Done × S
  unfolding set_multiple_by context_builder
  set_multiple c ctx items ttl s = set_multiple_by c (context_builder ctx) items ttl s

  unfoldable pub delete_multiple : Cache S → Carried → List Text → S → Done × S
  unfolding delete_multiple_by context_builder
  delete_multiple c ctx keys s = delete_multiple_by c (context_builder ctx) keys s
