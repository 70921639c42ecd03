-- ===== src/Cache/ByInstance.antt =====
-- internal/cache/instance_cache.go: InstanceCache, given its client and its key builder.
use birb_nest.Prelude.{ℕ, Bool, List, Text}
use birb_nest.Prelude.Maps.{Dict}
use birb_nest.Keys.{KeyBuilder}
use birb_nest.Instance.{Carried}
use birb_nest.Cache.{Bytes, Result, Done, Cache}
use birb_nest.Cache.Contextual.{
  get_by, set_by, delete_by, exists_by, get_multiple_by, set_multiple_by, delete_multiple_by,
  override_builder,
}

module _ {S : Type 0} where
  unfoldable pub get_with_context : Cache S → KeyBuilder → Carried → Text → S → Result Bytes × S
  unfolding get_by override_builder
  get_with_context c own ctx key s = get_by c (override_builder own ctx) key s

  unfoldable pub set_with_context : Cache S → KeyBuilder → Carried → Text → Bytes → ℕ → S → Done × S
  unfolding set_by override_builder
  set_with_context c own ctx key v ttl s = set_by c (override_builder own ctx) key v ttl s

  unfoldable pub delete_with_context : Cache S → KeyBuilder → Carried → Text → S → Done × S
  unfolding delete_by override_builder
  delete_with_context c own ctx key s = delete_by c (override_builder own ctx) key s

  unfoldable pub exists_with_context : Cache S → KeyBuilder → Carried → Text → S → Result Bool × S
  unfolding exists_by override_builder
  exists_with_context c own ctx key s = exists_by c (override_builder own ctx) key s

  -- The methods without a context.
  unfoldable pub get : Cache S → KeyBuilder → Text → S → Result Bytes × S
  unfolding get_by
  get c own key s = get_by c own key s

  unfoldable pub set : Cache S → KeyBuilder → Text → Bytes → ℕ → S → Done × S
  unfolding set_by
  set c own key v ttl s = set_by c own key v ttl s

  unfoldable pub delete : Cache S → KeyBuilder → Text → S → Done × S
  unfolding delete_by
  delete c own key s = delete_by c own key s

  unfoldable pub exists : Cache S → KeyBuilder → Text → S → Result Bool × S
  unfolding exists_by
  exists c own key s = exists_by c own key s

  unfoldable pub get_multiple : Cache S → KeyBuilder → List Text → S → Result (Dict Bytes) × S
  unfolding get_multiple_by
  get_multiple c own keys s = get_multiple_by c own keys s

  unfoldable pub set_multiple : Cache S → KeyBuilder → Dict Bytes → ℕ → S → Done × S
  unfolding set_multiple_by
  set_multiple c own items ttl s = set_multiple_by c own items ttl s

  unfoldable pub delete_multiple : Cache S → KeyBuilder → List Text → S → Done × S
  unfolding delete_multiple_by
  delete_multiple c own keys s = delete_multiple_by c own keys s
