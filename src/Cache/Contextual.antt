-- ===== src/Cache/Contextual.antt =====
-- internal/cache/instance_cache.go: ContextCache, which takes the tenant from the context, and
-- InstanceCache, which is made for one tenant.
use birb_nest.Prelude.{
  ℕ, Bool, Option, none, some, List, [], ◌∷◌, map, Text, lit, text_eq, if◌then◌else◌,
}
use birb_nest.Prelude.Maps.{Dict, lookup, insert}
use birb_nest.Keys.{KeyBuilder, new_key_builder, cache_key}
use birb_nest.Instance.{Carried, extract_instance_id}
use birb_nest.Cache.{Bytes, Result, ok, err, Done, Cache}

-- kb.CacheKey(key), for one component
abbrev pub key_in : KeyBuilder → Text → Text
key_in kb key = cache_key kb (key ∷ [])

-- The map from instance keys to the original keys. A later key would overwrite an earlier one.
unfoldable pub key_map : KeyBuilder → List Text → Dict Text → Dict Text
key_map kb [] m = m
key_map kb (key ∷ keys) m = key_map kb keys (insert (key_in kb key) key m)

-- The results under the original keys. A Go map has each key once.
restore_one : Option Text → Bytes → Dict Bytes → Dict Bytes
restore_one none v rest = rest
restore_one (some key) v rest = insert key v rest

unfoldable pub restore_keys : Dict Text → Dict Bytes → Dict Bytes
unfolding restore_one
restore_keys m [] = []
restore_keys m ((k, v) ∷ results) = restore_one (lookup k m) v (restore_keys m results)

-- The items under their instance keys.
unfoldable pub instance_items : KeyBuilder → Dict Bytes → Dict Bytes
instance_items kb [] = []
instance_items kb ((k, v) ∷ items) = insert (key_in kb k) v (instance_items kb items)

module _ {S : Type 0} where
  restored : Dict Text → Result (Dict Bytes) × S → Result (Dict Bytes) × S
  unfolding restore_keys
  restored m (ok r, s) = (ok (restore_keys m r), s)
  restored m (err e, s) = (err e, s)

  -- The operations under a key builder, as both caches perform them.
  unfoldable pub get_by : Cache S → KeyBuilder → Text → S → Result Bytes × S
  get_by c kb key s = c.get (key_in kb key) s

  unfoldable pub set_by : Cache S → KeyBuilder → Text → Bytes → ℕ → S → Done × S
  set_by c kb key v ttl s = c.set (key_in kb key) v ttl s

  unfoldable pub delete_by : Cache S → KeyBuilder → Text → S → Done × S
  delete_by c kb key s = c.delete (key_in kb key) s

  unfoldable pub exists_by : Cache S → KeyBuilder → Text → S → Result Bool × S
  exists_by c kb key s = c.exists (key_in kb key) s

  unfoldable pub get_multiple_by : Cache S → KeyBuilder → List Text → S → Result (Dict Bytes) × S
  unfolding restored key_map
  get_multiple_by c kb keys s =
      restored (key_map kb keys []) (c.get_multiple (map (key_in kb) keys) s)

  unfoldable pub set_multiple_by : Cache S → KeyBuilder → Dict Bytes → ℕ → S → Done × S
  unfolding instance_items
  set_multiple_by c kb items ttl s = c.set_multiple (instance_items kb items) ttl s

  unfoldable pub delete_multiple_by : Cache S → KeyBuilder → List Text → S → Done × S
  delete_multiple_by c kb keys s = c.delete_multiple (map (key_in kb) keys) s

-- The tenant of ContextCache: that of the context, and "global" if there is none.
or_global : Text → Text
or_global id = if text_eq id [] then lit "global" else id

unfoldable pub context_builder : Carried → KeyBuilder
unfolding or_global extract_instance_id
context_builder ctx = new_key_builder (or_global (extract_instance_id ctx))

-- The tenant of InstanceCache's methods with a context: that of the context, and its own if there
-- is none.
unfoldable pub override_builder : KeyBuilder → Carried → KeyBuilder
unfolding extract_instance_id
override_builder own ctx =
    let id = extract_instance_id ctx in
    new_key_builder (if text_eq id [] then own.instance_id else id)
