-- ===== src/Registry/Tests.antt =====
-- The registry at concrete inputs: two instances over the store and form of Forms.
use birb_nest.Prelude.{◌≡◌, ◌≢◌, refl, none, some, inl, inr, [], arith, lit, text_eq}
use birb_nest.Prelude.Maps.{Dict, lookup, insert, remove}
use birb_nest.Cache.{Bytes}
use birb_nest.Instance.{Context, new_context, update_last_active, status_paused, validate, clone}
use birb_nest.Registry.{
  Registry, new_registry, build_key, register, get, get_or_create, update, delete, touch,
  should_update_activity, refresh_read, refresh_write, get_from_mem_cache, update_mem_cache,
}
use birb_nest.Registry.Forms.{plain, plain-RoundTrips, dict_store, dict_store-IsStore}
use birb_nest.Registry.Laws.{
  get-register, get-register_restarted, get-delete, update_keeps_created_at,
}
use birb_nest.Registry.Named.{StoreNames}
use birb_nest.Registry.Steps.{
  System, started, call, Reach, here, next, do_register, perform, begin_fetch, begin_delete, forget,
  fetch_starts, delete_starts, forgets,
}
use birb_nest.Registry.Identity.{OfItsId, get_or_create-id}
use birb_nest.Prelude.{All, Text, ℕ}
use birb_nest.Registry.Activity.{touch_throttled}
use birb_nest.Registry.Refresh.{refresh_resurrects}

abbrev arena : Context
arena = new_context 100 (lit "arena")

abbrev empty_registry : Registry (Dict Bytes)
empty_registry = new_registry []

abbrev with_arena : Registry (Dict Bytes)
with_arena = (register plain dict_store 200 arena empty_registry).2

get-register_example :
    get plain dict_store 250 (lit "arena") with_arena
    ≡ (inr (update_last_active 200 arena), with_arena)
unfolding new_context register validate text_eq
get-register_example = get-register plain dict_store 200 250 arena empty_registry refl (omega arith)

get-register_restarted_run :
    (get plain dict_store 900 (lit "arena") (new_registry with_arena.world)).0
    ≡ inr (update_last_active 200 arena)
unfolding new_context register validate text_eq build_key lookup update_last_active insert
    new_registry
get-register_restarted_run =
    get-register_restarted plain dict_store dict_store-IsStore 200 900 arena empty_registry _
      plain-RoundTrips refl refl

update_keeps_created_at_example :
    (get plain dict_store 400
      (lit "arena")
      (update plain dict_store 300
        (record arena { created_at = 7; status = status_paused })
        with_arena).2).0
    ≡ inr (update_last_active 300 (record arena { created_at = 100; status = status_paused }))
unfolding new_context register validate text_eq update get get_from_mem_cache update_mem_cache
    update_last_active clone insert lookup new_registry
update_keeps_created_at_example =
    update_keeps_created_at plain dict_store 300 400
      (record arena { created_at = 7; status = status_paused }) (update_last_active 200 arena)
      with_arena refl refl (omega arith)

get-delete_example :
    (get plain dict_store 900 (lit "arena") (delete plain dict_store (lit "arena") with_arena).1).0
    ≢ inr arena
unfolding new_context register validate text_eq delete
get-delete_example =
    get-delete plain dict_store dict_store-IsStore 900 (lit "arena") arena with_arena refl

touch_throttled_run :
    touch plain dict_store 700 (lit "arena") (touch plain dict_store 600 (lit "arena") with_arena).1
    ≡ (none, (touch plain dict_store 600 (lit "arena") with_arena).1)
unfolding new_context register validate text_eq should_update_activity lookup new_registry
touch_throttled_run =
    touch_throttled plain dict_store 600 700 (lit "arena") with_arena refl (omega arith)

-- The bytes of the instance in the store, and what they stand for.
abbrev old_bytes : Bytes
old_bytes = elim (lookup (build_key (lit "arena")) with_arena.world) [ none ↦ [] | some b ↦ b ]

abbrev old_context : Context
old_context = elim (plain.unmarshal old_bytes) [ inl e ↦ arena | inr c ↦ c ]

abbrev refreshing : Registry (Dict Bytes)
refreshing = record with_arena {
  world = (refresh_read plain dict_store (lit "arena") with_arena.world).1;
}

abbrev refreshed : Registry (Dict Bytes)
refreshed = record ((delete plain dict_store (lit "arena") refreshing).1) {
  world =
      refresh_write plain dict_store (lit "arena")
        (refresh_read plain dict_store (lit "arena") with_arena.world).0
        (delete plain dict_store (lit "arena") refreshing).1.world;
}

refresh_resurrects_example :
    (lookup (build_key (lit "arena")) with_arena.world ≡ some old_bytes)
    × (lookup (build_key (lit "arena")) (delete plain dict_store (lit "arena") refreshing).1.world
        ≡ none)
    × (lookup (build_key (lit "arena")) refreshed.world ≡ some old_bytes)
    × ((v : Bytes)
        → (dict_store.get (build_key (lit "arena")) refreshed.world).0 ≡ inr v
        → (get plain dict_store 900 (lit "arena") refreshed).0 ≡ inr old_context)
unfolding new_context register validate text_eq delete refresh_write build_key insert lookup remove
    new_registry update_last_active refresh_read
refresh_resurrects_example =
    refresh_resurrects plain dict_store dict_store-IsStore 900 (lit "arena") old_bytes old_context
      with_arena refl refl refl refl

-- Another instance is registered; it is deleted while a Get has it from the store and has not yet
-- put it into the memory cache.
abbrev registered : System (Dict Bytes)
registered = record (started []) {
  registry =
      perform plain dict_store (do_register 200 (new_context 150 (lit "hall"))) empty_registry;
}

abbrev fetching : System (Dict Bytes)
fetching = begin_fetch plain dict_store (lit "hall") registered

abbrev busy : System (Dict Bytes)
busy = forget plain dict_store (lit "hall") (begin_delete plain dict_store (lit "hall") fetching)

busy_reached : Reach plain dict_store (started []) busy
busy_reached =
    next
      (next
        (next (next here (call _ (do_register 200 (new_context 150 (lit "hall")))))
          (fetch_starts registered (lit "hall")))
        (delete_starts fetching (lit "hall")))
      (forgets _ (lit "hall"))

no_entries : StoreNames plain dict_store dict_store-IsStore plain-RoundTrips []
unfolding lookup
no_entries id b h = cc

get_or_create-id_example :
    ((now : ℕ) (id : Text) (c : Context)
      → (get_or_create plain dict_store now id busy.registry).0 ≡ inr c
      → c.instance_id ≡ id)
    × All (OfItsId plain dict_store dict_store-IsStore plain-RoundTrips) busy.pending
get_or_create-id_example =
    get_or_create-id plain dict_store dict_store-IsStore plain-RoundTrips [] {s = busy} no_entries
      busy_reached
