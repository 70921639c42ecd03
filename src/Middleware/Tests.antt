-- ===== src/Middleware/Tests.antt =====
-- The middleware at concrete requests.
use birb_nest.Prelude.{◌≡◌, refl, true, false, some, [], lit, text_eq}
use birb_nest.Prelude.Maps.{Dict, lookup, insert, remove}
use birb_nest.Prelude.Strings.{contains, has_prefix, trim_space}
use birb_nest.Cache.{Bytes}
use birb_nest.Instance.{
  Context, new_context, can_accept_requests, validate, update_last_active, clone, status_paused,
  inject_context,
}
use birb_nest.Registry.{
  new_registry, register, get, get_or_create, build_key, get_from_mem_cache, update_mem_cache,
}
use birb_nest.Registry.Forms.{plain, plain-RoundTrips, dict_store, dict_store-IsStore}
use birb_nest.Registry.Named.{StoreNames}
use birb_nest.Registry.Steps.{System, started, call, do_register, Reach, here, next, perform}
use birb_nest.Middleware.{
  Request, new_middleware, chosen, extract_instance_id, handle, answered, answer, mark_default,
}
use birb_nest.Middleware.Requests.{
  handle_passed, wanted, paused, expected, status_text, handle_by_status, required_ignored,
}

-- A request that names the arena, with spaces around, and one that names nothing.
abbrev to_arena : Request
to_arena = record {
  header = lit " arena ";
  query_instance_id = [];
  query_instance_alt = lit "hall";
}

abbrev to_none : Request
to_none = record { header = []; query_instance_id = []; query_instance_alt = [] }

abbrev hall : System (Dict Bytes)
hall = record {
  registry = (register plain dict_store 200 (new_context 150 (lit "hall")) (new_registry [])).2;
  in_flight = [];
  pending = [];
}

hall_reached : Reach plain dict_store (started []) hall
unfolding perform
hall_reached = next here (call _ (do_register 200 (new_context 150 (lit "hall"))))

nothing_held : StoreNames plain dict_store dict_store-IsStore plain-RoundTrips []
unfolding lookup
nothing_held id b h = cc

handle_passed_example :
    (c : Context) × (some (new_context 500 (lit "arena")) ≡ some c)
    × (can_accept_requests c ≡ true)
    × (c.instance_id ≡ wanted (new_middleware false) to_arena)
unfolding handle chosen new_middleware extract_instance_id trim_space mark_default inject_context
    can_accept_requests new_context register validate text_eq get get_or_create get_from_mem_cache
    update_mem_cache update_last_active clone insert lookup remove contains build_key has_prefix
    new_registry
handle_passed_example =
    handle_passed plain dict_store dict_store-IsStore plain-RoundTrips [] {s = hall} 500
      (new_middleware false) to_arena (some (new_context 500 (lit "arena"))) false nothing_held
      hall_reached refl

abbrev resting : Context
resting = record (new_context 100 (lit "arena")) { status = status_paused; is_permanent = true }

handle_by_status_run :
    (handle plain dict_store 300
      (new_middleware true)
      to_arena
      (register plain dict_store 200 resting (new_registry [])).2).0
    ≡ answered (answer 503 (lit "INSTANCE_PAUSED"))
unfolding chosen new_middleware extract_instance_id trim_space new_context register validate text_eq
    get get_or_create get_from_mem_cache update_mem_cache update_last_active clone insert lookup
    build_key new_registry expected status_text
handle_by_status_run =
    handle_by_status plain dict_store 300 (new_middleware true) to_arena
      (register plain dict_store 200 resting (new_registry [])).2 (update_last_active 200 resting)
      paused refl refl refl refl

required_ignored_run :
    handle plain dict_store 300
      (record (new_middleware false) { required = true })
      to_none
      (new_registry [])
    ≡ handle plain dict_store 300
        (record (new_middleware false) { required = false })
        to_none
        (new_registry [])
unfolding new_middleware
required_ignored_run =
    required_ignored plain dict_store 300 (new_middleware false) to_none (new_registry []) (λ e. cc)
