-- ===== src/Cache/Tests.antt =====
-- The cache layers over a client in memory.
use birb_nest.Prelude.{
  ◌≡◌, refl, false, none, some, List, [], ◌∷◌, Text, lit, text_eq, if◌then◌else◌, arith,
}
use birb_nest.Prelude.Strings.{trim_space, join}
use birb_nest.Prelude.Maps.{lookup, insert}
use birb_nest.Keys.{cache_key, new_key_builder}
use birb_nest.Instance.{Carried}
use birb_nest.Cache.{IsCache, elem, Cache}
use birb_nest.Cache.Redis.{redis_cache}
use birb_nest.Cache.Redis
use birb_nest.Cache.Redis.Laws.{redis_cache-IsCache}
use birb_nest.Cache.Memory.{Entries, holds, memory, memory-IsRedis}
use birb_nest.Cache.Contextual.{key_in, context_builder, instance_items}
use birb_nest.Cache.Isolation.{
  Call, set, get, delete_multiple, perform_all, perform_all-other_tenant,
}
use birb_nest.Cache.Batches.{get_multiple_exact, get-set_multiple}
use birb_nest.Cache.ByContext

abbrev cache : Cache Entries
cache = redis_cache memory 3600

abbrev tenant : Text → Carried
tenant id = some (record {
  instance_id = id;
  game_type = [];
  region = [];
  created_at = 0;
  last_active = 0;
  status = lit "active";
  metadata = [];
  resource_quota = none;
  is_permanent = false;
})

stores_under_tenant :
    (ByContext.set cache (tenant (lit "a")) (lit "k") (lit "1") 0 []).1
    ≡ (lit "instance:a:cache:k", lit "1") ∷ []
unfolding ByContext.set cache_key join new_key_builder trim_space text_eq Redis.set insert
stores_under_tenant = refl

stores_under_global :
    (ByContext.set cache none (lit "k") (lit "1") 0 []).1
    ≡ (lit "instance:global:cache:k", lit "1") ∷ []
unfolding ByContext.set cache_key join new_key_builder trim_space text_eq Redis.set insert
stores_under_global = refl

cache-IsCache : IsCache cache holds
cache-IsCache = redis_cache-IsCache memory memory-IsRedis 3600

abbrev calls : List Call
calls = set (lit "k") (lit "2") 0 ∷ get (lit "k") ∷ delete_multiple (lit "k" ∷ []) ∷ []

abbrev before : Entries
before = (lit "instance:b:cache:k", lit "1") ∷ []

perform_all-other_tenant_example :
    holds
      (perform_all cache (tenant (lit "a")) calls before)
      (key_in (context_builder (tenant (lit "b"))) (lit "k"))
    ≡ holds before (key_in (context_builder (tenant (lit "b"))) (lit "k"))
unfolding context_builder trim_space text_eq new_key_builder
perform_all-other_tenant_example =
    perform_all-other_tenant cache cache-IsCache (tenant (lit "a")) (tenant (lit "b")) calls before
      (lit "k") (omega arith) (omega arith) (λ e. ground arith)

get_multiple_exact_run : lookup (lit "k") ((lit "k", lit "1") ∷ []) ≡ (
    if elem (lit "k") (lit "k" ∷ lit "x" ∷ [])
    then holds before (key_in (context_builder (tenant (lit "b"))) (lit "k"))
    else none)
unfolding ByContext.get_multiple context_builder trim_space text_eq new_key_builder cache_key join
    lookup insert Redis.get_multiple
get_multiple_exact_run =
    get_multiple_exact cache cache-IsCache (tenant (lit "b")) (lit "k" ∷ lit "x" ∷ []) before
      ((lit "k", lit "1") ∷ []) (lit "k") refl

get-set_multiple_run : lit "2" ≡ lit "2"
unfolding ByContext.set_multiple ByContext.get context_builder trim_space text_eq new_key_builder
    cache_key join lookup insert Redis.set_multiple Redis.get instance_items
get-set_multiple_run =
    get-set_multiple cache cache-IsCache (tenant (lit "b")) ((lit "k", lit "2") ∷ []) 0 before
      (lit "k") (lit "2") (lit "2") refl refl refl
