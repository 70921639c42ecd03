-- ===== src/Handlers/Tests.antt =====
-- The handlers over a cache in memory and a database of one row.
use birb_nest.Prelude.{
  ◌≡◌, ◌∷◌, refl, true, false, Option, none, some, inr, List, [], Text, lit, text_eq, if◌then◌else◌,
}
use birb_nest.Prelude.Strings.{trim_space, join}
use birb_nest.Prelude.Maps.{lookup, insert}
use birb_nest.Keys.{cache_key, new_key_builder}
use birb_nest.Instance.{Carried, new_context}
use birb_nest.Cache.{Cache, key_not_found, IsCache, elem}
use birb_nest.Cache.Redis.{redis_cache}
use birb_nest.Cache.Redis
use birb_nest.Cache.Redis.Laws.{redis_cache-IsCache}
use birb_nest.Cache.Memory.{Entries, holds, memory, memory-IsRedis}
use birb_nest.Cache.Contextual.{key_in, context_builder}
use birb_nest.Cache.ByContext
use birb_nest.AsyncWriter.{AsyncWriter, new_async_writer, write, send}
use birb_nest.Prelude.Maps.{Dict}
use birb_nest.Cache.{Bytes}
use birb_nest.Handlers.{
  Handlers, Outside, replied, sent, set, get, batch_get, batch, status, marshals, queue_write,
  source_instance, split_found, still_missing,
}
use birb_nest.Handlers.Fallback.{place, get-set, get_reads_through}
use birb_nest.Handlers.Batches.{is_none, batch_get_missing, batch_get_exact}

abbrev cache : Cache Entries
cache = redis_cache memory 3600

cache-IsCache : IsCache cache holds
cache-IsCache = redis_cache-IsCache memory memory-IsRedis 3600

-- Every key has the row "old", and the primary does not know any.
abbrev outside : Outside Entries
outside = record {
  cache = cache;
  get_with_instance = λ k id s. (inr (lit "old"), s);
  ask_primary = λ k id s. (replied 404 [] true, s);
  is_json = λ v. true;
  held = λ v. v;
}

abbrev of_arena : Carried
of_arena = some (new_context 0 (lit "arena"))

abbrev writer : AsyncWriter
writer = new_async_writer 10 2

abbrev primary : Handlers Entries
primary = record {
  world = [];
  async_writer = some writer;
  is_primary = true;
  default_instance = lit "global";
  tasks = [];
}

abbrev after_set : Handlers Entries
after_set = (set outside 5 [] none (lit "k") (lit "1") of_arena primary).1

get-set_example : (get outside (lit "k") of_arena after_set).0 ≡ sent (lit "1")
unfolding set ByContext.set ByContext.get Redis.set Redis.get cache_key join new_key_builder
    trim_space text_eq insert lookup new_context context_builder
get-set_example =
    get-set outside cache-IsCache 5 [] none (lit "k") (lit "1") (lit "1") of_arena primary refl refl

get_reads_through_run :
    ((get outside (lit "k") of_arena primary).0 ≡ sent (lit "old"))
    × (holds (get outside (lit "k") of_arena primary).1.world (place outside of_arena (lit "k"))
        ≡ some (lit "old"))
unfolding ByContext.get Redis.get Redis.set lookup text_eq
get_reads_through_run =
    get_reads_through outside cache-IsCache (lit "k") of_arena primary writer key_not_found
      (lit "old") refl refl refl refl refl refl

abbrev asked : List Text
asked = lit "k" ∷ lit "x" ∷ []

batch_get_missing_run :
    elem (lit "x") (lit "x" ∷ [])
    ≡ (if elem (lit "x") asked then is_none (lookup (lit "x") ((lit "k", lit "1") ∷ [])) else false)
unfolding set batch_get ByContext.set ByContext.get_multiple Redis.set Redis.get_multiple cache_key
    join new_key_builder trim_space text_eq insert lookup new_context context_builder split_found
    still_missing
batch_get_missing_run =
    batch_get_missing outside asked of_arena after_set ((lit "k", lit "1") ∷ []) (lit "x" ∷ [])
      (lit "x") refl

batch_get_exact_example :
    (results : Dict Bytes) × ((j : Text)
      → lookup j results ≡ (
          if elem j asked
          then holds after_set.world (key_in (context_builder of_arena) j)
          else none))
    × (missing : List Text) × ((j : Text)
        → elem j missing ≡ (if elem j asked then is_none (lookup j results) else false))
    × ((batch_get outside asked of_arena after_set).0
        ≡ (if marshals outside.is_json results then batch results missing else status 500))
unfolding set ByContext.set ByContext.get_multiple Redis.set Redis.get_multiple cache_key join
    new_key_builder trim_space text_eq insert lookup new_context context_builder
batch_get_exact_example =
    batch_get_exact outside cache-IsCache (lit "k") (lit "x" ∷ []) of_arena after_set
      ((lit "k", lit "1") ∷ []) refl refl

-- A header with spaces around the ID: the row is queued for another ID than Get asks for.
abbrev row_of : Option AsyncWriter → List Text
row_of none = []
row_of (some aw) = elim aw.queue [ [] ↦ [] | req ∷ reqs ↦ req.instance_id ∷ [] ]

row_of_other_instance :
    row_of (set outside 5 (lit " arena ") none (lit "k") (lit "1") of_arena primary).1.async_writer
    ≡ lit " arena " ∷ []
unfolding set ByContext.set Redis.set text_eq queue_write source_instance write send
    new_async_writer
row_of_other_instance = refl
