-- ===== src/Keys/Tests.antt =====
-- The key builder at concrete inputs.
use birb_nest.Prelude.{◌≡◌, ◌≢◌, refl, true, [], ◌∷◌, ◌++◌, arith, Text, lit, text_eq}
use birb_nest.Prelude.Strings.{has_prefix, trim_space, split, join}
use birb_nest.Keys.{
  KeyBuilder, separator, new_key_builder, build_key, parse_key, is_instance_key, strip_instance,
  build_pattern, cache_key, table_key,
}
use birb_nest.Keys.Parse.{IsPlain, parse_key-build_key}
use birb_nest.Keys.Ownership.{
  strip_instance-build_key, is_instance_key_unique, cache_key_injective, cache_key_collision,
}
use birb_nest.Keys.Patterns.{before_star, build_pattern_owned}

abbrev tenant : KeyBuilder
tenant = record { instance_id = lit "inst_123" }

abbrev legacy : KeyBuilder
legacy = record { instance_id = [] }

trims : new_key_builder (lit "  inst_123\n") ≡ tenant
unfolding new_key_builder trim_space
trims = refl

builds_table_key :
    table_key tenant (lit "users") (lit "7") ≡ lit "instance:inst_123:table:users:row:7"
unfolding table_key join text_eq
builds_table_key = refl

parses : parse_key (lit "instance:inst_123:cache:k") ≡ (lit "inst_123", lit "cache" ∷ lit "k" ∷ [])
unfolding parse_key split text_eq
parses = refl

tenant_named : tenant.instance_id ≢ []
tenant_named e = cc

tenant_IsPlain : IsPlain tenant.instance_id
tenant_IsPlain = record { named = tenant_named; free = omega arith }

parse_key-build_key_run :
    parse_key (build_key tenant (lit "cache" ∷ lit "k" ∷ []))
    ≡ (tenant.instance_id, lit "cache" ∷ lit "k" ∷ [])
parse_key-build_key_run =
    parse_key-build_key tenant (lit "cache" ∷ lit "k" ∷ []) tenant_IsPlain (omega arith)

cache_is_not_instance : ◌≢◌ {A = Text} (lit "cache") (lit "instance")
cache_is_not_instance e = cc

strip_instance-build_key_run :
    (is_instance_key tenant (build_key tenant (lit "a" ∷ lit "b" ∷ [])) ≡ true)
    × (strip_instance tenant (build_key tenant (lit "a" ∷ lit "b" ∷ []))
        ≡ join separator (lit "a" ∷ lit "b" ∷ []))
strip_instance-build_key_run = strip_instance-build_key tenant (lit "a") (lit "b" ∷ []) tenant_named

abbrev padded : KeyBuilder
padded = new_key_builder (lit " inst_123 ")

is_instance_key_unique_run : tenant.instance_id ≡ padded.instance_id
unfolding new_key_builder trim_space is_instance_key text_eq has_prefix
is_instance_key_unique_run =
    is_instance_key_unique tenant padded (lit "instance:inst_123:cache:k") (omega arith)
      (omega arith) refl refl

cache_key_injective_example : (tenant.instance_id ≡ padded.instance_id) × (lit "a:b" ≡ lit "a:b")
unfolding new_key_builder trim_space
cache_key_injective_example =
    cache_key_injective tenant padded (lit "a:b") (lit "a:b") (omega arith) (omega arith) refl

cache_key_collision_example :
    cache_key tenant (lit "cache:k" ∷ [])
    ≡ cache_key (record { instance_id = lit "inst_123:cache" }) (lit "k" ∷ [])
cache_key_collision_example = cache_key_collision (lit "inst_123") (lit "k") tenant_named

build_pattern_owned_run :
    (build_pattern tenant (lit "cache")
      ≡ before_star (build_pattern tenant (lit "cache")) ++ lit "*")
    × (has_prefix (lit "instance:other:x") (before_star (build_pattern tenant []))
        ≡ is_instance_key tenant (lit "instance:other:x"))
    × (before_star (build_pattern tenant (lit "cache"))
        ≡ before_star (build_pattern tenant []) ++ lit "cache")
build_pattern_owned_run =
    build_pattern_owned tenant (lit "cache") (lit "instance:other:x") tenant_named
