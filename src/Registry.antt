-- ===== src/Registry.antt =====
-- internal/instance/registry.go: the registry of instances, over a store of bytes and a form of
-- contexts as bytes that are parameters. The clock is read once in a call, in nanoseconds. A call
-- that changes the context of its caller returns it changed.
pub mod Laws
pub mod Named
pub mod Kept
pub mod Ids
pub mod Steps
pub mod Identity
pub mod Activity
pub mod Refresh
pub mod Forms
pub mod Tests
use birb_nest.Prelude.{
  ℕ, ◌+◌, ◌*◌, ◌≡◌, Bool, true, false, ◌&&◌, ◌||◌, ◌⊎◌, inl, inr, Option, none, some, List, [], ◌∷◌,
  ◌++◌, Text, lit, text_eq, leb, ltb, if◌then◌else◌,
}
use birb_nest.Prelude.Maps.{Dict, lookup, insert, remove}
use birb_nest.Prelude.Strings.{contains, trim_prefix}
use birb_nest.Cache.{Bytes}
use birb_nest.Instance.{
  Context, InstanceError, empty_instance_id, instance_not_found, store_failed, register_failed,
  new_context, validate, update_last_active, clone,
}

abbrev pub minute : ℕ
minute = 60 * 1_000_000_000

abbrev pub default_ttl : ℕ
default_ttl = 24 * 60 * minute

abbrev pub cache_ttl : ℕ
cache_ttl = 5 * minute

abbrev pub activity_update_interval : ℕ
activity_update_interval = 1 * minute

-- CacheInterface: a call returns an error by its text.
pub record Store (S : Type 0) : Type 0 where
  pub get : Text → S → (Text ⊎ Bytes) × S
  pub set : Text → Bytes → ℕ → S → Option Text × S
  pub delete : Text → S → Option Text × S

-- MarshalBinary and UnmarshalBinary of a context, which call encoding/json.
pub record Codec : Type 0 where
  pub marshal : Context → Text ⊎ Bytes
  pub unmarshal : Bytes → Text ⊎ Context

-- cacheEntry
pub record CacheEntry : Type 0 where
  pub context : Context
  pub expiration : ℕ

-- The registry, the store's state, and the instances whose TTL a goroutine is still to refresh.
pub record Registry (S : Type 0) : Type 0 where
  pub world : S
  pub mem_cache : Dict CacheEntry
  pub last_activity : Dict ℕ
  pub refreshing : List Text

unfoldable pub build_key : Text → Text
build_key id = lit "registry:instance" ++ (lit ":" ++ id)

-- What Get returns, and what a call returns that saves a context: nil or the error.
abbrev pub Got : Type 0 → Type 0
Got S = (InstanceError ⊎ Context) × Registry S

abbrev pub Saved : Type 0 → Type 0
Saved S = Option InstanceError × Context × Registry S

fresh_entry : ℕ → Option CacheEntry → Option Context
unfolding clone
fresh_entry now none = none
fresh_entry now (some e) = if ltb e.expiration now then none else some (clone e.context)

is_due : ℕ → Option ℕ → Bool
is_due now none = true
is_due now (some last) = leb (last + activity_update_interval) now

module _ {S : Type 0} where
  unfoldable pub new_registry : S → Registry S
  new_registry world = record { world = world; mem_cache = []; last_activity = []; refreshing = [] }

  unfoldable pub get_from_mem_cache : ℕ → Text → Registry S → Option Context
  unfolding fresh_entry
  get_from_mem_cache now id r = fresh_entry now (lookup id r.mem_cache)

  unfoldable pub update_mem_cache : ℕ → Context → Registry S → Registry S
  unfolding clone
  update_mem_cache now c r = record r {
    mem_cache =
        insert c.instance_id (record { context = clone c; expiration = now + cache_ttl })
          r.mem_cache;
  }

  unfoldable pub should_update_activity : ℕ → Text → Registry S → Bool × Registry S
  unfolding is_due
  should_update_activity now id r =
      if is_due now (lookup id r.last_activity)
      then (true, record r { last_activity = insert id now r.last_activity })
      else (false, r)

  unfoldable pub clear_memory_cache : Registry S → Registry S
  clear_memory_cache r = record r { mem_cache = [] }

-- The test of Get on the text of the store's error.
abbrev pub says_missing : Text → Bool
says_missing e = contains e (lit "not found") || contains e (lit "nil")

module _ {S : Type 0} (codec : Codec) (store : Store S) where
  saved : ℕ → Context → Registry S → Option Text × S → Saved S
  unfolding update_mem_cache
  saved now c r (some e, w) =
      (some (store_failed (lit "failed to store in Redis") e), c, record r { world = w })
  saved now c r (none, w) = (none, c, update_mem_cache now c (record r { world = w }))

  save : ℕ → Context → Registry S → Text ⊎ Bytes → Saved S
  unfolding saved
  save now c r (inl e) = (some (store_failed (lit "failed to serialize context") e), c, r)
  save now c r (inr bytes) =
      saved now c r (store.set (build_key c.instance_id) bytes default_ttl r.world)

  accepted : ℕ → Context → Registry S → Option InstanceError → Saved S
  unfolding save
  accepted now c r (some e) = (some e, c, r)
  accepted now c r none = let c' = update_last_active now c in save now c' r (codec.marshal c')

  unfoldable pub register : ℕ → Context → Registry S → Saved S
  unfolding accepted
  register now c r = accepted now c r (validate c)

  decoded : ℕ → Text → Registry S → Text ⊎ Context → Got S
  unfolding update_mem_cache
  decoded now id r (inl e) = (inl (store_failed (lit "failed to deserialize context") e), r)
  decoded now id r (inr c) =
      (inr c, update_mem_cache now c (record r { refreshing = r.refreshing ++ (id ∷ []) }))

  fetched : ℕ → Text → Registry S → (Text ⊎ Bytes) × S → Got S
  unfolding decoded
  fetched now id r (inl e, w) =
      if says_missing e
      then (inl instance_not_found, record r { world = w })
      else (inl (store_failed (lit "failed to get from Redis") e), record r { world = w })
  fetched now id r (inr bytes, w) = decoded now id (record r { world = w }) (codec.unmarshal bytes)

  -- Get past the memory cache.
  fetch : ℕ → Text → Registry S → Got S
  unfolding fetched
  fetch now id r = fetched now id r (store.get (build_key id) r.world)

  unfoldable pub get : ℕ → Text → Registry S → Got S
  unfolding fetch
  get now id r =
      if text_eq id []
      then (inl empty_instance_id, r)
      else elim (get_from_mem_cache now id r) [ some c ↦ (inr c, r) | none ↦ fetch now id r ]

  created : Saved S → Got S
  created (none, c, r) = (inr c, r)
  created (some e, c, r) = (inl (register_failed e), r)

  got_or_created : ℕ → Text → Got S → Got S
  unfolding created
  got_or_created now id (inl instance_not_found, r) = created (register now (new_context now id) r)
  got_or_created now id (o, r) = (o, r)

  unfoldable pub get_or_create : ℕ → Text → Registry S → Got S
  unfolding got_or_created
  get_or_create now id r =
      if text_eq id [] then (inl empty_instance_id, r) else got_or_created now id (get now id r)

  updated : ℕ → Context → Got S → Saved S
  updated now c (inl e, r) = (some e, c, r)
  updated now c (inr existing, r) = register now (record c { created_at = existing.created_at }) r

  accepted_update : ℕ → Context → Registry S → Option InstanceError → Saved S
  unfolding updated
  accepted_update now c r (some e) = (some e, c, r)
  accepted_update now c r none = updated now c (get now c.instance_id r)

  unfoldable pub update : ℕ → Context → Registry S → Saved S
  unfolding accepted_update
  update now c r = accepted_update now c r (validate c)

  deleted : Text → Registry S → Option Text × S → Option InstanceError × Registry S
  deleted id r (some e, w) =
      (some (store_failed (lit "failed to delete from Redis") e), record r { world = w })
  deleted id r (none, w) = (
    none,
    record r {
      world = w;
      mem_cache = remove id r.mem_cache;
      last_activity = remove id r.last_activity;
    },
  )

  unfoldable pub delete : Text → Registry S → Option InstanceError × Registry S
  unfolding deleted
  delete id r =
      if text_eq id []
      then (some empty_instance_id, r)
      else deleted id r (store.delete (build_key id) r.world)

  touched : ℕ → Got S → Option InstanceError × Registry S
  touched now (inl e, r) = (some e, r)
  touched now (inr c, r) = let (e, _, r') = register now (update_last_active now c) r in (e, r')

  -- UpdateLastActive of the registry.
  unfoldable pub touch : ℕ → Text → Registry S → Option InstanceError × Registry S
  unfolding touched
  touch now id r =
      let (due, r') = should_update_activity now id r in
      if due then touched now (get now id r') else (none, r')

  -- The two calls of refreshTTL: what the first found, then the second.
  found : Text ⊎ Bytes → Option Bytes
  found (inl e) = none
  found (inr bytes) = some bytes

  unfoldable pub refresh_read : Text → S → Option Bytes × S
  unfolding found
  refresh_read id w = let (o, w') = store.get (build_key id) w in (found o, w')

  unfoldable pub refresh_write : Text → Option Bytes → S → S
  refresh_write id none w = w
  refresh_write id (some bytes) w = (store.set (build_key id) bytes default_ttl w).1

-- ListFilter: an empty text asks for nothing.
pub record ListFilter : Type 0 where
  pub status : Text
  pub region : Text
  pub game_type : Text

passes : Text → Text → Bool
passes wanted t = text_eq wanted [] || text_eq t wanted

unfoldable pub matches : ListFilter → Context → Bool
unfolding passes
matches f c =
    passes f.status c.status && (passes f.region c.region && passes f.game_type c.game_type)

-- The placeholder of the source.
unfoldable pub scan_keys : Text → Text ⊎ List Text
scan_keys pattern = inr []

module _ {S : Type 0} (codec : Codec) (store : Store S) where
  kept : ListFilter → InstanceError ⊎ Context → List Context → List Context
  unfolding matches
  kept f (inl e) cs = cs
  kept f (inr c) cs = if matches f c then c ∷ cs else cs

  unfoldable pub collect : ℕ → ListFilter → List Text → Registry S → List Context × Registry S
  unfolding kept
  collect now f [] r = ([], r)
  collect now f (key ∷ keys) r =
      let (o, r') = get codec store now (trim_prefix key (lit "registry:instance:")) r in
      let (cs, r'') = collect now f keys r' in (kept f o cs, r'')

  unfoldable pub list : ℕ → ListFilter → Registry S → (InstanceError ⊎ List Context) × Registry S
  list now f r = elim (scan_keys (lit "registry:instance:*")) [
    | inl e ↦ (inl (store_failed (lit "failed to scan keys") e), r)
    | inr keys ↦ let (cs, r') = collect now f keys r in (inr cs, r')
  ]
