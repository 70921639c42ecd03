-- ===== src/Instance.antt =====
-- internal/instance/context.go: the instance context. Times are nanoseconds. The status is text, as
-- in the source; a nil map of metadata is an empty one.
use birb_nest.Prelude.{
  ℕ, ◌+◌, ◌*◌, Bool, false, ◌&&◌, ◌||◌, not, Option, none, some, [], Text, lit, text_eq, leb,
  if◌then◌else◌,
}
use birb_nest.Prelude.Maps.{Dict}

abbrev pub status_active : Text
status_active = lit "active"

abbrev pub status_inactive : Text
status_inactive = lit "inactive"

abbrev pub status_migrating : Text
status_migrating = lit "migrating"

abbrev pub status_deleting : Text
status_deleting = lit "deleting"

abbrev pub status_paused : Text
status_paused = lit "paused"

pub record ResourceQuota : Type 0 where
  pub max_memory_mb : ℕ
  pub max_storage_gb : ℕ
  pub max_cpu_cores : ℕ
  pub max_concurrent : ℕ

abbrev pub default_resource_quota : ResourceQuota
default_resource_quota = record {
  max_memory_mb = 8192;
  max_storage_gb = 100;
  max_cpu_cores = 4;
  max_concurrent = 10000;
}

-- Context
pub record Context : Type 0 where
  pub instance_id : Text
  pub game_type : Text
  pub region : Text
  pub created_at : ℕ
  pub last_active : ℕ
  pub status : Text
  pub metadata : Dict Text
  pub resource_quota : Option ResourceQuota
  pub is_permanent : Bool

unfoldable pub new_context : ℕ → Text → Context
new_context now id = record {
  instance_id = id;
  game_type = lit "default";
  region = lit "default";
  created_at = now;
  last_active = now;
  status = status_active;
  metadata = [];
  resource_quota = some default_resource_quota;
  is_permanent = false;
}

-- What a Go context carries: InjectContext puts it in.
abbrev pub Carried : Type 0
Carried = Option Context

unfoldable pub inject_context : Carried → Context → Carried
inject_context ctx c = some c

unfoldable pub extract_instance_id : Carried → Text
extract_instance_id none = []
extract_instance_id (some c) = c.instance_id

unfoldable pub is_active : Context → Bool
is_active c = text_eq c.status status_active

unfoldable pub can_accept_requests : Context → Bool
can_accept_requests c = text_eq c.status status_active || text_eq c.status status_migrating

-- 30 minutes
abbrev pub auto_delete_age : ℕ
auto_delete_age = 30 * 60 * 1_000_000_000

unfoldable pub can_be_auto_deleted : ℕ → Context → Bool
can_be_auto_deleted now c =
    not c.is_permanent
    && (text_eq c.status status_active && leb (c.created_at + auto_delete_age) now)

unfoldable pub update_last_active : ℕ → Context → Context
update_last_active now c = record c { last_active = now }

-- A deep copy; values are copied here anyway.
unfoldable pub clone : Context → Context
clone c = record {
  instance_id = c.instance_id;
  game_type = c.game_type;
  region = c.region;
  created_at = c.created_at;
  last_active = c.last_active;
  status = c.status;
  metadata = c.metadata;
  resource_quota = c.resource_quota;
  is_permanent = c.is_permanent;
}

-- InstanceError, and what Registry wraps by fmt.Errorf.
pub data InstanceError : Type 0 where
  empty_instance_id instance_not_found instance_not_active invalid_instance_data : InstanceError
  store_failed : Text → Text → InstanceError
  register_failed : InstanceError → InstanceError

-- nil, or the error
unfoldable pub validate : Context → Option InstanceError
validate c = if text_eq c.instance_id [] then some empty_instance_id else none
