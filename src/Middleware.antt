-- ===== src/Middleware.antt =====
-- internal/api/middleware/instance.go: InstanceMiddleware, which gives each request its instance.
-- A request is what the middleware reads of it; the next handler is not called here, a request that
-- passes is a result. Metadata is there in every context, as NewContext makes it.
pub mod Requests
pub mod Tests
use birb_nest.Prelude.{
  ℕ, ◌≡◌, Bool, true, false, not, ◌&&◌, ◌⊎◌, inl, inr, Option, none, some, List, [], ◌∷◌, Text, lit,
  text_eq, if◌then◌else◌,
}
use birb_nest.Prelude.Maps.{insert}
use birb_nest.Prelude.Strings.{trim_space}
use birb_nest.Instance.{
  Context, InstanceError, instance_not_found, can_accept_requests, status_deleting, status_inactive,
  status_paused, Carried, inject_context,
}
use birb_nest.Registry.{Registry, Store, Codec, Got, Saved, get_or_create, update}

-- InstanceMiddleware, but for the registry, which is an argument.
pub record Middleware : Type 0 where
  pub required : Bool
  pub default_instance_id : Text

unfoldable pub new_middleware : Bool → Middleware
new_middleware required = record { required = required; default_instance_id = lit "global" }

unfoldable pub set_default_instance_id : Text → Middleware → Middleware
set_default_instance_id id m = record m { default_instance_id = id }

-- The header X-Instance-ID and the two query parameters; one that is missing is empty.
pub record Request : Type 0 where
  pub header : Text
  pub query_instance_id : Text
  pub query_instance_alt : Text

unfoldable pub extract_instance_id : Request → Text
extract_instance_id c =
    if not (text_eq c.header [])
    then trim_space c.header
    else if not (text_eq c.query_instance_id [])
    then trim_space c.query_instance_id
    else if not (text_eq c.query_instance_alt [])
    then trim_space c.query_instance_alt
    else []

-- An answer's status and code.
pub data Response : Type 0 where
  answer : ℕ → Text → Response

-- A request is answered, or goes on with a context and whether it uses the default instance; the
-- goroutine of UpdateLastActive is then still to run.
pub data Handled : Type 0 where
  answered : Response → Handled
  passed : Carried → Bool → Handled

-- The switch over the status of an instance that takes no requests.
unfoldable pub unavailable : Text → Response
unavailable status =
    if text_eq status status_deleting
    then answer 410 (lit "INSTANCE_DELETING")
    else if text_eq status status_inactive
    then answer 503 (lit "INSTANCE_INACTIVE")
    else if text_eq status status_paused
    then answer 503 (lit "INSTANCE_PAUSED")
    else answer 503 (lit "INSTANCE_UNAVAILABLE")

load_error : InstanceError → Response
load_error instance_not_found = answer 404 (lit "INSTANCE_NOT_FOUND")
load_error _ = answer 500 (lit "INSTANCE_LOAD_ERROR")

-- What the middleware makes of the default instance.
unfoldable pub marked : Context → Context
marked c = record c {
  is_permanent = true;
  metadata =
      insert (lit "created_by") (lit "system") (insert (lit "type") (lit "default") c.metadata);
}

-- The ID of a request, and whether it is the default.
unfoldable pub chosen : Middleware → Request → Text × Bool
unfolding extract_instance_id
chosen m q =
    let id = extract_instance_id q in
    if text_eq id [] then (m.default_instance_id, true) else (id, false)

saved_by : {S : Type 0} → Saved S → Context × Registry S
saved_by (e, c, r) = (c, r)

module _ {S : Type 0} (codec : Codec) (store : Store S) where
  -- Update changes the caller's context too, and its error is dropped.
  unfoldable pub mark_default : ℕ → Middleware → Text → Context → Registry S → Context × Registry S
  unfolding marked saved_by
  mark_default now m id c r =
      if text_eq id m.default_instance_id && not c.is_permanent
      then saved_by (update codec store now (marked c) r)
      else (c, r)

  admit : Bool → Context × Registry S → Handled × Registry S
  unfolding unavailable inject_context
  admit using_default (c, r) =
      if can_accept_requests c
      then (passed (inject_context none c) using_default, r)
      else (answered (unavailable c.status), r)

  loaded : ℕ → Middleware → Text → Bool → Got S → Handled × Registry S
  unfolding admit load_error mark_default
  loaded now m id using_default (inl e, r) = (answered (load_error e), r)
  loaded now m id using_default (inr c, r) = admit using_default (mark_default now m id c r)

  unfoldable pub handle : ℕ → Middleware → Request → Registry S → Handled × Registry S
  unfolding chosen loaded
  handle now m q r =
      let (id, using_default) = chosen m q in
      if text_eq id [] && m.required
      then (answered (answer 400 (lit "MISSING_INSTANCE_ID")), r)
      else loaded now m id using_default (get_or_create codec store now id r)
