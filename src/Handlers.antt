-- ===== src/Handlers.antt =====
-- internal/api/handlers_instance.go: the handlers of a server, primary or replica. A request comes
-- with what the middleware put into its context. Everything outside (the cache's Redis, the
-- database, for a replica the primary) is one state `S`. A goroutine that a handler starts is a task
-- that is still to run. A request to the primary can always be built, and the answer of BatchGet is
-- the map that is made JSON. Keys and bodies are Fiber's own buffers, which it uses again for later
-- requests: what outlives the handler holds what a buffer holds then. Metrics are left out.
pub mod Batches
pub mod Fallback
pub mod Tests
use birb_nest.Prelude.{
  ℕ, ◌≡◌, Bool, true, false, ◌&&◌, ◌⊎◌, inl, inr, Option, none, some, List, [], ◌∷◌, ◌++◌, Text,
  text_eq, ◌==◌, if◌then◌else◌,
}
use birb_nest.Prelude.Maps.{Dict, lookup, insert}
use birb_nest.Instance.{Context, Carried}
use birb_nest.Cache.{Bytes, Cache, Result, ok, err, Done}
use birb_nest.Cache.ByContext
use birb_nest.AsyncWriter.{AsyncWriter, Sent, write}

-- What the primary answers: nothing, or a status and a body, which may break off.
pub data Reply : Type 0 where
  unreachable : Reply
  replied : ℕ → Bytes → Bool → Reply

-- The cache, GetWithInstance of the database, and a GET of the primary for a key and an instance.
pub record Outside (S : Type 0) : Type 0 where
  pub cache : Cache S
  pub get_with_instance : Text → Text → S → (Text ⊎ Bytes) × S
  pub ask_primary : Text → Text → S → Reply × S
  -- the bytes can be a json.RawMessage in a document
  pub is_json : Bytes → Bool
  -- what a string or slice of the request holds after the handler, when Fiber uses its buffer again
  pub held : Text → Text

-- A goroutine: UpdateLastActive, DeleteWithInstance, or a request that is forwarded to the primary.
pub data Task : Type 0 where
  touch_instance : Text → Task
  delete_row forward_delete : Text → Text → Task
  forward_write : Text → Bytes → ℕ → Text → Task

-- Handlers. A primary without a database has no writer.
pub record Handlers (S : Type 0) : Type 0 where
  pub world : S
  pub async_writer : Option AsyncWriter
  pub is_primary : Bool
  pub default_instance : Text
  pub tasks : List Task

pub data Answer : Type 0 where
  status : ℕ → Answer
  sent : Bytes → Answer
  batch : Dict Bytes → List Text → Answer

unfoldable pub instance_of : Text → Carried → Text
instance_of default none = default
instance_of default (some c) = c.instance_id

-- The instance whose row is written: the header's as it stands, if there is one.
unfoldable pub source_instance : (Text → Text) → Text → Text → Text
source_instance held header id = if text_eq header [] then id else held header

delete_tasks : Bool → Option AsyncWriter → Text → Text → List Task
delete_tasks true none key id = []
delete_tasks true (some aw) key id = delete_row key id ∷ []
delete_tasks false aw key id = forward_delete key id ∷ []

module _ {S : Type 0} where
  start : Task → Handlers S → Handlers S
  start t h = record h { tasks = h.tasks ++ (t ∷ []) }

  noted : Carried → Handlers S → Handlers S
  unfolding start
  noted none h = h
  noted (some c) h = start (touch_instance c.instance_id) h

  -- The write is queued with what the worker will read.
  unfoldable pub queue_write : ℕ → Text → Bytes → Text → Handlers S → Handlers S
  queue_write now key value id h = elim h.async_writer [
    | none ↦ h
    | some aw ↦ record h { async_writer = some ((write now key value id aw).1) }
  ]

  -- Set after the cache took the value, by whether the server is a primary.
  after_set : (Text → Text) → Bool → ℕ → ℕ → Text → Text → Bytes → Text → Handlers S → Handlers S
  unfolding queue_write source_instance start
  after_set held true now stamp header key value id h =
      queue_write now (held key) (held value) (source_instance held header id) h
  after_set held false now stamp header key value id h =
      start (forward_write (held key) (held value) stamp id) h

  stored_by :
      (Text → Text) → ℕ → ℕ → Text → Text → Bytes → Text → Done → Handlers S → Answer × Handlers S
  unfolding after_set
  stored_by held now stamp header key value id (err e) h = (status 500, h)
  stored_by held now stamp header key value id (ok u) h =
      (status 200, after_set held h.is_primary now stamp header key value id h)

-- The time that a write is forwarded with: that of the header, if it can be read.
unfoldable pub stamped : ℕ → Option ℕ → ℕ
stamped now none = now
stamped now (some t) = t

module _ {S : Type 0} (out : Outside S) where
  -- Set: `header` is X-Instance-ID and `stamp` X-Write-Timestamp as read.
  unfoldable pub set :
      ℕ → Text → Option ℕ → Text → Bytes → Carried → Handlers S → Answer × Handlers S
  unfolding noted stored_by stamped
  set now header stamp key value ctx h =
      if text_eq key []
      then (status 400, h)
      else let h1 = noted ctx h in
        let (o, w) = ByContext.set out.cache ctx key value 0 h1.world in
        stored_by out.held now (stamped now stamp) header key value
          (instance_of h.default_instance ctx) o (record h1 { world = w })

  -- The value is stored in the cache and sent, whether storing it works or not.
  repopulated : Text → Bytes → Carried → Handlers S → Answer × Handlers S
  repopulated key value ctx h =
      (sent value, record h { world = (ByContext.set out.cache ctx key value 0 h.world).1 })

  from_row : Text → Carried → Text ⊎ Bytes → Handlers S → Answer × Handlers S
  unfolding repopulated
  from_row key ctx (inl e) h = (status 404, h)
  from_row key ctx (inr v) h = repopulated key v ctx h

  from_primary : Text → Carried → Reply → Handlers S → Answer × Handlers S
  unfolding repopulated
  from_primary key ctx unreachable h = (status 503, h)
  from_primary key ctx (replied code body whole) h =
      if code == 404
      then (status 404, h)
      else if code == 200
      then if whole then repopulated key body ctx h else (status 500, h)
      else (status code, h)

  -- queryPrimary
  unfoldable pub query_primary : Text → Text → Carried → Handlers S → Answer × Handlers S
  unfolding from_primary
  query_primary key id ctx h =
      let (r, w) = out.ask_primary key id h.world in from_primary key ctx r (record h { world = w })

  -- Get after a miss, by whether the server is a primary, and has a database.
  unfoldable pub missed :
      Bool → Option AsyncWriter → Text → Text → Carried → Handlers S → Answer × Handlers S
  unfolding query_primary from_row
  missed true none key id ctx h = (status 404, h)
  missed true (some aw) key id ctx h =
      let (o, w) = out.get_with_instance key id h.world in
      from_row key ctx o (record h { world = w })
  missed false aw key id ctx h = query_primary key id ctx h

  looked_up : Text → Text → Carried → Result Bytes → Handlers S → Answer × Handlers S
  unfolding missed
  looked_up key id ctx (ok v) h = (sent v, h)
  looked_up key id ctx (err e) h = missed h.is_primary h.async_writer key id ctx h

  unfoldable pub get : Text → Carried → Handlers S → Answer × Handlers S
  unfolding noted looked_up
  get key ctx h =
      if text_eq key []
      then (status 400, h)
      else let h1 = noted ctx h in
        let (o, w) = ByContext.get out.cache ctx key h1.world in
        looked_up key (instance_of h.default_instance ctx) ctx o (record h1 { world = w })

  unfoldable pub delete : Text → Carried → Handlers S → Answer × Handlers S
  unfolding noted delete_tasks
  delete key ctx h =
      if text_eq key []
      then (status 400, h)
      else let h1 = noted ctx h in
        let (o, w) = ByContext.delete out.cache ctx key h1.world in
        let id = instance_of h.default_instance ctx in
        (
          status 204,
          record h1 {
            world = w;
            tasks = h1.tasks ++ delete_tasks h.is_primary h.async_writer (out.held key) id;
          },
        )

-- The entries of the keys that were found, and the keys that were not.
unfoldable pub split_found : List Text → Dict Bytes → Dict Bytes → Dict Bytes × List Text
split_found [] cached results = (results, [])
split_found (k ∷ ks) cached results = elim (lookup k cached) [
  | some v ↦ split_found ks cached (insert k v results)
  | none ↦ let (found, missing) = split_found ks cached results in (found, k ∷ missing)
]

-- Recalculate missing.
unfoldable pub still_missing : List Text → Dict Bytes → List Text
still_missing [] results = []
still_missing (k ∷ ks) results =
    let rest = still_missing ks results in
    elim (lookup k results) [ some v ↦ rest | none ↦ k ∷ rest ]

-- json.Marshal of the entries, as raw messages, succeeds.
unfoldable pub marshals : (Bytes → Bool) → Dict Bytes → Bool
marshals is_json [] = true
marshals is_json ((k, v) ∷ r) = is_json v && marshals is_json r

entries_of : Result (Dict Bytes) → Dict Bytes
entries_of (ok r) = r
entries_of (err e) = []

module _ {S : Type 0} (out : Outside S) where
  asked : Text → Carried → Reply → Dict Bytes → S → Dict Bytes × S
  asked key ctx unreachable results w = (results, w)
  asked key ctx (replied code body whole) results w =
      if code == 200
      then (insert key body results, (ByContext.set out.cache ctx key body 0 w).1)
      else (results, w)

  -- The loop of a replica over the keys that are missing.
  unfoldable pub ask_all : List Text → Text → Carried → Dict Bytes → S → Dict Bytes × S
  unfolding asked
  ask_all [] id ctx results w = (results, w)
  ask_all (k ∷ ks) id ctx results w =
      let (r, w1) = out.ask_primary k id w in
      let (results', w2) = asked k ctx r results w1 in ask_all ks id ctx results' w2

  from_others : Bool → Text → Carried → Dict Bytes × List Text → S → Dict Bytes × S
  unfolding ask_all
  from_others true id ctx (results, missing) w = (results, w)
  from_others false id ctx (results, missing) w = ask_all missing id ctx results w

  -- c.JSON; its error goes to Fiber's DefaultErrorHandler.
  unfoldable pub sent_batch : List Text → Dict Bytes → Answer
  unfolding marshals still_missing
  sent_batch keys results =
      if marshals out.is_json results
      then batch results (still_missing keys results)
      else status 500

  unfoldable pub batch_get : List Text → Carried → Handlers S → Answer × Handlers S
  unfolding noted split_found sent_batch entries_of from_others
  batch_get [] ctx h = (status 400, h)
  batch_get (k ∷ ks) ctx h =
      let keys = k ∷ ks in
      let h1 = noted ctx h in
      let (o, w) = ByContext.get_multiple out.cache ctx keys h1.world in
      let id = instance_of h.default_instance ctx in
      let (results, w1) = from_others h.is_primary id ctx (split_found keys (entries_of o) []) w in
      (sent_batch keys results, record h1 { world = w1 })
