-- ===== src/Lib.antt =====
-- Birb Nest: a store of game state for many instances (tenants). An API answers over HTTP, a Redis
-- cache in front of PostgreSQL holds the entries, a registry in the cache knows the instances, and a
-- client SDK calls the API with retries and circuit breakers.
--
-- How the parts meet. The middleware takes the instance ID of a request, gets the instance's context
-- from the registry, which keeps it in memory and in the cache, and puts it into the request's
-- context. The context cache reads the ID from there and prefixes each key of the cache with it; the
-- key builder makes these prefixes. A write is stored in the cache at once and is queued for the
-- database, where workers store it later. The SDK's executor calls the transport through a breaker
-- for each endpoint, and decides by the type of an error whether to call again.
--
-- Files and sources:
--   Keys            internal/instance/keys.go: KeyBuilder and its methods.
--   Instance        internal/instance/context.go: Context, its predicates and its errors.
--   Cache           internal/cache/interface.go: Cache, and what is relied on of one (IsCache).
--   Cache/Redis     internal/cache/redis.go: RedisCache over a go-redis client (a parameter).
--   Cache/Contextual, ByContext, ByInstance
--                   internal/cache/instance_cache.go: what the two caches share, ContextCache and
--                   InstanceCache.
--   Cache/Memory    A client over an association list, to show that the laws asked of one can hold.
--   Registry        internal/instance/registry.go: Registry over a store (CacheInterface) and a byte
--                   form of contexts (MarshalBinary). UpdateLastActive is `touch` here; refreshTTL
--                   is `refresh_read` and `refresh_write`, since others run between the two.
--   Registry/Steps  The registry with its callers and goroutines as a step relation.
--   Registry/Forms  A store and a byte form, to show that what is asked of them can hold.
--   Middleware      internal/api/middleware/instance.go: InstanceMiddleware.
--   AsyncWriter     internal/api/async_writer.go: the queue of background writes; AsyncWriter/Steps
--                   has the callers and workers as a step relation: a worker takes a request, ends
--                   its call of the database, and wakes up to queue the request again.
--   Handlers        internal/api/handlers_instance.go: Set, Get, Delete and BatchGet of a primary or
--                   a replica; what a handler starts in the background is a task in its result.
--   Circuit         sdk/circuit_breaker.go: circuitBreaker; Circuit/Endpoints has the manager of a
--                   breaker for each endpoint and the breaker that does nothing.
--   Errors          sdk/errors.go: errors as chains, their types and tests, and WrapError.
--   Retry           sdk/retry.go: the budget, the back-off strategies and the executor.
--   Retry/Hedged    sdk/retry.go: the hedged executor, which nothing but its tests calls.
--   Database        internal/database/models.go, and the table cache_entries: its rows, and the SQL
--                   statements on lists of rows; Database/Repository and Database/Queries have
--                   CacheRepository (cache_repository.go), Database/Client PostgreSQLClient
--                   (interface.go), Database/Table the map that the table is. Database/History has
--                   the calls as data.
--   Operations      internal/operations/instance_ops.go: Operations/Load has LoadInstance and
--                   DeleteInstance, Operations/Backup BackupInstance and RestoreInstance.
--   Sdk             The client SDK: Sdk/Config (sdk/config.go), Sdk/Transport (performHTTPRequest,
--                   executeRequest and do of sdk/native.go, parseAPIError), Sdk/Client
--                   (sdk/client.go, sdk/serializer.go), Sdk/Setup (NewClient and newHTTPTransport),
--                   Sdk/Observer (sdk/observer.go), Sdk/Typed (sdk/typed.go).
--   Prelude         What the parts share: texts, maps, the functions of Go's package strings that the
--                   code uses, and tests on numbers.
-- The modules under each part hold its lemmas and, in Tests, its runs at concrete inputs.
--
-- State. What a method changes through its receiver is a value that its function takes and returns.
-- The state of everything outside the program (Redis, the database) is a parameter S or D that calls
-- pass on, and its entries are seen through a function `stored`. Code outside the repository is a
-- parameter: the Redis client (Client, IsRedis), the store of the registry (Store, IsStore), the
-- encoding of JSON (Codec), the database (Database) and the float64 arithmetic (Floats). The laws
-- that are asked of them say what is documented; an entry does not expire between two calls, and
-- nobody else writes the keys in question. A SQL statement is a function on the rows and comes with
-- the error that it meets, if any; the documents of JSONB columns are a parameter J that texts are
-- read as and printed from; `triggered` says whether the table has the triggers of
-- scripts/init-db.sql. A query's rows come one by one (Source), and the connection may fail between
-- them. A request of the SDK is given by the reply of each attempt (Reply, Attempt), and JSON by Wire.
-- A call of the client is a Plan: it ends, or sends one request and goes on with the answer.
--
-- Locks. A function is an operation from its call to its return. Where the source lets go of a lock
-- within one, or holds none, the parts are functions of their own, and step relations put other calls
-- between them: for Execute of a breaker (Circuit/Invariant); for the registry, which holds a lock
-- only for a change of its maps, between the store and the memory cache in Get, Register and Delete
-- and within refreshTTL (Registry/Steps); and for a worker, which takes a request, calls the database
-- and waits before a retry (AsyncWriter/Steps). For getOrCreate of the manager, Circuit/Endpoints lets
-- two callers both find nothing under the first. Elsewhere operations are taken one after the other.
-- Fiber's buffers are used again after a handler: the key and the body that a task or the queue then
-- holds are given by `held`, while an instance ID is taken as a copy.
--
-- Numbers. Times and durations are nanoseconds in ℕ, and a call of the clock is an argument. An int
-- that the source only counts up or compares is a ℕ: the counters of a breaker and the retries of a
-- write stay below their thresholds, so they do not overflow; a negative threshold acts as 0 does.
-- Strings are lists of code points, which is what the functions used do for valid UTF-8.
--
-- Fuel. Only the executor of Retry runs on fuel, also under the transport of the SDK: its loop ends by
-- the budget. As many rounds as the budget has attempts are enough, and a budget without a bound on
-- attempts runs as long as the source does. The loops over rows and lines are recursion on lists.
--
-- Not modelled: health checks and routes, the HTTP of requests to the primary, the pool of database
-- connections, the WebAssembly transport of the SDK; instance monitoring, object storage, telemetry,
-- metrics, configuration from the environment and process start-up, which are input and output or calls of
-- other libraries; Ping, Close, Scan, pool statistics and the expiry of entries in the cache.
mod Prelude
pub mod Keys
pub mod Circuit
pub mod Errors
pub mod Retry
pub mod Instance
pub mod Cache
pub mod Registry
pub mod Middleware
pub mod AsyncWriter
pub mod Handlers
pub mod Database
pub mod Operations
pub mod Sdk
