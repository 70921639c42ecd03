-- ===== src/AsyncWriter.antt =====
-- internal/api/async_writer.go: the queue of background writes and its workers. The database is a
-- parameter. A worker that sleeps before it queues a request again holds that request. The metrics
-- and the log are left out.
pub mod Steps
pub mod Accounts
pub mod Tests
use birb_nest.Prelude.{
  ℕ, ◌+◌, ◌*◌, ◌≡◌, Bool, true, false, Option, none, some, List, [], ◌∷◌, ◌++◌, length, Text, ltb,
  if◌then◌else◌,
}
use birb_nest.Cache.{Bytes}

-- WriteRequest, without its Go context
pub record WriteRequest : Type 0 where
  pub key : Text
  pub value : Bytes
  pub timestamp : ℕ
  pub retries : ℕ
  pub instance_id : Text

-- AsyncWriter: the channel, its capacity and whether it is closed.
pub record AsyncWriter : Type 0 where
  pub queue : List WriteRequest
  pub capacity : ℕ
  pub closed : Bool
  pub workers : ℕ
  pub max_retry : ℕ

unfoldable pub new_async_writer : ℕ → ℕ → AsyncWriter
new_async_writer queue_size workers = record {
  queue = [];
  capacity = queue_size;
  closed = false;
  workers = workers;
  max_retry = 3;
}

-- What a select with a send and a default does: it sends, takes the default, or panics because the
-- channel is closed.
pub data Sent : Type 0 where
  queued full panicked : Sent

-- By whether the channel is closed, and has room.
send_in : Bool → Bool → WriteRequest → AsyncWriter → Sent × AsyncWriter
send_in true room req aw = (panicked, aw)
send_in false true req aw = (queued, record aw { queue = aw.queue ++ (req ∷ []) })
send_in false false req aw = (full, aw)

unfoldable pub send : WriteRequest → AsyncWriter → Sent × AsyncWriter
unfolding send_in
send req aw = send_in aw.closed (ltb (length aw.queue) aw.capacity) req aw

unfoldable pub write : ℕ → Text → Bytes → Text → AsyncWriter → Sent × AsyncWriter
unfolding send
write now key value instance_id aw =
    send
      (record { key = key; value = value; timestamp = now; retries = 0; instance_id = instance_id })
      aw

-- SetWithInstance of the database, with its key, instance ID and value.
pub record Database (D : Type 0) : Type 0 where
  pub set_with_instance : Text → Text → Bytes → D → Option Text × D

-- What a worker does with a request after the call of the database: it is done, it sleeps and
-- queues the request again, or it gives up.
pub data Next : Type 0 where
  done give_up : Next
  again : WriteRequest → Next

after_call : ℕ → WriteRequest → Option Text → Next
after_call max_retry req none = done
after_call max_retry req (some e) =
    if ltb req.retries max_retry then again (record req { retries = req.retries + 1 }) else give_up

-- The loop of a worker for one request, up to the sleep.
unfoldable pub process : {D : Type 0} → Database D → ℕ → WriteRequest → D → Next × D
unfolding after_call
process db max_retry req w =
    let (e, w') = db.set_with_instance req.key req.instance_id req.value w in
    (after_call max_retry req e, w')

-- time.Duration(req.Retries) * time.Second
unfoldable pub backoff : WriteRequest → ℕ
backoff req = req.retries * 1_000_000_000

unfoldable pub queue_depth : AsyncWriter → ℕ
queue_depth aw = length aw.queue

unfoldable pub stats : AsyncWriter → ℕ × ℕ × ℕ
stats aw = (length aw.queue, aw.capacity, aw.workers)

unfoldable pub shutdown : AsyncWriter → AsyncWriter
shutdown aw = record aw { closed = true }
