-- ===== src/AsyncWriter/Steps.antt =====
-- The writer with its callers and workers, step by step, and the fate of each write.
use birb_nest.Prelude.{ℕ, ◌+◌, ◌<◌, ◌≡◌, List, [], ◌∷◌, ◌++◌, length, Text}
use birb_nest.Cache.{Bytes}
use birb_nest.AsyncWriter.{
  WriteRequest, AsyncWriter, Sent, queued, send, write, Database, Next, done, give_up, again,
  process,
}

-- The writer, the requests whose calls of the database are under way, those that its workers hold
-- while they sleep, the database, and how many
-- writes were accepted, stored and dropped after they had been accepted, and how often the database
-- was called.
pub record System (D : Type 0) : Type 0 where
  pub writer : AsyncWriter
  pub in_hand : List WriteRequest
  pub sleeping : List WriteRequest
  pub world : D
  pub accepted : ℕ
  pub stored : ℕ
  pub dropped : ℕ
  pub calls : ℕ

module _ {D : Type 0} where
  unfoldable pub submitted : Sent × AsyncWriter → System D → System D
  submitted (queued, aw) s = record s { writer = aw; accepted = s.accepted + 1 }
  submitted (_, aw) s = record s { writer = aw }

  -- A worker has the head of the queue.
  unfoldable pub taken : WriteRequest → List WriteRequest → System D → System D
  taken req rest s = record s {
    writer = record (s.writer) { queue = rest };
    in_hand = req ∷ s.in_hand;
  }

  -- After a worker's call of the database, which leaves `others` in the hands of workers.
  unfoldable pub worked : List WriteRequest → Next × D → System D → System D
  worked others (done, w) s = record s {
    in_hand = others;
    world = w;
    stored = s.stored + 1;
    calls = s.calls + 1;
  }
  worked others (give_up, w) s = record s {
    in_hand = others;
    world = w;
    dropped = s.dropped + 1;
    calls = s.calls + 1;
  }
  worked others (again req, w) s = record s {
    in_hand = others;
    sleeping = req ∷ s.sleeping;
    world = w;
    calls = s.calls + 1;
  }

  unfoldable pub woken : List WriteRequest → Sent × AsyncWriter → System D → System D
  woken others (queued, aw) s = record s { writer = aw; sleeping = others }
  woken others (_, aw) s = record s { writer = aw; sleeping = others; dropped = s.dropped + 1 }

  -- A call of Write; an idle worker that takes the head of the queue; the end of a worker's call of
  -- the database; a worker that wakes up and queues its request again.
  pub data Step (db : Database D) : System D → System D → Type 0 where
    submit :
        (s : System D) (now : ℕ) (key : Text) (value : Bytes) (id : Text)
        → Step db s (submitted (write now key value id s.writer) s)
    take :
        (s : System D) (req : WriteRequest) (rest : List WriteRequest)
        → length s.in_hand + length s.sleeping < s.writer.workers
        → s.writer.queue ≡ req ∷ rest
        → Step db s (taken req rest s)
    work :
        (s : System D) (req : WriteRequest) (xs ys : List WriteRequest)
        → s.in_hand ≡ xs ++ (req ∷ ys)
        → Step db s (worked (xs ++ ys) (process db s.writer.max_retry req s.world) s)
    wake :
        (s : System D) (req : WriteRequest) (xs ys : List WriteRequest)
        → s.sleeping ≡ xs ++ (req ∷ ys)
        → Step db s (woken (xs ++ ys) (send req s.writer) s)

  pub data Reach (db : Database D) (s : System D) : System D → Type 0 where
    here : Reach db s s
    next : {t u : System D} → Reach db s t → Step db t u → Reach db s u

  unfoldable pub started : AsyncWriter → D → System D
  started aw w = record {
    writer = aw;
    in_hand = [];
    sleeping = [];
    world = w;
    accepted = 0;
    stored = 0;
    dropped = 0;
    calls = 0;
  }
