-- ===== src/AsyncWriter/Accounts.antt =====
-- Every write that was accepted is accounted for, and costs at most four calls of the database.
use birb_nest.Prelude.{
  ℕ, ◌+◌, ◌*◌, ◌-◌, ◌≤◌, ◌<◌, ◌≡◌, refl, subst, ◌∙◌, ap, Bool, true, false, ltb, Option, none, some,
  List, [], ◌∷◌, ◌++◌, length, length-append, Text, All, arith, Bool-cases, inl, inr,
}
use birb_nest.Cache.{Bytes}
use birb_nest.AsyncWriter.{
  WriteRequest, AsyncWriter, new_async_writer, send, send_in, write, Database, process, after_call,
}
use birb_nest.AsyncWriter.Steps.{
  System, submitted, taken, worked, woken, Step, submit, take, work, wake, Reach, here, next,
  started,
}

-- The calls that the requests of a list may still cost, of four for each.
abbrev due : List WriteRequest → ℕ
due [] = 0
due (req ∷ reqs) = (4 - req.retries) + due reqs

due-append : (xs ys : List WriteRequest) → due (xs ++ ys) ≡ due xs + due ys
due-append [] ys = omega arith
due-append (x ∷ xs) ys = rw (due-append xs ys) (omega arith)

abbrev Few : WriteRequest → Type 0
Few req = req.retries ≤ 3

Few-append : (xs ys : List WriteRequest) → All Few xs → All Few ys → All Few (xs ++ ys)
Few-append [] ys a b = b
Few-append (x ∷ xs) ys a b = (a.0, Few-append xs ys a.1 b)

Few-split : (xs ys : List WriteRequest) → All Few (xs ++ ys) → All Few xs × All Few ys
Few-split [] ys a = (tt, a)
Few-split (x ∷ xs) ys a = let (b, c) = Few-split xs ys a.1 in ((a.0, b), c)

pub record IsAccounted {D : Type 0} (s : System D) : Type 0 where
  pub retry_limit : s.writer.max_retry ≡ 3
  pub queue_bound : length s.writer.queue ≤ s.writer.capacity
  pub worker_bound : length s.in_hand + length s.sleeping ≤ s.writer.workers
  pub queue_retries : All Few s.writer.queue
  pub hand_retries : All Few s.in_hand
  pub sleeping_retries : All Few s.sleeping
  pub fates :
      s.accepted
      ≡ length s.writer.queue + length s.in_hand + length s.sleeping + s.stored + s.dropped
  pub cost : s.calls + due s.writer.queue + due s.in_hand + due s.sleeping ≤ 4 * s.accepted

head_parts :
    (xs : List WriteRequest) (req : WriteRequest) (rest : List WriteRequest)
    → xs ≡ req ∷ rest
    → All Few xs
    → (length xs ≡ 1 + length rest)
      × (due xs ≡ (4 - req.retries) + due rest)
      × Few req
      × All Few rest
head_parts xs req rest q a =
    let b : All Few (req ∷ rest) = subst (All Few) q a in
    (ap length q ∙ omega arith, ap due q, b.0, b.1)

middle_parts :
    (zs xs : List WriteRequest) (req : WriteRequest) (ys : List WriteRequest)
    → zs ≡ xs ++ (req ∷ ys)
    → All Few zs
    → (length zs ≡ 1 + length (xs ++ ys))
      × (due zs ≡ (4 - req.retries) + due (xs ++ ys))
      × Few req
      × All Few (xs ++ ys)
middle_parts zs xs req ys q a =
    let (b, c) = Few-split xs (req ∷ ys) (subst (All Few) q a) in
    let l = length-append xs (req ∷ ys) in
    let m = length-append xs ys in
    let d = due-append xs (req ∷ ys) in
    let e = due-append xs ys in
    (ap length q ∙ omega arith, ap due q ∙ omega arith, c.0, Few-append xs ys b c.1)

-- A request added to the queue where there is room.
abbrev fits : WriteRequest → AsyncWriter → AsyncWriter
fits req aw = record aw { queue = aw.queue ++ (req ∷ []) }

module _ {D : Type 0} where
  -- The queue takes a request that leaves the sleeping ones as `others`.
  queue-IsAccounted :
      (s : System D) (req : WriteRequest) (others : List WriteRequest) (n : ℕ)
      → length s.writer.queue < s.writer.capacity
      → length s.in_hand + length others ≤ s.writer.workers
      → s.writer.max_retry ≡ 3
      → Few req
      → All Few s.writer.queue
      → All Few s.in_hand
      → All Few others
      → n ≡ 1 + length s.writer.queue + length s.in_hand + length others + s.stored + s.dropped
      → s.calls + due s.writer.queue + (4 - req.retries) + due s.in_hand + due others ≤ 4 * n
      → IsAccounted (record s { writer = fits req s.writer; sleeping = others; accepted = n })
  queue-IsAccounted s req others n room idle m few a i b f c =
      let len = length-append s.writer.queue (req ∷ []) in
      let sum = due-append s.writer.queue (req ∷ []) in
      record {
        retry_limit = m;
        queue_bound = omega arith;
        worker_bound = idle;
        queue_retries = Few-append s.writer.queue (req ∷ []) a (few, tt);
        hand_retries = i;
        sleeping_retries = b;
        fates = omega arith;
        cost = omega arith;
      }

  submit_in-IsAccounted :
      (s : System D) (req : WriteRequest) (b f : Bool)
      → ltb (length s.writer.queue) s.writer.capacity ≡ f
      → req.retries ≡ 0
      → IsAccounted s
      → IsAccounted (submitted (send_in b f req s.writer) s)
  unfolding send_in submitted
  submit_in-IsAccounted s req true f e z v = v
  submit_in-IsAccounted s req false true e z v =
      let room : length s.writer.queue < s.writer.capacity = ground arith in
      let f = v.fates in
      let c = v.cost in
      queue-IsAccounted s req s.sleeping (s.accepted + 1) room v.worker_bound v.retry_limit
        (omega arith) v.queue_retries v.hand_retries v.sleeping_retries (omega arith) (omega arith)
  submit_in-IsAccounted s req false false e z v = v

  submit-IsAccounted :
      (s : System D) (now : ℕ) (key : Text) (value : Bytes) (id : Text)
      → IsAccounted s
      → IsAccounted (submitted (write now key value id s.writer) s)
  unfolding write send
  submit-IsAccounted s now key value id v = submit_in-IsAccounted s _ _ _ refl refl v

  taken-IsAccounted :
      (s : System D) (req : WriteRequest) (rest : List WriteRequest)
      → length s.in_hand + length s.sleeping < s.writer.workers
      → s.writer.queue ≡ req ∷ rest
      → IsAccounted s
      → IsAccounted (taken req rest s)
  unfolding taken
  taken-IsAccounted s req rest l q v =
      let (len, sum, few, others) = head_parts s.writer.queue req rest q v.queue_retries in
      let f = v.fates in
      let c = v.cost in
      let r = v.queue_bound in
      record {
        retry_limit = v.retry_limit;
        queue_bound = omega arith;
        worker_bound = omega arith;
        queue_retries = others;
        hand_retries = (few, v.hand_retries);
        sleeping_retries = v.sleeping_retries;
        fates = omega arith;
        cost = omega arith;
      }

  worked-IsAccounted :
      (s : System D) (req : WriteRequest) (xs ys : List WriteRequest) (n : ℕ) (w : D)
      (e : Option Text)
      → s.in_hand ≡ xs ++ (req ∷ ys)
      → n ≡ 3
      → IsAccounted s
      → IsAccounted (worked (xs ++ ys) (after_call n req e, w) s)
  unfolding worked after_call
  worked-IsAccounted s req xs ys n w none q m v =
      let (len, sum, few, others) = middle_parts s.in_hand xs req ys q v.hand_retries in
      let f = v.fates in
      let c = v.cost in
      let r = v.worker_bound in
      record {
        retry_limit = v.retry_limit;
        queue_bound = v.queue_bound;
        worker_bound = omega arith;
        queue_retries = v.queue_retries;
        hand_retries = others;
        sleeping_retries = v.sleeping_retries;
        fates = omega arith;
        cost = omega arith;
      }
  worked-IsAccounted s req xs ys n w (some x) q m v =
      let (len, sum, few, others) = middle_parts s.in_hand xs req ys q v.hand_retries in
      let f = v.fates in
      let c = v.cost in
      let r = v.worker_bound in
      elim (Bool-cases (ltb req.retries n)) [
        | inl h ↦
            let less : req.retries < n = ground arith in
            rw h (record {
              retry_limit = v.retry_limit;
              queue_bound = v.queue_bound;
              worker_bound = omega arith;
              queue_retries = v.queue_retries;
              hand_retries = others;
              sleeping_retries = (omega arith, v.sleeping_retries);
              fates = omega arith;
              cost = omega arith;
            })
        | inr h ↦ rw h (record {
          retry_limit = v.retry_limit;
          queue_bound = v.queue_bound;
          worker_bound = omega arith;
          queue_retries = v.queue_retries;
          hand_retries = others;
          sleeping_retries = v.sleeping_retries;
          fates = omega arith;
          cost = omega arith;
        })
      ]

  -- A request that wakes up and finds no room, or a closed channel, is dropped.
  unqueued-IsAccounted :
      (s : System D) (req : WriteRequest) (xs ys : List WriteRequest)
      → s.sleeping ≡ xs ++ (req ∷ ys)
      → IsAccounted s
      → IsAccounted (record s { sleeping = xs ++ ys; dropped = s.dropped + 1 })
  unqueued-IsAccounted s req xs ys e v =
      let (len, sum, few, others) = middle_parts s.sleeping xs req ys e v.sleeping_retries in
      let f = v.fates in
      let c = v.cost in
      let w = v.worker_bound in
      record {
        retry_limit = v.retry_limit;
        queue_bound = v.queue_bound;
        worker_bound = omega arith;
        queue_retries = v.queue_retries;
        hand_retries = v.hand_retries;
        sleeping_retries = others;
        fates = omega arith;
        cost = omega arith;
      }

  woken-IsAccounted :
      (s : System D) (req : WriteRequest) (xs ys : List WriteRequest) (b f : Bool)
      → ltb (length s.writer.queue) s.writer.capacity ≡ f
      → s.sleeping ≡ xs ++ (req ∷ ys)
      → IsAccounted s
      → IsAccounted (woken (xs ++ ys) (send_in b f req s.writer) s)
  unfolding woken send_in
  woken-IsAccounted s req xs ys true f h e v = unqueued-IsAccounted s req xs ys e v
  woken-IsAccounted s req xs ys false false h e v = unqueued-IsAccounted s req xs ys e v
  woken-IsAccounted s req xs ys false true h e v =
      let (len, sum, few, others) = middle_parts s.sleeping xs req ys e v.sleeping_retries in
      let room : length s.writer.queue < s.writer.capacity = ground arith in
      let f = v.fates in
      let c = v.cost in
      let w = v.worker_bound in
      queue-IsAccounted s req (xs ++ ys) s.accepted room (omega arith) v.retry_limit few
        v.queue_retries v.hand_retries others (omega arith) (omega arith)

module _ {D : Type 0} (db : Database D) where
  Step-IsAccounted : {s t : System D} → Step db s t → IsAccounted s → IsAccounted t
  unfolding process send
  Step-IsAccounted (submit s now key value id) v = submit-IsAccounted s now key value id v
  Step-IsAccounted (take s req rest l q) v = taken-IsAccounted s req rest l q v
  Step-IsAccounted (work s req xs ys q) v =
      worked-IsAccounted s req xs ys s.writer.max_retry _ _ q v.retry_limit v
  Step-IsAccounted (wake s req xs ys e) v = woken-IsAccounted s req xs ys _ _ refl e v

  -- In every state that interleaved calls of Write and workers can reach from a new writer: the
  -- queue keeps within its capacity; no more requests are with workers, in a call of the database
  -- or waiting to be retried, than there are workers; no request has more than three retries behind
  -- it; each accepted write is in the queue, with a worker, was stored, or was dropped; and no more
  -- than four calls of the database have ended for each accepted write.
  pub Reach-IsAccounted :
      (size workers : ℕ) (w : D) {s : System D}
      → Reach db (started (new_async_writer size workers) w) s
      → IsAccounted s
  unfolding started new_async_writer
  Reach-IsAccounted size workers w here = record {
    retry_limit = refl;
    queue_bound = omega arith;
    worker_bound = omega arith;
    queue_retries = tt;
    hand_retries = tt;
    sleeping_retries = tt;
    fates = omega arith;
    cost = omega arith;
  }
  Reach-IsAccounted size workers w (next r st) =
      Step-IsAccounted st (Reach-IsAccounted size workers w r)
