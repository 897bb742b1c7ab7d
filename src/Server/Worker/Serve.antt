-- ===== src/Server/Worker/Serve.antt =====
-- A whole round of a worker.
use operating_system_whw.Common.{
  ℕ, ◌⊎◌, inl, inr, false, [], ◌≡◌, ◌≢◌, refl, none, some, ◌∷◌, arith,
}
use operating_system_whw.Heap.{Ptr, null, TimeVal, MetaData, meta_data, Content, Heap, write}
use operating_system_whw.Heap.Returns
use operating_system_whw.Heap.Returns.{Returns, returns}
use operating_system_whw.Heap.Points.{
  load_message-ok, load_meta-ok, free-ok, Points-write_ne, Points-write_self,
}
use operating_system_whw.Heap.Cells.{◌∉◌, Cell, Cells, Seg-write, not-mem_of_none}
use operating_system_whw.MessageQueue.Types.{MessageQueue}
use operating_system_whw.MessageQueue.Holds.{IsQueue, Seg-Uncons}
use operating_system_whw.MessageQueue.Drop.Single.{message_free-ok}
use operating_system_whw.MessageQueue.Get.{GetTurn}
use operating_system_whw.MessageQueue.Get.Take.{Taken, mq_get-Taken}
use operating_system_whw.Request.{Request, Outcome, request_handle}
use operating_system_whw.Request.Ended.{
  request_outcome, HeadersEnd, request_handle-ended, ended_cases,
}
use operating_system_whw.Server.Worker.{
  Worker, WorkerTurn, sends, closes, busy, served, stamped, count_request, finish_message,
  serve_message, worker_after, worker_round,
}

-- The worker served the connection of `c`: the request was handled with the meta data that the
-- worker stamped, the response was sent, the connection was closed, and the worker counts it. The
-- queue holds `xs`; the node, the message, its copy and the meta data are given back.
pub record Served (w : Worker) (now : TimeVal) (requests : Content → Request) (fresh : Ptr)
    (c : Cell) (xs : Cells) (mq : MessageQueue) (h : Heap) (turn : WorkerTurn) (g : Heap)
    : Type 0 where
  pub queue : MessageQueue
  pub answer :
      let out : Outcome = request_outcome (requests c.content) (stamped w now c.info) in
      turn ≡ served (count_request w out.0) (sends c.content out.1 ∷ closes c.content ∷ []) queue
  pub rest : IsQueue g queue xs
  pub node_gone : g c.node_at ≡ none
  pub message_gone : g c.message_at ≡ none
  pub meta_gone : g c.meta_at ≡ none
  pub copy_gone : g fresh ≡ none
  pub frame : (a : Ptr) → a ∉ (c ∷ []) → a ≢ fresh → g a ≡ h a
  pub capacity : queue.capacity ≡ mq.capacity
  pub policy : queue.sched_policy ≡ mq.sched_policy
  pub quarter : queue.random_drop_count ≡ mq.random_drop_count
  pub unlocked : queue.locked ≡ false

-- The worker is in `requestHandle` with the connection of `c`; the queue holds `xs`.
pub record Held (fresh : Ptr) (c : Cell) (xs : Cells) (mq : MessageQueue) (h : Heap)
    (turn : WorkerTurn) (g : Heap) : Type 0 where
  pub queue : MessageQueue
  pub answer : turn ≡ busy c.content queue
  pub rest : IsQueue g queue xs
  pub frame : (a : Ptr) → a ∉ (c ∷ []) → a ≢ fresh → g a ≡ h a
  pub capacity : queue.capacity ≡ mq.capacity
  pub policy : queue.sched_policy ≡ mq.sched_policy
  pub quarter : queue.random_drop_count ≡ mq.random_drop_count

module _ (fuel : ℕ) (w : Worker) (now : TimeVal) (requests : Content → Request) {h : Heap}
    {mq : MessageQueue} {c : Cell} {xs : Cells} (fresh : Ptr) (is : IsQueue h mq (c ∷ xs))
    (unused : h fresh ≡ none) where
  abbrev stamp : MetaData
  stamp = stamped w now c.info

  after-Served :
      {turn : GetTurn} {g : Heap}
      → HeadersEnd fuel (requests c.content)
      → Taken fresh c xs mq h turn g
      → Returns (Served w now requests fresh c xs mq h) (worker_after fuel w now requests turn g)
  unfolding worker_after serve_message finish_message write
  after-Served {turn} {g} ends t =
      let u = Seg-Uncons is.chain in
      let live = t.copy.message_live in
      let out : Outcome = request_outcome (requests c.content) stamp in
      let apart : fresh ≢ c.meta_at = ground (arith, live.holds, t.copy.meta_live.holds) in
      let g1 : Heap = write g c.meta_at (some (meta_data stamp)) in
      let g2 : Heap = write g1 c.meta_at (some (meta_data out.2)) in
      let meta_live = Points-write_self g1 c.meta_at (meta_data out.2) t.copy.meta_live.ne_null in
      let g3 : Heap = write g2 c.meta_at none in
      let copy_live =
        Points-write_ne none
          (Points-write_ne (some (meta_data out.2))
            (Points-write_ne (some (meta_data stamp)) live apart) apart)
          apart in
      let meta_out = u.apart.2 in
      let fresh_out = not-mem_of_none fresh u.rest unused in
      let chain =
        Seg-write fresh none
          (Seg-write c.meta_at none
            (Seg-write c.meta_at (some (meta_data out.2))
              (Seg-write c.meta_at (some (meta_data stamp)) t.rest.chain meta_out) meta_out)
            meta_out)
          fresh_out in
      rw
        (
          t.answer,
          worker_after,
          serve_message,
          load_message-ok live,
          load_meta-ok t.copy.meta_live,
          request_handle-ended fuel (requests c.content) stamp ends,
          finish_message,
          free-ok meta_live,
          message_free-ok fresh g3 live.ne_null,
          free-ok copy_live,
        )
        (returns (record {
          queue = t.queue;
          answer = refl;
          rest = record { chain = chain; count = t.rest.count; tail_last = t.rest.tail_last };
          node_gone = ground (arith, t.node_gone);
          message_gone = ground (arith, t.message_gone);
          meta_gone = ground arith;
          copy_gone = ground arith;
          frame = λ a out ne. ground (arith, t.frame a out ne, out, ne);
          capacity = t.kept.0;
          policy = t.kept.1;
          quarter = t.kept.2;
          unlocked = t.unlocked;
        }))

  after-Held :
      {turn : GetTurn} {g : Heap}
      → request_handle fuel (requests c.content) stamp ≡ none
      → Taken fresh c xs mq h turn g
      → Returns (Held fresh c xs mq h) (worker_after fuel w now requests turn g)
  unfolding worker_after serve_message write
  after-Held {turn} {g} stuck t =
      let u = Seg-Uncons is.chain in
      rw
        (
          t.answer,
          worker_after,
          serve_message,
          load_message-ok t.copy.message_live,
          load_meta-ok t.copy.meta_live,
          stuck,
        )
        (returns (record {
          queue = t.queue;
          answer = refl;
          rest = record {
            chain = Seg-write c.meta_at (some (meta_data stamp)) t.rest.chain u.apart.2;
            count = t.rest.count;
            tail_last = t.rest.tail_last;
          };
          frame = λ a out ne. ground (arith, t.frame a out ne, out, ne);
          capacity = t.kept.0;
          policy = t.kept.1;
          quarter = t.kept.2;
        }))

  -- A round of a worker at a queue that holds a message, with memory for the copy, for a connection
  -- whose headers end within the tests that the round makes: the request is handled with the meta
  -- data stamped by the worker, the response is sent, then the connection is closed, and the worker
  -- counts the request. The queue then holds the other messages, and the node, the message, its copy
  -- and the meta data are given back.
  pub worker_round-Served :
      HeadersEnd fuel (requests c.content)
      → fresh ≢ null
      → Returns
          (Served w now requests fresh c xs mq h)
          (worker_round fuel w now requests fresh mq h)
  unfolding worker_round
  worker_round-Served ends ne =
      Returns.bind (mq_get-Taken fresh is ne unused) λ turn g t. after-Served ends t

  worker_round-Held :
      request_handle fuel (requests c.content) stamp ≡ none
      → fresh ≢ null
      → Returns (Held fresh c xs mq h) (worker_round fuel w now requests fresh mq h)
  unfolding worker_round
  worker_round-Held stuck ne =
      Returns.bind (mq_get-Taken fresh is ne unused) λ turn g t. after-Held stuck t

  -- Whether the headers end or not.
  pub worker_round-either :
      fresh ≢ null
      → Returns
          (λ turn g. Served w now requests fresh c xs mq h turn g ⊎ Held fresh c xs mq h turn g)
          (worker_round fuel w now requests fresh mq h)
  worker_round-either ne = elim (ended_cases fuel (requests c.content) stamp) [
    | inl ends ↦ Returns.mono (worker_round-Served ends ne) (λ turn g s. inl s)
    | inr stuck ↦ Returns.mono (worker_round-Held stuck ne) (λ turn g s. inr s)
  ]
