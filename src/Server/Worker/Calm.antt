-- ===== src/Server/Worker/Calm.antt =====
-- What a round of a worker of HW3/server.c leaves of the condition variables.
use operating_system_whw.Common.{[], ◌∷◌, none, some, Option, ℕ, ◌≡◌}
use operating_system_whw.Heap.{
  pure, Cmd, Message, Ptr, TimeVal, meta_data, Content, Heap, store, load_message, load_meta, free,
}
use operating_system_whw.Heap.Ends.{Ends, ended, faulty, chain, skip}
use operating_system_whw.Message.{message_free}
use operating_system_whw.MessageQueue.Types.{
  drop, err_null_args, err_memory_fail, success, MessageQueue, signal,
}
use operating_system_whw.MessageQueue.Calm.{Awake}
use operating_system_whw.MessageQueue.Calm.Gets.{Due, Got, mq_get-Got}
use operating_system_whw.MessageQueue.Get.{GetTurn}
use operating_system_whw.Request.{Request, Outcome, request_handle}
use operating_system_whw.Server.Worker.{
  busy, closes, sends, finish_message, Worker, WorkerTurn, asleep, served, ended as stopped,
  stamped, count_request, serve_message, worker_after, worker_round,
}

-- A worker sleeps at the queue as it was, or it took a message and gave the signal.
abbrev pub Worked : MessageQueue → WorkerTurn → Type 0
Worked mq (asleep after) =
    Awake after
    × (after.cond_get ≡ mq.cond_get)
    × (after.size ≡ mq.size)
    × (after.capacity ≡ mq.capacity)
Worked mq (busy content after) = Awake after × (after.cond_get ≡ signal mq.cond_get)
Worked mq (served w acts after) = Awake after × (after.cond_get ≡ signal mq.cond_get)
Worked mq stopped = ⊥

module _ (fuel : ℕ) (w : Worker) (now : TimeVal) (requests : Content → Request)
    (mq : MessageQueue) where
  finish-Worked :
      (p : Ptr) (m : Message) (out : Outcome) (taken : MessageQueue) (h : Heap)
      → Awake taken
      → taken.cond_get ≡ signal mq.cond_get
      → Ends (Worked mq) (finish_message w p m out taken h)
  unfolding finish_message
  finish-Worked p m out taken h awake told = skip (store m.meta_data (meta_data out.2) h) (λ v h4.
      skip (free m.meta_data h4) (λ x h5. skip (message_free p h5) (λ y h6.
        ended
          {value = served (count_request w out.0) (sends m.content out.1 ∷ closes m.content ∷ [])
            taken}
          {final = h6} (awake, told))))

  answer-Worked :
      (p : Ptr) (m : Message) (answer : Option Outcome) (taken : MessageQueue) (h : Heap)
      → Awake taken
      → taken.cond_get ≡ signal mq.cond_get
      → Ends (Worked mq) (
          (elim answer as (λ _. Cmd WorkerTurn) [
            | none ↦ pure (busy m.content taken)
            | some out ↦ finish_message w p m out taken
          ])
            h)
  answer-Worked p m none taken h awake told =
      ended {value = busy m.content taken} {final = h} (awake, told)
  answer-Worked p m (some out) taken h awake told = finish-Worked p m out taken h awake told

  message-Worked :
      (p : Ptr) (taken : MessageQueue) (h : Heap)
      → Awake taken
      → taken.cond_get ≡ signal mq.cond_get
      → Ends (Worked mq) (serve_message fuel w now requests p taken h)
  unfolding serve_message
  message-Worked p taken h awake told = skip (load_message p h) (λ m h1.
      skip (load_meta m.meta_data h1) (λ info h2.
        skip (store m.meta_data (meta_data (stamped w now info)) h2) (λ u h3.
          answer-Worked p m (request_handle fuel (requests m.content) (stamped w now info)) taken h3
            awake told)))

  after-Worked :
      (turn : GetTurn) (h : Heap)
      → Got mq turn
      → Ends (Worked mq) (worker_after fuel w now requests turn h)
  unfolding worker_after
  after-Worked (GetTurn.refused code) h got = faulty
  after-Worked (GetTurn.waits after) h got = ended got
  after-Worked (GetTurn.returned success p after) h got = message-Worked p after h got.0 got.1
  after-Worked (GetTurn.returned drop p after) h got = cc
  after-Worked (GetTurn.returned err_null_args p after) h got = cc
  after-Worked (GetTurn.returned err_memory_fail p after) h got = cc

  pub worker_round-Worked :
      (fresh : Ptr) (h : Heap)
      → Due mq
      → Ends (Worked mq) (worker_round fuel w now requests fresh mq h)
  unfolding worker_round
  worker_round-Worked fresh h due =
      chain (mq_get-Got fresh mq h due) (λ turn got h1. after-Worked turn h1 got)
