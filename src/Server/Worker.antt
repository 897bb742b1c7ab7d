-- ===== src/Server/Worker.antt =====
-- A round of the loop of `workerThreadJob` in HW3/server.c: from `MQGet` to the next `MQGet`. A round
-- sleeps where `MQGet` does.
pub mod Serve
pub mod Counts
pub mod Calm
mod Tests
use operating_system_whw.Common.{
  List, [], ◌∷◌, ℕ, ◌+◌, ◌-◌, Bool, true, false, Option, none, some, ltb, if◌then◌else◌, ℤ, pos,
  negsuc, zero, suc,
}
use operating_system_whw.Heap.{
  fault, Ptr, TimeVal, MetaData, Message, meta_data, Content, Cmd, pure, ◌>>=◌, ◌>>◌, store,
  load_message, load_meta, free,
}
use operating_system_whw.Message.{message_free}
use operating_system_whw.MessageQueue.Types.{
  drop, err_null_args, err_memory_fail, success, RetCode, MessageQueue,
}
use operating_system_whw.MessageQueue.Get.{GetTurn, mq_get, mq_get_resume}
use operating_system_whw.Request.{Response, Request, Outcome, request_handle}

-- `timersub`, for a first time that is not before the second.
unfoldable pub time_sub : TimeVal → TimeVal → TimeVal
time_sub a b =
    if ltb a.tv_usec b.tv_usec
    then record { tv_sec = a.tv_sec - b.tv_sec - 1; tv_usec = a.tv_usec + 1000000 - b.tv_usec }
    else record { tv_sec = a.tv_sec - b.tv_sec; tv_usec = a.tv_usec - b.tv_usec }

-- The thread's number and its three counters.
pub record Worker : Type 0 where
  pub thread_id : ℕ
  pub job_count : ℕ
  pub static_count : ℕ
  pub dynamic_count : ℕ

-- The meta data as the worker fills it before it handles the request.
abbrev pub stamped : Worker → (now : TimeVal) → MetaData → MetaData
stamped w now m = record m {
  thread_id = w.thread_id;
  dispatch_time = time_sub now m.arrival_time;
  requests_count = w.job_count + 1;
  num_static_requests = w.static_count;
  num_dynamic_requests = w.dynamic_count;
}

-- The counters after a request, by the result of `requestHandle`.
unfoldable pub count_request : Worker → ℤ → Worker
count_request w (negsuc zero) = record w { job_count = w.job_count + 1 }
count_request w (pos zero) = record w {
  job_count = w.job_count + 1;
  dynamic_count = w.dynamic_count + 1;
}
count_request w _ = record w { job_count = w.job_count + 1; static_count = w.static_count + 1 }

-- What a worker does to a connection.
pub data WorkerAct : Type 0 where
  sends : Content → Response → WorkerAct
  closes : Content → WorkerAct

pub data WorkerTurn : Type 0 where
  -- the thread sleeps in `MQGet`
  asleep : MessageQueue → WorkerTurn
  -- the thread is in `requestHandle` with the connection, whose headers have not ended
  busy : Content → MessageQueue → WorkerTurn
  -- the round is over
  served : Worker → List WorkerAct → MessageQueue → WorkerTurn
  -- the loop ends
  ended : WorkerTurn

-- From the return of `requestHandle` to the end of the round.
unfoldable pub finish_message :
    Worker → (message : Ptr) → Message → Outcome → MessageQueue → Cmd WorkerTurn
finish_message w p m out mq = do
  store m.meta_data (meta_data out.2)
  free m.meta_data
  message_free p
  pure (served (count_request w out.0) (sends m.content out.1 ∷ closes m.content ∷ []) mq)

-- What the worker does with the message that `MQGet` handed out. The loop of `requestReadhdrs` makes
-- `fuel` tests.
unfoldable pub serve_message :
    (fuel : ℕ)
    → Worker
    → (now : TimeVal) → (Content → Request)
    → (message : Ptr) → MessageQueue
    → Cmd WorkerTurn
serve_message fuel w now requests p mq = do
  m ← load_message p
  info ← load_meta m.meta_data
  store m.meta_data (meta_data (stamped w now info))
  elim (request_handle fuel (requests m.content) (stamped w now info)) [
    | none ↦ pure (busy m.content mq)
    | some out ↦ finish_message w p m out mq
  ]

-- What follows a turn of `MQGet`. The code reads the message before it tests the code, so a call
-- that was refused would leave it to read through a pointer that was never set.
unfoldable pub worker_after :
    (fuel : ℕ) → Worker → (now : TimeVal) → (Content → Request) → GetTurn → Cmd WorkerTurn
worker_after fuel w now requests (GetTurn.refused code) = λ _. fault
worker_after fuel w now requests (GetTurn.waits mq) = pure (asleep mq)
worker_after fuel w now requests (GetTurn.returned success p mq) =
    serve_message fuel w now requests p mq
worker_after fuel w now requests (GetTurn.returned drop p mq) = pure ended
worker_after fuel w now requests (GetTurn.returned err_null_args p mq) = pure ended
worker_after fuel w now requests (GetTurn.returned err_memory_fail p mq) = pure ended

-- A round, with the requests that the connections send. `fresh` is what `malloc` returns in `MQGet`.
unfoldable pub worker_round :
    (fuel : ℕ)
    → Worker
    → (now : TimeVal) → (Content → Request)
    → (fresh : Ptr) → MessageQueue
    → Cmd WorkerTurn
worker_round fuel w now requests fresh mq =
    mq_get fresh (some mq) true >>= worker_after fuel w now requests
