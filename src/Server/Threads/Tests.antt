-- ===== src/Server/Threads/Tests.antt =====
-- A run of the threads of HW3/server.c: a worker that sleeps, and then a new connection.
use operating_system_whw.Common.{length, ◌<◌, ◌≡◌, refl, none, [], ◌∷◌, arith, false, true}
use operating_system_whw.Heap.{TimeVal, Heap, ok, load_meta, write, load_message, free}
use operating_system_whw.Heap.Cells.{Cells}
use operating_system_whw.Message.{
  build_message_meta_data, message_create, message_copy, message_free,
}
use operating_system_whw.MessageQueue.Put.{mq_put, put_prepare, put_loop, put_finish, put_insert}
use operating_system_whw.Server.Accept.{set_arrival, accept_after, close_dropped}
use operating_system_whw.Server.Threads.{WorkersReach, serves}
use operating_system_whw.Server.Threads.Drain.{IsDrained, Reach-IsDrained}
use operating_system_whw.Heap.Cells.{nil}
use operating_system_whw.MessageQueue.Types.{MessageQueue, new_queue, sleep, drop_head}
use operating_system_whw.MessageQueue.Holds.{IsQueue, IsBounded}
use operating_system_whw.MessageQueue.Get.{mq_get, mq_get_resume}
use operating_system_whw.MessageQueue.Put.Meets.{Provides}
use operating_system_whw.Request.{Request, request_read_headers, headers_loop}
use operating_system_whw.Request.Ended.{HeadersEnd}
use operating_system_whw.Server.Accept.{AcceptTurn, Arrival, accept_round}
use operating_system_whw.Server.Accept.Arrive.{Fresh, cell_of}
use operating_system_whw.Server.Worker.{Worker, WorkerTurn, worker_round, worker_after}
use operating_system_whw.Server.Threads.{
  Threads, Step, accepts, works, here, then_step, settle, serve,
}
use operating_system_whw.Server.Threads.Sound.{IsSound}
use operating_system_whw.Server.Threads.Awake.{IsAwake, Reach-IsAwake}
use operating_system_whw.Server.Threads.Runs.{started, Reach-IsSound}

abbrev empty : Heap
empty a = none

abbrev noon : TimeVal
noon = record { tv_sec = 12; tv_usec = 0 }

abbrev worker : Worker
worker = record { thread_id = 0; job_count = 0; static_count = 0; dynamic_count = 0 }

abbrev request : Request
request = record {
  method = "GET";
  uri = "/";
  garbage = "";
  buffer = "";
  lines = "Host: a\r\n" ∷ "\r\n" ∷ [];
  stat = λ name. none;
}

-- Two tests end its headers.
request-HeadersEnd : HeadersEnd 2 request
unfolding request_read_headers headers_loop
request-HeadersEnd = λ get. ([], refl)

abbrev waiting_queue : MessageQueue
waiting_queue = record (new_queue 2 drop_head) {
  locked = false;
  cond_put = sleep (new_queue 2 drop_head).cond_put;
}

abbrev asleep_threads : Threads
asleep_threads = record (started empty 2 drop_head) { queue = waiting_queue }

-- The only worker of the pool.
sleeps : Step 1 (started empty 2 drop_head) asleep_threads
unfolding worker_round worker_after mq_get mq_get_resume serve
sleeps = serves (
    works 2 worker noon (λ fd. request) 9 (WorkerTurn.asleep waiting_queue) empty (omega arith)
      (ground arith) refl refl refl)

abbrev arrival : Arrival
arrival = record {
  conn_fd = 6;
  now = noon;
  meta = 1;
  garbage = record {
    arrival_time = noon;
    dispatch_time = noon;
    thread_id = 0;
    requests_count = 0;
    num_static_requests = 0;
    num_dynamic_requests = 0;
  };
  message = 2;
  put = record { copy = 3; node = 4; indexes = true; draws = [] };
}

arrival-Fresh : Fresh empty arrival
arrival-Fresh = ground arith

queue-Provides : Provides waiting_queue arrival.put (record { contents = 0 ∷ []; amount = 0 })
queue-Provides = record {
  none_yet = refl;
  one = λ ne. omega arith;
  quarter = λ random. cc;
  memory = λ random. cc;
  draws = λ random. cc;
}

queue-IsQueue : IsQueue empty waiting_queue []
queue-IsQueue = record { chain = nil; count = refl; tail_last = refl }

queue-IsBounded : IsBounded waiting_queue
queue-IsBounded = record { within = omega arith; quarter = refl; has_policy = λ e. cc }

-- How the turn of the accept loop ends.
accept_end :
    (turn : AcceptTurn) × (g : Heap) × (accept_round arrival waiting_queue (0 ∷ []) empty
      ≡ ok turn g)
unfolding accept_round build_message_meta_data set_arrival load_meta write message_create mq_put
    put_prepare message_copy load_message put_loop put_finish put_insert accept_after message_free
    free close_dropped
accept_end = (_, _, refl)

abbrev accepted : Threads
accepted =
    settle (cell_of arrival) accept_end.0 accept_end.1 (record asleep_threads { arrived = 6 ∷ [] })

arrives : Step 1 asleep_threads accepted
arrives =
    accepts arrival (0 ∷ []) accept_end.0 accept_end.1 refl arrival-Fresh queue-Provides
      accept_end.2 refl

Reach-IsSound_example : IsSound accepted
Reach-IsSound_example =
    Reach-IsSound empty 2 drop_head (omega arith) (λ e. cc) (λ random. cc)
      (then_step (then_step here sleeps) arrives)

Reach-IsAwake_example : IsAwake accepted
Reach-IsAwake_example =
    Reach-IsAwake empty 2 drop_head (omega arith) (λ e. cc) (λ random. cc)
      (then_step (then_step here sleeps) arrives)

accepted_free : accepted.heap 9 ≡ none
unfolding settle accept_end write
accepted_free = refl

none_busy : length accepted.busy < 1
unfolding settle accept_end
none_busy = omega arith

Reach-IsDrained_example :
    (xs : Cells) × IsQueue accepted.heap accepted.queue xs
    × (u : Threads) × WorkersReach 1 accepted u
    × IsDrained accepted xs u
Reach-IsDrained_example =
    Reach-IsDrained 1 2 worker noon (λ fd. request) 9 (ground arith) (λ v. request-HeadersEnd) empty
      2 drop_head (omega arith) (λ e. cc) (λ random. cc) (then_step (then_step here sleeps) arrives)
      none_busy accepted_free
