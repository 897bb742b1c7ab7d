-- ===== src/Server/Worker/Tests.antt =====
-- A worker at a queue of one message, whose request runs a program.
use operating_system_whw.Common.{◌≡◌, refl, true, none, some, [], ◌∷◌, arith}
use operating_system_whw.Heap.{null, MetaData, Heap, write, node, message, meta_data}
use operating_system_whw.Heap.Returns.{Returns}
use operating_system_whw.Heap.Cells.{Cell, nil, cons}
use operating_system_whw.MessageQueue.Types.{block, MessageQueue, new_queue}
use operating_system_whw.MessageQueue.Holds.{IsQueue}
use operating_system_whw.Request.{Request, request_read_headers, headers_loop}
use operating_system_whw.Request.Ended.{HeadersEnd, Answered}
use operating_system_whw.Server.Worker.{Worker, worker_round, stamped}
use operating_system_whw.Server.Worker.Serve.{Served, worker_round-Served}
use operating_system_whw.Server.Worker.Counts.{Agrees, request_handle-Agrees}

abbrev info : MetaData
info = record {
  arrival_time = record { tv_sec = 7; tv_usec = 900000 };
  dispatch_time = record { tv_sec = 0; tv_usec = 0 };
  thread_id = 0;
  requests_count = 0;
  num_static_requests = 0;
  num_dynamic_requests = 0;
}

abbrev first : Cell
first = record { node_at = 10; message_at = 11; meta_at = 12; content = 5; info = info }

abbrev heap : Heap
heap =
    write
      (write (write (λ a. none) 12 (some (meta_data info))) 11
        (some (message (record { content = 5; meta_data = 12 }))))
      10 (some (node (record { next = null; message = 11 })))

abbrev queue : MessageQueue
queue = record (new_queue 4 block) { size = 1; head = 10; tail = 10 }

queue-IsQueue : IsQueue heap queue (first ∷ [])
unfolding write
queue-IsQueue = record {
  chain = cons refl (ground arith) (refl, refl, refl) nil;
  count = refl;
  tail_last = refl;
}

unused : heap 50 ≡ none
unfolding write
unused = refl

abbrev worker : Worker
worker = record { thread_id = 1; job_count = 3; static_count = 2; dynamic_count = 1 }

abbrev request : Request
request = record {
  method = "GET";
  uri = "output.cgi?5";
  garbage = "";
  buffer = "";
  lines = "Host: a\r\n" ∷ "\r\n" ∷ [];
  stat = λ name. some (record { regular = true; readable = true; executable = true; size = 9 });
}

request-HeadersEnd : HeadersEnd 2 request
unfolding request_read_headers headers_loop
request-HeadersEnd = λ get. ([], refl)

worker_round-Served_example :
    Returns
      (Served worker
        (record { tv_sec = 9; tv_usec = 100000 })
        (λ fd. request)
        50
        first
        []
        queue
        heap)
      (worker_round 2 worker
        (record { tv_sec = 9; tv_usec = 100000 })
        (λ fd. request)
        50
        queue
        heap)
worker_round-Served_example =
    worker_round-Served 2 worker (record { tv_sec = 9; tv_usec = 100000 }) (λ fd. request) 50
      queue-IsQueue unused request-HeadersEnd (ground arith)

request_handle-Agrees_example :
    Answered
      (Agrees worker)
      2
      request
      (stamped worker (record { tv_sec = 9; tv_usec = 100000 }) info)
request_handle-Agrees_example =
    request_handle-Agrees worker (record { tv_sec = 9; tv_usec = 100000 }) info request 2
