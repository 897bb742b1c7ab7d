-- ===== src/Server/Accept/Tests.antt =====
-- Rounds of the accept loop at a full queue of one message.
use operating_system_whw.Common.{◌⊎◌, refl, true, none, some, [], ◌∷◌, arith}
use operating_system_whw.Heap.{null, MetaData, Heap, write, node, message, meta_data}
use operating_system_whw.Heap.Returns.{Returns}
use operating_system_whw.Heap.Cells.{Cell, nil, cons}
use operating_system_whw.MessageQueue.Types.{drop_head, MessageQueue, new_queue}
use operating_system_whw.MessageQueue.Holds.{IsQueue, IsBounded}
use operating_system_whw.MessageQueue.Put.Meets.{Provides}
use operating_system_whw.MessageQueue.Put.Policies.{Pending}
use operating_system_whw.Server.Accept.{Arrival, accept_round}
use operating_system_whw.Server.Accept.After.{MessageOf, Handled, Sleeping}
use operating_system_whw.Server.Accept.Arrive.{Fresh, cell_of}
use operating_system_whw.Server.Accept.Round.{accept_round-Handled}

abbrev info : MetaData
info = record {
  arrival_time = record { tv_sec = 7; tv_usec = 0 };
  dispatch_time = record { tv_sec = 0; tv_usec = 0 };
  thread_id = 0;
  requests_count = 0;
  num_static_requests = 0;
  num_dynamic_requests = 0;
}

abbrev old : Cell
old = record { node_at = 10; message_at = 11; meta_at = 12; content = 5; info = info }

abbrev put_cell : Cell → Heap → Heap
put_cell c h =
    write
      (write (write h c.meta_at (some (meta_data c.info))) c.message_at
        (some (message (record { content = c.content; meta_data = c.meta_at }))))
      c.node_at (some (node (record { next = null; message = c.message_at })))

abbrev heap : Heap
heap = put_cell old (λ a. none)

abbrev full : MessageQueue
full = record (new_queue 1 drop_head) { size = 1; head = 10; tail = 10 }

full-IsBounded : IsBounded full
full-IsBounded = record { within = omega arith; quarter = refl; has_policy = ground arith }

full-IsQueue : IsQueue heap full (old ∷ [])
unfolding write
full-IsQueue = record {
  chain = cons refl (ground arith) (refl, refl, refl) nil;
  count = refl;
  tail_last = refl;
}

abbrev arrival : Arrival
arrival = record {
  conn_fd = 6;
  now = record { tv_sec = 8; tv_usec = 0 };
  meta = 1;
  garbage = info;
  message = 2;
  put = record { copy = 3; node = 4; indexes = true; draws = [] };
}

fresh : Fresh heap arrival
unfolding write
fresh = ground arith

provides : Provides full arrival.put (record { contents = 0 ∷ []; amount = 0 })
provides = record {
  none_yet = refl;
  one = λ ne. omega arith;
  quarter = λ random. omega arith;
  memory = λ random. refl;
  draws = λ random. cc;
}

accept_round-Handled_example :
    Returns
      (λ turn g.
        Sleeping full (old ∷ []) (cell_of arrival) 2 turn g
        ⊎ Handled full (old ∷ []) (cell_of arrival) 2 turn g)
      (accept_round arrival full (0 ∷ []) heap)
accept_round-Handled_example =
    accept_round-Handled arrival fresh full (0 ∷ []) full-IsQueue full-IsBounded (omega arith)
      provides

-- The call of `MQPut` has its node in hand, and the round its message.
abbrev waiting : Heap
waiting =
    put_cell (cell_of arrival)
      (write heap 2 (some (message (record { content = 6; meta_data = 1 }))))

waiting-Pending : Pending waiting full (old ∷ []) (cell_of arrival)
unfolding write
waiting-Pending = record {
  queue = record {
    chain = cons refl (ground arith) (refl, refl, refl) nil;
    count = refl;
    tail_last = refl;
  };
  new = ground arith;
  apart = (refl, refl, refl);
}

waiting-MessageOf : MessageOf waiting 2 (cell_of arrival)
unfolding write
waiting-MessageOf = ground arith
