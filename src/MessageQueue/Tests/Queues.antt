-- ===== src/MessageQueue/Tests/Queues.antt =====
-- Queues on concrete heaps, and what the theorems ask of them.
use operating_system_whw.Common.{ℕ, ◌+◌, ◌<◌, refl, ◌≢◌, true, none, some, [], ◌∷◌, arith}
use operating_system_whw.Heap.{Ptr, null, MetaData, Content, Heap, node, message, meta_data, write}
use operating_system_whw.Heap.Cells.{Cell, Cells, nil, cons}
use operating_system_whw.MessageQueue.Types.{SchedPolicy, MessageQueue, new_queue}
use operating_system_whw.MessageQueue.Holds.{IsQueue, IsBounded}
use operating_system_whw.MessageQueue.Random.Fill.{Appears}
use operating_system_whw.MessageQueue.Drop.{Dropped}
use operating_system_whw.MessageQueue.Put.{Supply}
use operating_system_whw.MessageQueue.Put.Prepare.{IsMessage, Allocates}
use operating_system_whw.MessageQueue.Put.Meets.{Provides}
use operating_system_whw.Common.{◌≡◌}
use operating_system_whw.MessageQueue.Put.Policies.{Pending}

abbrev pub info : MetaData
info = record {
  arrival_time = record { tv_sec = 7; tv_usec = 0 };
  dispatch_time = record { tv_sec = 0; tv_usec = 0 };
  thread_id = 0;
  requests_count = 0;
  num_static_requests = 0;
  num_dynamic_requests = 0;
}

-- The cell at the addresses `p`, `p + 1` and `p + 2`.
abbrev pub cell : Ptr → Content → Cell
cell p content = record {
  node_at = p;
  message_at = p + 1;
  meta_at = p + 2;
  content = content;
  info = info;
}

abbrev pub put_cell : Cell → Ptr → Heap → Heap
put_cell c next h =
    write
      (write (write h c.meta_at (some (meta_data c.info))) c.message_at
        (some (message (record { content = c.content; meta_data = c.meta_at }))))
      c.node_at (some (node (record { next = next; message = c.message_at })))

-- The caller's message, at 40, with its meta data at 41.
abbrev pub outside : Heap
outside =
    write (write (λ _. none) 41 (some (meta_data info))) 40
      (some (message (record { content = 9; meta_data = 41 })))

abbrev pub four : Cells
four = cell 10 1 ∷ cell 13 2 ∷ cell 16 3 ∷ cell 19 4 ∷ []

abbrev pub heap : Heap
heap =
    put_cell (cell 10 1) 13
      (put_cell (cell 13 2) 16 (put_cell (cell 16 3) 19 (put_cell (cell 19 4) null outside)))

-- A queue of four messages and capacity four.
abbrev pub full : SchedPolicy → MessageQueue
full policy = record (new_queue 4 policy) { size = 4; head = 10; tail = 19 }

abbrev pub supply : Supply
supply = record { copy = 50; node = 51; indexes = true; draws = 2 ∷ 6 ∷ 0 ∷ 1 ∷ 3 ∷ [] }

abbrev pub array : Dropped
array = record { contents = 0 ∷ []; amount = 0 }

pub full-IsQueue : (policy : SchedPolicy) → IsQueue heap (full policy) four
unfolding write
full-IsQueue policy = record {
  chain =
      cons refl (ground arith) (refl, refl, refl)
        (cons refl (ground arith) (refl, refl, refl)
          (cons refl (ground arith) (refl, refl, refl)
            (cons refl (ground arith) (refl, refl, refl) nil)));
  count = refl;
  tail_last = refl;
}

pub full-IsBounded : (policy : SchedPolicy) → policy ≢ SchedPolicy.invalid → IsBounded (full policy)
full-IsBounded policy ne = record { within = omega arith; quarter = refl; has_policy = ne }

pub given : IsMessage heap 40 9 41 info
unfolding write
given = ground arith

pub allocates : Allocates heap supply
unfolding write
allocates = ground arith

pub draws_cover : (i : ℕ) → i < 4 → Appears 4 i supply.draws
draws_cover i lt = ground arith

pub provides : (policy : SchedPolicy) → Provides (full policy) supply array
provides policy = record {
  none_yet = refl;
  one = λ ne. omega arith;
  quarter = λ random. omega arith;
  memory = λ random. refl;
  draws = λ random. draws_cover;
}

pub unused_50 : heap 50 ≡ none
unfolding write
unused_50 = refl

-- A call of `MQPut` has its node in hand, that of the cell `new` at 60, and the queue is full.
abbrev pub new : Cell
new = cell 60 5

abbrev pub waiting : Heap
waiting = put_cell new null heap

pub waiting-Pending : (policy : SchedPolicy) → Pending waiting (full policy) four new
unfolding write
waiting-Pending policy = record {
  queue = record {
    chain =
        cons refl (ground arith) (refl, refl, refl)
          (cons refl (ground arith) (refl, refl, refl)
            (cons refl (ground arith) (refl, refl, refl)
              (cons refl (ground arith) (refl, refl, refl) nil)));
    count = refl;
    tail_last = refl;
  };
  new = ground arith;
  apart = (refl, refl, refl);
}
