-- ===== src/MessageQueue/Tests/Errors.antt =====
-- The theorems on failures, at full queues of four messages.
use operating_system_whw.MessageQueue.Put.Empty.{mq_put-no_capacity}
use operating_system_whw.Common.{refl, none, some, [], ◌∷◌, arith}
use operating_system_whw.Heap.{null, write}
use operating_system_whw.Heap.Returns.{Returns}
use operating_system_whw.MessageQueue.Types.{drop_random, MessageQueue, new_queue}
use operating_system_whw.MessageQueue.Put.{Supply, mq_put}
use operating_system_whw.MessageQueue.Put.Prepare.{IsMessage, Allocates, new_cell}
use operating_system_whw.Common.{◌≡◌, false}
use operating_system_whw.Heap.{ok, fault, Heap}
use operating_system_whw.Heap.Cells.{Cell, Cells, nil, cons}
use operating_system_whw.MessageQueue.Types.{success, err_memory_fail, block, drop_head, lock}
use operating_system_whw.MessageQueue.Holds.{new_queue-IsQueue, IsQueue}
use operating_system_whw.MessageQueue.Put.{mq_put_resume, Resume, PutTurn}
use operating_system_whw.MessageQueue.Put.Prepare.{prepared}
use operating_system_whw.MessageQueue.Put.Policies.{Pending, Asleep}
use operating_system_whw.MessageQueue.Put.Errors.{mq_put-no_node, mq_put-no_indexes}
use operating_system_whw.MessageQueue.Put.Wake.{mq_put-overfills, Overfilled}
use operating_system_whw.MessageQueue.Tests.Queues.{
  info, four, heap, full, supply, array, full-IsQueue, given, allocates, unused_50, cell, put_cell,
  outside,
}

-- A queue of three messages and capacity three, under `random`.
abbrev three : Cells
three = cell 10 1 ∷ cell 13 2 ∷ cell 16 3 ∷ []

abbrev heap_of_three : Heap
heap_of_three =
    put_cell (cell 10 1) 13 (put_cell (cell 13 2) 16 (put_cell (cell 16 3) null outside))

abbrev small : MessageQueue
small = record (new_queue 3 drop_random) { size = 3; head = 10; tail = 16 }

small-IsQueue : IsQueue heap_of_three small three
unfolding write
small-IsQueue = record {
  chain =
      cons refl (ground arith) (refl, refl, refl)
        (cons refl (ground arith) (refl, refl, refl)
          (cons refl (ground arith) (refl, refl, refl) nil));
  count = refl;
  tail_last = refl;
}

given_three : IsMessage heap_of_three 40 9 41 info
unfolding write
given_three = ground arith

Allocates-three : Allocates heap_of_three supply
unfolding write
Allocates-three = ground arith

-- The call woke for the place of a message that another call has taken.
abbrev ninth : Cell
ninth = new_cell supply 9 41 info

abbrev later : Heap
later = put_cell ninth null heap_of_three

woken-Pending : Pending later small three ninth
unfolding write
woken-Pending = record {
  queue = record {
    chain =
        cons refl (ground arith) (refl, refl, refl)
          (cons refl (ground arith) (refl, refl, refl)
            (cons refl (ground arith) (refl, refl, refl) nil));
    count = refl;
    tail_last = refl;
  };
  new = ground arith;
  apart = (refl, refl, refl);
}

mq_put-overfills_example :
    let silent = record array { amount = 0 } in
    Returns
      (λ turn g.
        (resume : Resume) × Asleep resume success silent three ninth
          (lock small)
          (prepared heap_of_three ninth)
          turn
          g
        × Returns
            (Overfilled success silent three ninth small later)
            (mq_put_resume supply resume 51 success small silent later))
      (mq_put supply (some small) 40 array heap_of_three)
mq_put-overfills_example =
    mq_put-overfills supply array small-IsQueue given_three refl Allocates-three refl refl
      (omega arith) woken-Pending refl

-- `malloc` fails for the array of the random indexes.
abbrev no_array : Supply
no_array = record supply { indexes = false }

Allocates-no_array : Allocates heap no_array
unfolding write
Allocates-no_array = ground arith

mq_put-no_indexes_example :
    let c = new_cell no_array 9 41 info in
    (mq_put no_array (some (full drop_random)) 40 array heap
      ≡ ok
          (PutTurn.returned err_memory_fail (lock (full drop_random)) (record array { amount = 1 }))
          (prepared heap c))
    × Pending (prepared heap c) (lock (full drop_random)) four c
mq_put-no_indexes_example =
    mq_put-no_indexes no_array (full drop_random) array given (full-IsQueue drop_random) refl
      Allocates-no_array refl refl (omega arith) refl

-- `malloc` fails for the node.
abbrev no_node : Supply
no_node = record supply { node = null }

mq_put-no_node_example :
    mq_put no_node (some (full block)) 40 array heap
    ≡ ok (PutTurn.refused err_memory_fail) (write heap 41 none)
mq_put-no_node_example =
    mq_put-no_node no_node (full block) array given (ground arith) unused_50 refl

-- `malloc` fails for the copy of the message.
abbrev no_copy : Supply
no_copy = record supply { copy = null }

abbrev no_room : MessageQueue
no_room = new_queue 0 drop_head

mq_put-no_capacity_example : mq_put supply (some no_room) 40 array heap ≡ fault
mq_put-no_capacity_example =
    mq_put-no_capacity supply no_room array (new_queue-IsQueue heap 0 drop_head) refl refl given
      allocates
