-- ===== src/MessageQueue/Put.antt =====
-- `MQPut` of HW3/message_queue.c. A call runs in turns: from its start, or from a wake-up with the
-- mutex, to its return or to the next `pthread_cond_wait`.
pub mod Insert
pub mod Prepare
pub mod Finish
pub mod Loop
pub mod Policies
pub mod Random
pub mod Meets
pub mod Refine
pub mod Errors
pub mod Wake
pub mod Outcome
pub mod Empty
use operating_system_whw.Common.{
  ℕ, zero, suc, ◌+◌, Bool, true, false, Option, none, some, List, ◌==◌, if◌then◌else◌,
}
use operating_system_whw.Heap.{
  Ptr, null, node, Heap, Run, ok, out_of_fuel, Cmd, pure, ◌>>=◌, ◌>>◌, store, load_message,
  set_next, free,
}
use operating_system_whw.Message.{message_copy, message_free}
use operating_system_whw.MessageQueue.Types.{
  RetCode, success, drop, err_null_args, err_memory_fail, SchedPolicy, invalid, block, drop_tail,
  drop_head, drop_random, MessageQueue, signal, lock, unlock,
}
use operating_system_whw.MessageQueue.Drop.{
  Dropped, put_handle_block, put_handle_drop_tail, put_handle_drop_head, RandomDrop, blocked,
  failed, swept, put_handle_drop_random,
}

-- What a call gets from outside: the addresses that `malloc` returns for the copy of the message and
-- for the node, whether it gives memory for the array of indexes, and the results of `rand()`.
pub record Supply : Type 0 where
  pub copy : Ptr
  pub node : Ptr
  pub indexes : Bool
  pub draws : List ℕ

-- Where a sleeping call goes on: at the test of the `while` loop, or behind the loop.
pub data Resume : Type 0 where
  recheck insert : Resume

pub data PutTurn : Type 0 where
  -- the call returned before it took the mutex
  refused : RetCode → PutTurn
  -- the call sleeps on `cond_get`, with its node in hand
  waits : Resume → (new_node : Ptr) → RetCode → MessageQueue → Dropped → PutTurn
  returned : RetCode → MessageQueue → Dropped → PutTurn

-- `++size`, and the node at the tail
unfoldable pub put_insert : (new_node : Ptr) → MessageQueue → Cmd MessageQueue
put_insert new_node mq =
    if mq.size + 1 == 1
    then pure (record mq { size = mq.size + 1; tail = new_node; head = new_node })
    else do set_next mq.tail new_node; pure (record mq { size = mq.size + 1; tail = new_node })

-- From the end of the `while` loop to the return.
unfoldable pub put_finish :
    (is_putting : Bool) → (new_node : Ptr) → RetCode → MessageQueue → Dropped → Cmd PutTurn
put_finish is_putting new_node result mq d = do
  mq' ← if is_putting then put_insert new_node mq else pure mq
  pure (returned result (unlock (record mq' { cond_put = signal mq'.cond_put })) d)

-- What follows `putHandleDropRandom`.
unfoldable pub put_random : (new_node : Ptr) → RetCode → RandomDrop → Cmd PutTurn
put_random new_node result (blocked mq d) = pure (waits insert new_node result mq d)
-- the code returns with the mutex locked
put_random new_node result (failed mq d) = pure (returned err_memory_fail mq d)
put_random new_node result (swept mq d) = put_finish true new_node drop mq d

-- The `while` loop and what follows it. Under the policy INVALID the loop never ends.
unfoldable pub put_loop :
    ℕ → Supply → (new_node : Ptr) → RetCode → MessageQueue → Dropped → Cmd PutTurn
put_loop zero s new_node result mq d = λ _. out_of_fuel
put_loop (suc fuel) s new_node result mq d = elim (mq.size == mq.capacity) [
  | false ↦ put_finish true new_node result mq d
  | true ↦ elim mq.sched_policy [
    | invalid ↦ put_loop fuel s new_node result mq d
    | block ↦ pure (waits recheck new_node result (put_handle_block mq) d)
    | drop_tail ↦ do d' ← put_handle_drop_tail d new_node; put_finish false new_node drop mq d'
    | drop_head ↦ do (mq', d') ← put_handle_drop_head mq d; put_loop fuel s new_node drop mq' d'
    | drop_random ↦ put_handle_drop_random s.indexes s.draws mq d >>= put_random new_node result
  ]
]

-- After a round of `drop_head` the queue is not full, so the loop makes two tests at most.
abbrev pub loop_fuel : ℕ
loop_fuel = 2

-- The node for the copy of the message, or NULL with everything given back.
unfoldable pub put_prepare : Supply → (message : Ptr) → Cmd Ptr
put_prepare s message = do
  copy ← message_copy s.copy message
  if copy == null
      then pure null
      else if s.node == null
      then (do m ← load_message copy; free m.meta_data; message_free copy; pure null)
      else (do store s.node (node (record { next = null; message = copy })); pure s.node)

unfoldable pub mq_put : Supply → Option MessageQueue → (message : Ptr) → Dropped → Cmd PutTurn
mq_put s none message d = pure (refused err_null_args)
mq_put s (some mq) message d = if message == null then pure (refused err_null_args) else do
  new_node ← put_prepare s message
  if new_node == null
      then pure (refused err_memory_fail)
      else put_loop loop_fuel s new_node success (lock mq) d

-- A later turn of a call that slept, from `pthread_cond_wait` with the mutex locked again.
unfoldable pub mq_put_resume :
    Supply → Resume → (new_node : Ptr) → RetCode → MessageQueue → Dropped → Cmd PutTurn
mq_put_resume s recheck new_node result mq d = put_loop loop_fuel s new_node result (lock mq) d
mq_put_resume s insert new_node result mq d = put_finish true new_node result (lock mq) d
