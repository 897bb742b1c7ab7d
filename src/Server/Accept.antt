-- ===== src/Server/Accept.antt =====
-- A round of the loop of `startServer` in HW3/server.c: from `Accept` to the next `Accept`, or to the
-- end of the loop. A round sleeps where `MQPut` does.
pub mod Close
pub mod After
pub mod Arrive
pub mod Round
pub mod Calm
mod Tests
use operating_system_whw.Common.{
  ℕ, zero, suc, Option, none, some, List, [], ◌∷◌, ◌==◌, if◌then◌else◌, get_elem?,
}
use operating_system_whw.Heap.{
  Ptr, null, TimeVal, MetaData, meta_data, Content, fault, Cmd, pure, ◌>>=◌, ◌>>◌, store, load_meta,
}
use operating_system_whw.Message.{message_create, message_free, build_message_meta_data}
use operating_system_whw.MessageQueue.Types.{
  RetCode, success, drop, err_null_args, err_memory_fail, MessageQueue,
}
use operating_system_whw.MessageQueue.Drop.{Dropped}
use operating_system_whw.MessageQueue.Put.{
  Supply, Resume, PutTurn, refused, waits, returned, mq_put, mq_put_resume,
}

-- What a round gets from outside: the connection, the time, the addresses that `malloc` returns for
-- the meta data and the message, what the memory of the meta data holds, and what `MQPut` gets.
pub record Arrival : Type 0 where
  pub conn_fd : Content
  pub now : TimeVal
  pub meta : Ptr
  pub garbage : MetaData
  pub message : Ptr
  pub put : Supply

pub data AcceptTurn : Type 0 where
  -- the loop ends: `buildMessageMetaData` failed
  no_meta_data : AcceptTurn
  -- the thread sleeps in `MQPut`, with the message in hand
  asleep : (message : Ptr) → PutTurn → AcceptTurn
  -- the connections that were closed, or `none` if the loop ends; the queue and the array
  finished : Option (List Content) → MessageQueue → Dropped → AcceptTurn

-- The loop that closes what was dropped, from index `i`, with `k` rounds left.
unfoldable pub close_loop : (k i : ℕ) → (contents : List Content) → Cmd (List Content)
close_loop zero i contents = pure []
close_loop (suc k) i contents = elim (get_elem? contents i) [
  | none ↦ λ _. fault
  | some fd ↦ do closed ← close_loop k (suc i) contents; pure (fd ∷ closed)
]

-- What follows `MQPut` and `MessageFree`, by the code of `MQPut`.
unfoldable pub close_dropped : RetCode → Dropped → Cmd (Option (List Content))
close_dropped drop d = do closed ← close_loop d.amount 0 d.contents; pure (some closed)
close_dropped success d = pure (some [])
close_dropped err_null_args d = pure none
close_dropped err_memory_fail d = pure none

-- What follows a turn of `MQPut` at the queue `mq` with the array `d`.
unfoldable pub accept_after : (message : Ptr) → MessageQueue → Dropped → PutTurn → Cmd AcceptTurn
accept_after message mq d (waits resume new_node result mq' d') =
    pure (asleep message (waits resume new_node result mq' d'))
accept_after message mq d (refused code) = do
  message_free message
  closed ← close_dropped code d
  pure (finished closed mq d)
accept_after message mq d (returned code mq' d') = do
  message_free message
  closed ← close_dropped code d'
  pure (finished closed mq' d')

-- `messageMetaData->arrivalTime = getCurrentTime();`
unfoldable pub set_arrival : (meta : Ptr) → (now : TimeVal) → Cmd (Unit {0})
set_arrival meta now = do
  m ← load_meta meta
  store meta (meta_data (record m { arrival_time = now }))

unfoldable pub accept_round : Arrival → MessageQueue → (contents : List Content) → Cmd AcceptTurn
accept_round a mq contents = do
  meta ← build_message_meta_data a.meta a.garbage
  if meta == null then pure no_meta_data else do
    set_arrival meta a.now
    message ← message_create a.message a.conn_fd meta
    turn ← mq_put a.put (some mq) message (record { contents = contents; amount = 0 })
    accept_after message mq (record { contents = contents; amount = 0 }) turn

-- The round goes on from a sleep in `MQPut`, with the mutex held.
unfoldable pub accept_wake :
    Supply
    → (message : Ptr) → Resume
    → (new_node : Ptr) → RetCode
    → MessageQueue
    → Dropped
    → Cmd AcceptTurn
accept_wake s message resume new_node result mq d = do
  turn ← mq_put_resume s resume new_node result mq d
  accept_after message mq d turn
