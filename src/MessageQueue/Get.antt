-- ===== src/MessageQueue/Get.antt =====
-- `MQGet` of HW3/message_queue.c, in turns as `MQPut`.
pub mod Take
pub mod Errors
use operating_system_whw.Common.{◌-◌, Bool, true, false, Option, none, some, ◌==◌, if◌then◌else◌}
use operating_system_whw.Heap.{Ptr, Cmd, pure, ◌>>=◌, ◌>>◌, load_node, free}
use operating_system_whw.Message.{message_copy, message_free}
use operating_system_whw.MessageQueue.Types.{
  RetCode, success, err_null_args, MessageQueue, signal, sleep, lock, unlock,
}

pub data GetTurn : Type 0 where
  refused : RetCode → GetTurn
  -- the call sleeps on `cond_put`
  waits : MessageQueue → GetTurn
  -- the pointer is `*message`
  returned : RetCode → Ptr → MessageQueue → GetTurn

-- From the end of the `while` loop to the return. `fresh` is what `malloc` returns in `MessageCopy`.
unfoldable pub get_take : (fresh : Ptr) → MessageQueue → Cmd GetTurn
get_take fresh mq = do
  n ← load_node mq.head
  copy ← message_copy fresh n.message
  message_free n.message
  free mq.head
  pure (
      returned success copy (
        unlock (record mq {
          head = n.next;
          size = mq.size - 1;
          tail = if mq.size - 1 == 0 then n.next else mq.tail;
          cond_get = signal mq.cond_get;
        })))

-- A turn with the mutex: the test of the `while` loop, and either the sleep or the rest.
unfoldable pub mq_get_resume : (fresh : Ptr) → MessageQueue → Cmd GetTurn
mq_get_resume fresh mq =
    if mq.size == 0
    then pure (waits (unlock (record mq { cond_put = sleep mq.cond_put })))
    else get_take fresh (lock mq)

-- `has_out` says whether the argument `message` is not NULL.
unfoldable pub mq_get : (fresh : Ptr) → Option MessageQueue → (has_out : Bool) → Cmd GetTurn
mq_get fresh none has_out = pure (refused err_null_args)
mq_get fresh (some mq) false = pure (refused err_null_args)
mq_get fresh (some mq) true = mq_get_resume fresh mq
