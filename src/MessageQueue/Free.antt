-- ===== src/MessageQueue/Free.antt =====
-- `MQFree` of HW3/message_queue.c. The struct itself is a value of the model, not in the heap.
pub mod All
use operating_system_whw.Common.{ℕ, zero, suc, ◌+◌, Option, none, some, ◌==◌, if◌then◌else◌}
use operating_system_whw.Heap.{
  Ptr, null, out_of_fuel, Cmd, pure, ◌>>=◌, ◌>>◌, load_node, load_message, free,
}
use operating_system_whw.Message.{message_free}
use operating_system_whw.MessageQueue.Drop.{release_node}
use operating_system_whw.MessageQueue.Types.{MessageQueue}

unfoldable pub free_loop : ℕ → (iterator : Ptr) → Cmd (Unit {0})
free_loop zero iterator = λ _. out_of_fuel
free_loop (suc fuel) iterator =
    if iterator == null
    then pure tt
    else do n ← load_node iterator; release_node iterator; free_loop fuel n.next

-- A round for each node, and one that finds the end.
unfoldable pub mq_free : Option MessageQueue → Cmd (Unit {0})
mq_free none = pure tt
mq_free (some mq) = free_loop (mq.size + 1) mq.head
