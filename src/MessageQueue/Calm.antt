-- ===== src/MessageQueue/Calm.antt =====
-- The condition variables of HW3/message_queue.c between two turns.
pub mod Drops
pub mod Puts
pub mod Gets
use operating_system_whw.Common.{ℕ, ◌+◌, ◌-◌, ◌≤◌, ◌≡◌, ◌⊎◌, inl, inr, arith}
use operating_system_whw.MessageQueue.Types.{Cond, MessageQueue, signal}

-- No worker sleeps, or as many were woken as there are messages.
abbrev pub Awake : MessageQueue → Type 0
Awake mq = (mq.cond_put.waiting ≡ 0) ⊎ (mq.size ≤ mq.cond_put.woken)

-- Nobody sleeps in `MQPut` or was woken there.
abbrev pub Quiet : MessageQueue → Type 0
Quiet mq = (mq.cond_get.waiting ≡ 0) × (mq.cond_get.woken ≡ 0)

abbrev pub Calm : MessageQueue → Type 0
Calm mq = Awake mq × Quiet mq

-- One thread sleeps in `MQPut`, at a full queue.
abbrev pub Blocked : MessageQueue → Type 0
Blocked mq =
    Awake mq × (mq.cond_get.waiting ≡ 1) × (mq.cond_get.woken ≡ 0) × (mq.size ≡ mq.capacity)

-- The signal of `MQPut` makes up for a message more.
pub signal-Awake :
    (size : ℕ) (mq : MessageQueue)
    → Awake mq
    → size ≤ mq.size + 1
    → ((signal mq.cond_put).waiting ≡ 0) ⊎ (size ≤ (signal mq.cond_put).woken)
signal-Awake size mq awake le = ground (arith, awake, le)

-- So does a message less.
pub fewer-Awake :
    (size : ℕ) (mq : MessageQueue)
    → Awake mq
    → size ≤ mq.size
    → (mq.cond_put.waiting ≡ 0) ⊎ (size ≤ mq.cond_put.woken)
fewer-Awake size mq awake le = ground (arith, awake, le)
