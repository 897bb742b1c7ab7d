-- ===== src/MessageQueue/Calm/Gets.antt =====
-- What a turn of `MQGet` of HW3/message_queue.c leaves of the condition variables.
use operating_system_whw.Common.{
  ◌+◌, ◌≤◌, ◌≡◌, ◌⊎◌, arith, true, some, ◌==◌, Bool-cases, inl, inr, refl,
}
use operating_system_whw.Heap.{Ptr, Heap, load_node, free}
use operating_system_whw.Heap.Ends.{Ends, ended, skip}
use operating_system_whw.Message.{message_copy, message_free}
use operating_system_whw.MessageQueue.Types.{success, MessageQueue, signal, lock}
use operating_system_whw.MessageQueue.Get.{
  GetTurn, refused, waits, returned, get_take, mq_get_resume, mq_get,
}
use operating_system_whw.MessageQueue.Calm.{Awake}

-- No worker sleeps, or with the one that runs there are as many as messages.
abbrev pub Due : MessageQueue → Type 0
Due mq = (mq.cond_put.waiting ≡ 0) ⊎ (mq.size ≤ mq.cond_put.woken + 1)

-- A worker sleeps at the queue as it was, or it took a message and gave the signal.
abbrev pub Got : MessageQueue → GetTurn → Type 0
Got mq (refused code) = Unit {0}
Got mq (waits after) =
    Awake after
    × (after.cond_get ≡ mq.cond_get)
    × (after.size ≡ mq.size)
    × (after.capacity ≡ mq.capacity)
Got mq (returned code p after) =
    Awake after × (after.cond_get ≡ signal mq.cond_get) × (code ≡ success)

take-Got :
    (fresh : Ptr) (mq : MessageQueue) (h : Heap)
    → Due mq
    → Ends (Got mq) (get_take fresh (lock mq) h)
unfolding get_take
take-Got fresh mq h due = skip (load_node mq.head h) (λ n h1.
    skip (message_copy fresh n.message h1) (λ copy h2.
      skip (message_free n.message h2)
        (λ u h3. skip (free mq.head h3) (λ v h4. ended (ground (arith, due), refl, refl)))))

resume-Got :
    (fresh : Ptr) (mq : MessageQueue) (h : Heap) → Due mq → Ends (Got mq) (mq_get_resume fresh mq h)
unfolding mq_get_resume
resume-Got fresh mq h due = elim (Bool-cases (mq.size == 0)) [
  | inl e ↦ rw e (ended (inr (ground (arith, e)), refl, refl, refl))
  | inr e ↦ rw e (take-Got fresh mq h due)
]

pub mq_get-Got :
    (fresh : Ptr) (mq : MessageQueue) (h : Heap)
    → Due mq
    → Ends (Got mq) (mq_get fresh (some mq) true h)
unfolding mq_get
mq_get-Got fresh mq h due = resume-Got fresh mq h due
