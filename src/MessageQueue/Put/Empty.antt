-- ===== src/MessageQueue/Put/Empty.antt =====
-- `MQPut` at a queue of capacity 0.
use operating_system_whw.Common.{ℕ, suc, ◌≡◌, refl, some, [], arith, ◌∙◌, eq_true}
use operating_system_whw.Heap.{Ptr, null, Content, MetaData, Heap, fault, load_node}
use operating_system_whw.Heap.Cells.{eq_of_nil}
use operating_system_whw.MessageQueue.Types.{drop_head, MessageQueue, lock, success}
use operating_system_whw.MessageQueue.Holds.{IsQueue}
use operating_system_whw.MessageQueue.Drop.{Dropped, put_handle_drop_head}
use operating_system_whw.MessageQueue.Put.{Supply, put_loop, mq_put}
use operating_system_whw.MessageQueue.Put.Prepare.{IsMessage, Allocates, new_cell, prepared}
use operating_system_whw.MessageQueue.Put.Loop.{mq_put-loop}

load_node-null : (h : Heap) → load_node null h ≡ fault
unfolding load_node
load_node-null h = refl

head-fault :
    (mq : MessageQueue) (d : Dropped) (h : Heap)
    → mq.head ≡ null
    → put_handle_drop_head mq d h ≡ fault
unfolding put_handle_drop_head
head-fault mq d h e = rw (e, load_node-null h)

loop-fault :
    (fuel : ℕ) (h : Heap) (s : Supply) (p : Ptr) (mq : MessageQueue) (d : Dropped)
    → mq.size ≡ mq.capacity
    → mq.sched_policy ≡ drop_head
    → mq.head ≡ null
    → put_loop (suc fuel) s p success mq d h ≡ fault
unfolding put_loop
loop-fault fuel h s p mq d full policy e =
    simp (eq_true full, policy, put_loop, head-fault mq d h e)

-- Under `drop_head` `MQPut` of a live message, with memory, at an empty queue of capacity 0 reads
-- through NULL: there is no first message to drop.
pub mq_put-no_capacity :
    {h : Heap} {at meta : Ptr} {content : Content} {info : MetaData} (s : Supply)
    (mq : MessageQueue) (d : Dropped)
    → IsQueue h mq []
    → mq.capacity ≡ 0
    → mq.sched_policy ≡ drop_head
    → IsMessage h at content meta info
    → Allocates h s
    → mq_put s (some mq) at d h ≡ fault
mq_put-no_capacity {h} {meta} {content} {info} s mq d is none_fit policy msg mem =
    mq_put-loop s msg mem mq d
    ∙ loop-fault 1 (prepared h (new_cell s content meta info)) s s.node (lock mq) d
        (omega (arith, is.count, none_fit)) policy (eq_of_nil is.chain)
