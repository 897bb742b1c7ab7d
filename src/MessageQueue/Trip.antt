-- ===== src/MessageQueue/Trip.antt =====
-- A message that goes through the queue: `MQPut`, then `MQGet`.
use operating_system_whw.Common.{◌≡◌, ◌≢◌, refl, true, none, some, [], ◌∙◌}
use operating_system_whw.Heap.{Ptr, null, Content, MetaData, Heap, Cmd, ◌>>=◌}
use operating_system_whw.Heap.Returns
use operating_system_whw.Heap.Returns.{Returns, returns}
use operating_system_whw.Heap.Cells.{Cell}
use operating_system_whw.MessageQueue.Types.{success, MessageQueue, lock}
use operating_system_whw.MessageQueue.Holds.{IsQueue}
use operating_system_whw.MessageQueue.Drop.{Dropped}
use operating_system_whw.MessageQueue.Put.{Supply, PutTurn, refused, waits, returned, mq_put}
use operating_system_whw.MessageQueue.Put.Prepare.{
  IsMessage, Allocates, new_cell, prepared, prepared-same, prepared-Owns, prepared-Apart,
  prepared-IsQueue,
}
use operating_system_whw.MessageQueue.Put.Loop.{mq_put-loop}
use operating_system_whw.MessageQueue.Put.Policies.{Pending, turn-room}
use operating_system_whw.MessageQueue.Get.{GetTurn, mq_get}
use operating_system_whw.MessageQueue.Get.Take.{mq_get-Taken}

-- `MQGet` at the queue that a call of `MQPut` left, or at NULL if the call did not return.
abbrev pub get_after : (fresh : Ptr) → PutTurn → Cmd GetTurn
get_after fresh (refused code) = mq_get fresh none true
get_after fresh (waits resume new_node result mq d) = mq_get fresh none true
get_after fresh (returned code mq d) = mq_get fresh (some mq) true

-- A message that is put into an empty queue with room, and memory for its node and its copies, is
-- the one that the next `MQGet` hands out: a fresh copy of its content that shares its meta data. The
-- queue is then empty again.
pub mq_get-put :
    {h : Heap} {mq : MessageQueue} {at meta : Ptr} {content : Content} {info : MetaData}
    (s : Supply) (d : Dropped) (fresh : Ptr)
    → IsQueue h mq []
    → mq.size ≢ mq.capacity
    → IsMessage h at content meta info
    → Allocates h s
    → fresh ≢ null
    → h fresh ≡ none
    → fresh ≢ s.node
    → fresh ≢ s.copy
    → Returns
        (λ turn g.
          (q : MessageQueue) × (turn ≡ GetTurn.returned success fresh q)
          × IsQueue g q []
          × IsMessage g fresh content meta info)
        ((mq_put s (some mq) at d >>= get_after fresh) h)
mq_get-put {h} {mq} {meta} {content} {info} s d fresh is room msg mem ne unused not_node not_copy =
    let c : Cell = new_cell s content meta info in
    let here = prepared-IsQueue s msg mem is in
    let p : Pending (prepared h c) (lock mq) [] c = record {
      queue = record { chain = here.chain; count = here.count; tail_last = here.tail_last };
      new = prepared-Owns s msg mem;
      apart = prepared-Apart s msg mem is refl;
    } in
    rw (mq_put-loop s msg mem mq d) (
      Returns.bind (turn-room s success d p room) λ turn g f.
        let still : g fresh ≡ none =
          f.frame fresh refl ∙ prepared-same s msg mem fresh not_node not_copy ∙ unused in
        rw f.answer (
          Returns.mono (mq_get-Taken fresh f.contents ne still)
            λ turn' g' t. (t.queue, t.answer, t.rest, t.copy)))
