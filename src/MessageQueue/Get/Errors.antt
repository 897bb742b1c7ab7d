-- ===== src/MessageQueue/Get/Errors.antt =====
-- `MQGet` where it hands out no message: at an empty queue, at NULL and without memory.
use operating_system_whw.Common.{
  ◌≡◌, refl, ◌≢◌, true, false, none, some, [], ◌∷◌, arith, sym, eq_false, eq_true, Bool, Option,
}
use mathlib.Core.Path.{subst}
use operating_system_whw.Heap.{meta_data, Ptr, null, Heap, ok, write, node, free}
use operating_system_whw.Heap.Points.{Points, load_node-ok, free-ok, Points-write_ne}
use operating_system_whw.Heap.Returns.{Returns, returns}
use operating_system_whw.Heap.Cells.{Seg-write, Cell, Cells, Owns-distinct}
use operating_system_whw.MessageQueue.Types.{success, err_null_args, MessageQueue, sleep}
use operating_system_whw.MessageQueue.Holds.{IsQueue, Seg-Uncons, Uncons-live, behead-IsQueue}
use operating_system_whw.MessageQueue.Put.Prepare.{message_copy-failed}
use operating_system_whw.MessageQueue.Drop.Single.{message_free-ok}
use operating_system_whw.MessageQueue.Get.{
  refused, waits, returned, get_take, mq_get_resume, mq_get,
}

-- `MQGet` at an empty queue sleeps on `cond_put` with the mutex free, and changes nothing else.
pub mq_get-empty :
    {h : Heap} {mq : MessageQueue} (fresh : Ptr)
    → IsQueue h mq []
    → mq_get fresh (some mq) true h
      ≡ ok (waits (record mq { locked = false; cond_put = sleep mq.cond_put })) h
unfolding mq_get mq_get_resume
mq_get-empty fresh is = rw (eq_true is.count)

-- A null queue or a null place for the message is refused.
pub mq_get-null :
    (fresh : Ptr) (mq : Option MessageQueue) (has_out : Bool) (h : Heap)
    → (mq_get fresh none has_out h ≡ ok (refused err_null_args) h)
      × (mq_get fresh mq false h ≡ ok (refused err_null_args) h)
unfolding mq_get
mq_get-null fresh none has_out h = (refl, refl)
mq_get-null fresh (some mq) has_out h = (refl, refl)

-- Without memory for the copy, `MQGet` at a queue that holds a message still answers MQ_SUCCESS
-- and takes the first message off, but hands out NULL: its content is lost, and its meta data
-- stays allocated.
pub mq_get-no_copy :
    {h : Heap} {mq : MessageQueue} {c : Cell} {xs : Cells}
    → IsQueue h mq (c ∷ xs)
    → Returns
        (λ turn g.
          (q : MessageQueue) × (turn ≡ returned success null q)
          × IsQueue g q xs
          × (g c.meta_at ≡ some (meta_data c.info))
          × (g c.node_at ≡ none)
          × (g c.message_at ≡ none))
        (mq_get null (some mq) true h)
unfolding mq_get mq_get_resume get_take write
mq_get-no_copy {h} {mq} {c} {xs} is =
    let u = Seg-Uncons is.chain in
    let distinct = Owns-distinct u.owned in
    let some_left : mq.size ≢ 0 = omega (arith, is.count) in
    let less : Heap = write h c.message_at none in
    let old_node : Points less c.node_at (node (record { next = u.next; message = c.message_at })) =
      Points-write_ne none u.owned.node_live distinct.0 in
    let freed : free mq.head less ≡ ok tt (write less c.node_at none) =
      subst (λ p. free p less ≡ ok tt (write less c.node_at none)) (sym u.head_at)
        (free-ok old_node) in
    let rest =
      behead-IsQueue is
        (Seg-write c.node_at none (Seg-write c.message_at none u.rest u.apart.1) u.apart.0) in
    rw
      (
        eq_false some_left,
        load_node-ok (Uncons-live u),
        message_copy-failed u.owned.message_live,
        message_free-ok c.message_at h u.owned.message_live.ne_null,
        free-ok u.owned.message_live,
        freed,
      )
      (returns (
        _,
        refl,
        record { chain = rest.chain; count = rest.count; tail_last = rest.tail_last },
        ground (arith, u.owned.meta_live),
        ground arith,
        ground arith,
      ))
