-- ===== src/MessageQueue/Put/Errors.antt =====
-- The error returns of `MQPut`, and what each leaves behind.
use operating_system_whw.Common.{
  eq_true, ◌≤◌, ◌≡◌, refl, ◌≢◌, false, none, some, Option, arith, ap, ◌∙◌, sym, eq_false,
}
use mathlib.Core.Path.{fun_ext}
use operating_system_whw.Heap.{meta_data, Ptr, null, Content, MetaData, Heap, ok, write, message}
use operating_system_whw.Heap.Points.{
  Points, load_message-ok, free-ok, Points-write_ne, Points-write_self,
}
use operating_system_whw.Heap.Cells.{Cell, Cells, ◌∉◌}
use operating_system_whw.MessageQueue.Types.{
  success, err_null_args, err_memory_fail, drop_random, MessageQueue, lock,
}
use operating_system_whw.MessageQueue.Holds.{IsQueue}
use operating_system_whw.MessageQueue.Drop.{Dropped}
use operating_system_whw.MessageQueue.Drop.Single.{message_free-ok}
use operating_system_whw.MessageQueue.Put.{Supply, refused, returned, mq_put, put_prepare}
use operating_system_whw.MessageQueue.Put.Prepare.{
  IsMessage, Allocates, new_cell, prepared, prepare-no_copy, message_copy-ok, prepared-Owns,
  prepared-Apart, prepared-IsQueue,
}
use operating_system_whw.MessageQueue.Put.Loop.{mq_put-loop}
use operating_system_whw.MessageQueue.Put.Policies.{Pending}
use operating_system_whw.MessageQueue.Put.Random.{turn-random_failed}

-- A null queue or a null message is refused, and nothing changes.
pub mq_put-null :
    (s : Supply) (mq : Option MessageQueue) (d : Dropped) (at : Ptr) (h : Heap)
    → (mq_put s none at d h ≡ ok (refused err_null_args) h)
      × (mq_put s mq null d h ≡ ok (refused err_null_args) h)
unfolding mq_put
mq_put-null s none d at h = (refl, refl)
mq_put-null s (some mq) d at h = (refl, refl)

module _ {h : Heap} {at meta : Ptr} {content : Content} {info : MetaData} (s : Supply)
    (mq : MessageQueue) (d : Dropped) (given : IsMessage h at content meta info) where
  -- Without memory for the copy of a live message, `MQPut` answers MQ_ERR_MEMORY_FAIL, and neither
  -- the heap nor the queue changes.
  pub mq_put-no_copy : s.copy ≡ null → mq_put s (some mq) at d h ≡ ok (refused err_memory_fail) h
  unfolding mq_put
  mq_put-no_copy e = rw (eq_false given.message_live.ne_null, prepare-no_copy s given e)

  prepare-no_node :
      s.copy ≢ null
      → h s.copy ≡ none
      → s.node ≡ null
      → put_prepare s at h ≡ ok null (write h meta none)
  unfolding put_prepare write
  prepare-no_node ne unused e =
      let copied : Heap =
        write h s.copy (some (message (record { content = content; meta_data = meta }))) in
      let copy =
        Points-write_self h s.copy (message (record { content = content; meta_data = meta })) ne in
      let apart : meta ≢ s.copy = ground (arith, given.meta_live.holds) in
      let meta_left : Points copied meta (meta_data info) =
        Points-write_ne _ given.meta_live apart in
      rw
        (
          message_copy-ok s.copy given.message_live ne,
          eq_false ne,
          eq_true e,
          load_message-ok copy,
          free-ok meta_left,
          message_free-ok s.copy (write copied meta none) ne,
          free-ok (Points-write_ne none copy (λ same. apart (sym same))),
        )
        (ap (ok null) (fun_ext λ a. ground arith))

  -- With memory for the copy and none for the node, `MQPut` answers MQ_ERR_MEMORY_FAIL and gives
  -- the copy back. It also frees the meta data, which the caller's message still points to, and
  -- changes nothing else.
  pub mq_put-no_node :
      s.copy ≢ null
      → h s.copy ≡ none
      → s.node ≡ null
      → mq_put s (some mq) at d h ≡ ok (refused err_memory_fail) (write h meta none)
  unfolding mq_put
  mq_put-no_node ne unused e = rw (eq_false given.message_live.ne_null, prepare-no_node ne unused e)

  -- `MQPut` under `random` at a full queue of a capacity of at least 4, with memory for the copy
  -- and the node but none for the array of indexes, returns MQ_ERR_MEMORY_FAIL with the mutex
  -- locked and an amount for contents that it did not write; its node is live but in no queue.
  pub mq_put-no_indexes :
      {xs : Cells}
      → IsQueue h mq xs
      → meta ∉ xs
      → Allocates h s
      → mq.size ≡ mq.capacity
      → mq.sched_policy ≡ drop_random
      → 4 ≤ mq.capacity
      → s.indexes ≡ false
      → let c = new_cell s content meta info in
        (mq_put s (some mq) at d h
          ≡ ok
              (returned err_memory_fail (lock mq) (record d { amount = mq.random_drop_count }))
              (prepared h c))
        × Pending (prepared h c) (lock mq) xs c
  mq_put-no_indexes {xs} is out mem full random large e =
      let c : Cell = new_cell s content meta info in
      let here = prepared-IsQueue s given mem is in
      let p : Pending (prepared h c) (lock mq) xs c = record {
        queue = record { chain = here.chain; count = here.count; tail_last = here.tail_last };
        new = prepared-Owns s given mem;
        apart = prepared-Apart s given mem is out;
      } in
      (mq_put-loop s given mem mq d ∙ turn-random_failed s success d p full random large e, p)
