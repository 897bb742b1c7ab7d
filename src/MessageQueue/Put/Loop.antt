-- ===== src/MessageQueue/Put/Loop.antt =====
-- The `while` loop of `MQPut`: what a round does under each policy, with the parts shut.
use operating_system_whw.Common.{
  ℕ, suc, ◌<◌, ◌≡◌, ◌≢◌, true, false, some, ◌∷◌, arith, ◌∙◌, eq_false, eq_true, length, set,
}
use operating_system_whw.Heap.{◌>>=◌, Ptr, null, Content, MetaData, Heap, ok}
use operating_system_whw.Heap.Cells.{Cell, Cells, Owns}
use operating_system_whw.Heap.Release.{without}
use operating_system_whw.MessageQueue.Types.{
  drop_random, RetCode, success, drop, block, drop_tail, drop_head, MessageQueue, lock,
}
use operating_system_whw.MessageQueue.Holds.{IsQueue, behead}
use operating_system_whw.MessageQueue.Drop.{
  put_handle_drop_random, Dropped, put_handle_block, put_handle_drop_head,
}
use operating_system_whw.MessageQueue.Drop.Single.{
  put_handle_drop_tail-without, put_handle_drop_head-behead,
}
use operating_system_whw.MessageQueue.Put.{
  put_random, Supply, recheck, waits, put_finish, put_loop, loop_fuel, mq_put,
}
use operating_system_whw.MessageQueue.Put.Prepare.{
  IsMessage, Allocates, new_cell, prepared, prepare-ok,
}

module _ (h : Heap) (s : Supply) (p : Ptr) (result : RetCode) (d : Dropped)
    (mq : MessageQueue) where
  pub loop-room :
      (fuel : ℕ)
      → mq.size ≢ mq.capacity
      → put_loop (suc fuel) s p result mq d h ≡ put_finish true p result mq d h
  unfolding put_loop
  loop-room fuel ne = rw (eq_false ne, put_loop)

  module _ (full : mq.size ≡ mq.capacity) where
    pub loop-block :
        (fuel : ℕ)
        → mq.sched_policy ≡ block
        → put_loop (suc fuel) s p result mq d h
          ≡ ok (waits recheck p result (put_handle_block mq) d) h
    unfolding put_loop
    loop-block fuel e = simp (eq_true full, e, put_loop)

    pub loop-random :
        (fuel : ℕ)
        → mq.sched_policy ≡ drop_random
        → put_loop (suc fuel) s p result mq d h
          ≡ (put_handle_drop_random s.indexes s.draws mq d >>= put_random p result) h
    unfolding put_loop
    loop-random fuel e = simp (eq_true full, e, put_loop)

    loop-drop_head_step :
        (fuel : ℕ) {mq' : MessageQueue} {d' : Dropped} {g : Heap}
        → mq.sched_policy ≡ drop_head
        → put_handle_drop_head mq d h ≡ ok (mq', d') g
        → put_loop (suc fuel) s p result mq d h ≡ put_loop fuel s p drop mq' d' g
    unfolding put_loop
    loop-drop_head_step fuel e step = simp (eq_true full, e, put_loop, step)

-- One dropped message, reported at index 0.
abbrev pub report : Dropped → Content → Dropped
report d content = record { contents = set d.contents 0 content; amount = 1 }

module _ {h : Heap} (s : Supply) (result : RetCode) (d : Dropped) (room : 0 < length d.contents)
    (mq : MessageQueue) (full : mq.size ≡ mq.capacity) where
  pub loop-drop_tail :
      (fuel : ℕ) {c : Cell}
      → mq.sched_policy ≡ drop_tail
      → Owns h null c
      → put_loop (suc fuel) s c.node_at result mq d h
        ≡ put_finish false c.node_at drop mq (report d c.content) (without c h)
  unfolding put_loop
  loop-drop_tail fuel e o = simp (eq_true full, e, put_loop, put_handle_drop_tail-without d room o)

  -- One round drops the head; then the queue has room.
  pub loop-drop_head :
      (fuel : ℕ) (p : Ptr) {c : Cell} {xs : Cells}
      → mq.sched_policy ≡ drop_head
      → IsQueue h mq (c ∷ xs)
      → (q : Ptr) × IsQueue (without c h) (behead mq q) xs
        × (put_loop (suc (suc fuel)) s p result mq d h
            ≡ put_finish true p drop (behead mq q) (report d c.content) (without c h))
  loop-drop_head fuel p {c} e is =
      let (q, step, rest) = put_handle_drop_head-behead d room is in
      (
        q,
        rest,
        loop-drop_head_step h s p result d mq full (suc fuel) e step
            ∙ loop-room (without c h) s p drop (report d c.content) (behead mq q) fuel
                (omega (arith, is.count)),
      )

module _ {h : Heap} {at meta : Ptr} {content : Content} {info : MetaData} (s : Supply)
    (given : IsMessage h at content meta info) (mem : Allocates h s) where
  pub mq_put-loop :
      (mq : MessageQueue) (d : Dropped)
      → mq_put s (some mq) at d h
        ≡ put_loop loop_fuel s s.node success
            (lock mq)
            d
            (prepared h (new_cell s content meta info))
  unfolding mq_put
  mq_put-loop mq d =
      rw (eq_false given.message_live.ne_null, prepare-ok s given mem, eq_false mem.node_ne)
