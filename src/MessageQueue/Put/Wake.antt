-- ===== src/MessageQueue/Put/Wake.antt =====
-- Later turns of a call of `MQPut` that slept.
use native.Mathlib.Decide.{ℕ_discrete}
use operating_system_whw.Common.{◌+◌, ◌<◌, ◌≡◌, some, refl, [], ◌∷◌, ◌++◌, arith, length-append}
use operating_system_whw.Heap.{Heap, Ptr, Content, MetaData}
use operating_system_whw.Heap.Returns
use operating_system_whw.Heap.Returns.{Returns}
use operating_system_whw.Heap.Cells.{Cell, Cells, ◌∉◌}
use operating_system_whw.MessageQueue.Types.{success, MessageQueue, lock, RetCode, drop_random}
use operating_system_whw.MessageQueue.Holds.{IsBounded, IsQueue}
use operating_system_whw.MessageQueue.Drop.{Dropped}
use operating_system_whw.MessageQueue.Put.{
  Supply, recheck, insert, mq_put_resume, mq_put, Resume, PutTurn,
}
use operating_system_whw.MessageQueue.Put.Finish.{Finished, put_finish-with}
use operating_system_whw.MessageQueue.Put.Policies.{Pending, Asleep}
use operating_system_whw.MessageQueue.Put.Random.{turn-random_small}
use operating_system_whw.MessageQueue.Put.Loop.{mq_put-loop}
use operating_system_whw.MessageQueue.Put.Prepare.{
  IsMessage, Allocates, new_cell, prepared, prepared-Owns, prepared-Apart, prepared-IsQueue,
}
use operating_system_whw.MessageQueue.Put.Meets.{Provides, Refines}
use operating_system_whw.MessageQueue.Put.Refine.{Refines-full, Refines-room}

pub Pending-lock :
    {h : Heap} {mq : MessageQueue} {xs : Cells} {c : Cell}
    → Pending h mq xs c
    → Pending h (lock mq) xs c
Pending-lock p = record {
  queue = record { chain = p.queue.chain; count = p.queue.count; tail_last = p.queue.tail_last };
  new = p.new;
  apart = p.apart;
}

-- The new message is behind the others, and the queue has one more than its capacity.
abbrev pub Overfilled :
    RetCode → Dropped → Cells → Cell → MessageQueue → Heap → PutTurn → Heap → Type 0
Overfilled result d xs c mq h turn g =
    (f : Finished result d (xs ++ (c ∷ [])) xs (lock mq) h turn g) × (f.queue.size
      ≡ f.queue.capacity + 1)

module _ {h : Heap} {mq : MessageQueue} {xs : Cells} {c : Cell} (s : Supply) (d : Dropped)
    (p : Pending h mq xs c) where
  -- A call that sleeps and wakes at the test of the loop, with its node in hand, meets the
  -- specification at the queue that it then finds, be it full again or not; the capacity is not 0,
  -- and the array, memory and draws are as `MQPut` needs them.
  pub mq_put_resume-Refines :
      IsBounded mq
      → 0 < mq.capacity
      → Provides mq s d
      → Returns (Refines mq xs c h) (mq_put_resume s recheck c.node_at success mq d h)
  unfolding mq_put_resume
  mq_put_resume-Refines b pos given = elim (ℕ_discrete mq.size mq.capacity) [
    | yes full ↦ Refines-full s d mq.sched_policy refl b given (Pending-lock p) full pos
    | no ne ↦ Refines-room s d b given (Pending-lock p) ne
  ]

  insert-overfills :
      mq.size ≡ mq.capacity
      → Returns (Overfilled success d xs c mq h) (mq_put_resume s insert c.node_at success mq d h)
  unfolding mq_put_resume
  insert-overfills full =
      let q = Pending-lock p in
      Returns.mono (put_finish-with success d q.queue q.new q.apart) λ turn g f. (
        f,
        omega (arith, f.contents.count, f.left.capacity, p.queue.count, length-append xs (c ∷ [])),
      )

-- `MQPut` of a live message under `random`, at a full queue of a capacity below 4, sleeps; and the
-- turn that it takes when it wakes, at any queue that is full by then, stores the message without
-- a test of the size: the size then exceeds the capacity by one.
pub mq_put-overfills :
    {h later : Heap} {mq woken : MessageQueue} {xs ys : Cells} {at meta : Ptr} {content : Content}
    {info : MetaData} (s : Supply) (d : Dropped)
    → IsQueue h mq xs
    → IsMessage h at content meta info
    → meta ∉ xs
    → Allocates h s
    → mq.size ≡ mq.capacity
    → mq.sched_policy ≡ drop_random
    → mq.capacity < 4
    → Pending later woken ys (new_cell s content meta info)
    → woken.size ≡ woken.capacity
    → let c = new_cell s content meta info in
      let silent = record d { amount = 0 } in
      Returns
        (λ turn g.
          (resume : Resume) × Asleep resume success silent xs c (lock mq) (prepared h c) turn g
          × Returns
              (Overfilled success silent ys c woken later)
              (mq_put_resume s resume c.node_at success woken silent later))
        (mq_put s (some mq) at d h)
mq_put-overfills {h} {later} {mq} {woken} {xs} {ys} {meta} {content} {info} s d is msg out mem full
      random small p again =
    let c : Cell = new_cell s content meta info in
    let silent : Dropped = record d { amount = 0 } in
    let here = prepared-IsQueue s msg mem is in
    let first : Pending (prepared h c) (lock mq) xs c = record {
      queue = record { chain = here.chain; count = here.count; tail_last = here.tail_last };
      new = prepared-Owns s msg mem;
      apart = prepared-Apart s msg mem is out;
    } in
    rw (mq_put-loop s msg mem mq d) (
      Returns.mono (turn-random_small s success d first full random small)
        λ turn g asleep. (insert, asleep, insert-overfills s silent p again))
