-- ===== src/MessageQueue/Calm/Puts.antt =====
-- What a turn of `MQPut` of HW3/message_queue.c leaves of the condition variables.
use operating_system_whw.Common.{
  ℕ, ◌+◌, ◌≤◌, ◌≡◌, arith, Bool, true, false, zero, suc, some, ◌==◌, Bool-cases, inl, inr, refl,
  eq_true,
}
use operating_system_whw.Heap.{Ptr, Heap, null, set_next}
use operating_system_whw.Heap.Ends.{Ends, ended, starved, chain, skip}
use operating_system_whw.MessageQueue.Types.{
  RetCode, drop, success, MessageQueue, SchedPolicy, invalid, block, drop_tail, drop_head,
  drop_random, signal, lock, unlock,
}
use operating_system_whw.MessageQueue.Drop.{
  Dropped, put_handle_drop_tail, blocked, failed, swept, RandomDrop,
}
use operating_system_whw.MessageQueue.Put.{
  Supply, Resume, recheck, insert, PutTurn, refused, waits, returned, put_insert, put_finish,
  put_random, put_loop, put_prepare, loop_fuel, mq_put, mq_put_resume,
}
use operating_system_whw.MessageQueue.Calm.{Calm, Blocked, signal-Awake}
use operating_system_whw.MessageQueue.Calm.Drops.{
  drop_head-Calm, block-Blocked, drop_random-Swept, Swept,
}

-- The accept loop sleeps only at a full queue.
abbrev pub Turned : PutTurn → Type 0
Turned (refused code) = Unit {0}
Turned (waits resume new_node result mq d) = Blocked mq
Turned (returned code mq d) = Calm mq

-- Before the signal there may be one message more.
Grown : MessageQueue → MessageQueue → Type 0
Grown mq grown =
    (grown.size ≤ mq.size + 1) × (grown.cond_put ≡ mq.cond_put) × (grown.cond_get ≡ mq.cond_get)

insert-Grown :
    (new_node : Ptr) (mq : MessageQueue) (h : Heap) → Ends (Grown mq) (put_insert new_node mq h)
unfolding put_insert Grown
insert-Grown new_node mq h = elim (Bool-cases (mq.size + 1 == 1)) [
  | inl e ↦ rw e (ended (omega arith, refl, refl))
  | inr e ↦ rw e (skip (set_next mq.tail new_node h) (λ u h1. ended (omega arith, refl, refl)))
]

Grown-Turned :
    (code : RetCode) (mq grown : MessageQueue) (d : Dropped)
    → Calm mq
    → Grown mq grown
    → Turned (returned code (unlock (record grown { cond_put = signal grown.cond_put })) d)
unfolding Grown
Grown-Turned code mq grown d calm (le, same_put, same_get) =
    rw (same_put, same_get) (signal-Awake grown.size mq calm.0 le, calm.1)

finish-Turned :
    (is_putting : Bool) (new_node : Ptr) (result : RetCode) (mq : MessageQueue) (d : Dropped)
    (h : Heap)
    → Calm mq
    → Ends Turned (put_finish is_putting new_node result mq d h)
unfolding put_finish Grown
finish-Turned true new_node result mq d h calm =
    chain (insert-Grown new_node mq h) (λ grown g h1. ended (Grown-Turned result mq grown d calm g))
finish-Turned false new_node result mq d h calm =
    ended (Grown-Turned result mq mq d calm (omega arith, refl, refl))

random-Turned :
    (new_node : Ptr) (result : RetCode) (r : RandomDrop) (h : Heap)
    → Swept r
    → Ends Turned (put_random new_node result r h)
unfolding put_random
random-Turned new_node result (blocked mq d) h swept_ = ended swept_
random-Turned new_node result (failed mq d) h swept_ = ended swept_
random-Turned new_node result (swept mq d) h swept_ = finish-Turned true new_node drop mq d h swept_

module _ (fuel : ℕ) (s : Supply) (new_node : Ptr)
    (next_round : (result : RetCode) (mq : MessageQueue) (d : Dropped) (h : Heap)
      → Calm mq
      → Ends Turned (put_loop fuel s new_node result mq d h)) where
  full-Turned :
      (result : RetCode) (mq : MessageQueue) (d : Dropped) (h : Heap) (policy : SchedPolicy)
      → Calm mq
      → mq.sched_policy ≡ policy
      → mq.size ≡ mq.capacity
      → Ends Turned (put_loop (suc fuel) s new_node result mq d h)
  unfolding put_loop
  full-Turned result mq d h invalid calm e full =
      simp (eq_true full, e, put_loop) (next_round result mq d h calm)
  full-Turned result mq d h block calm e full =
      simp (eq_true full, e, put_loop) (ended (block-Blocked mq calm full))
  full-Turned result mq d h drop_tail calm e full =
      simp (eq_true full, e, put_loop)
        (skip (put_handle_drop_tail d new_node h)
          (λ d' h1. finish-Turned false new_node drop mq d' h1 calm))
  full-Turned result mq d h drop_head calm e full =
      simp (eq_true full, e, put_loop)
        (chain (drop_head-Calm mq d h calm) (λ r calm1 h1. next_round drop r.0 r.1 h1 calm1))
  full-Turned result mq d h drop_random calm e full =
      simp (eq_true full, e, put_loop)
        (chain (drop_random-Swept s.indexes s.draws mq d h calm full)
          (λ r done h1. random-Turned new_node result r h1 done))

  round-Turned :
      (result : RetCode) (mq : MessageQueue) (d : Dropped) (h : Heap)
      → Calm mq
      → Ends Turned (put_loop (suc fuel) s new_node result mq d h)
  unfolding put_loop
  round-Turned result mq d h calm = elim (Bool-cases (mq.size == mq.capacity)) [
    | inl e ↦ full-Turned result mq d h mq.sched_policy calm refl (ground (arith, e))
    | inr e ↦ rw (e, put_loop) (finish-Turned true new_node result mq d h calm)
  ]

loop-Turned :
    (fuel : ℕ) (s : Supply) (new_node : Ptr) (result : RetCode) (mq : MessageQueue) (d : Dropped)
    (h : Heap)
    → Calm mq
    → Ends Turned (put_loop fuel s new_node result mq d h)
unfolding put_loop
loop-Turned zero s new_node result mq d h calm = starved
loop-Turned (suc fuel) s new_node result mq d h calm =
    round-Turned fuel s new_node (loop-Turned fuel s new_node) result mq d h calm

pub mq_put-Turned :
    (s : Supply) (mq : MessageQueue) (message : Ptr) (d : Dropped) (h : Heap)
    → Calm mq
    → Ends Turned (mq_put s (some mq) message d h)
unfolding mq_put
mq_put-Turned s mq message d h calm = elim (Bool-cases (message == null)) [
  | inl e ↦ rw e (ended _)
  | inr e ↦ rw e (
      skip (put_prepare s message h) (λ new_node h1. elim (Bool-cases (new_node == null)) [
        | inl n ↦ rw n (ended _)
        | inr n ↦ rw n (loop-Turned loop_fuel s new_node success (lock mq) d h1 calm)
      ]))
]

pub mq_put_resume-Turned :
    (s : Supply) (resume : Resume) (new_node : Ptr) (result : RetCode) (mq : MessageQueue)
    (d : Dropped) (h : Heap)
    → Calm mq
    → Ends Turned (mq_put_resume s resume new_node result mq d h)
unfolding mq_put_resume
mq_put_resume-Turned s recheck new_node result mq d h calm =
    loop-Turned loop_fuel s new_node result (lock mq) d h calm
mq_put_resume-Turned s insert new_node result mq d h calm =
    finish-Turned true new_node result (lock mq) d h calm
