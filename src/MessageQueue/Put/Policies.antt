-- ===== src/MessageQueue/Put/Policies.antt =====
-- A turn of `MQPut` under each policy, from its start or from a wake-up at the loop's test.
use operating_system_whw.Common.{◌<◌, ◌≡◌, refl, ◌≢◌, false, [], ◌∷◌, ◌++◌, ◌∙◌, length}
use operating_system_whw.Heap.{null, Heap}
use operating_system_whw.Heap.Returns
use operating_system_whw.Heap.Returns.{Returns, returns}
use operating_system_whw.Heap.Cells.{
  Apart-tail, Apart-flip, not-mem-tail, Cell, Cells, Apart, Owns, not-mem_of_holds,
}
use operating_system_whw.Heap.Release.{Gone, without-Gone, without-outside, Owns-without}
use operating_system_whw.MessageQueue.Types.{
  sleep, RetCode, drop, block, drop_tail, drop_head, MessageQueue, sleep,
}
use operating_system_whw.MessageQueue.Holds.{IsQueue, IsQueue-without, Seg-Uncons}
use operating_system_whw.MessageQueue.Drop.{Dropped, put_handle_block}
use operating_system_whw.MessageQueue.Put.{
  Resume, Supply, recheck, PutTurn, waits, put_loop, loop_fuel,
}
use operating_system_whw.MessageQueue.Put.Finish.{
  Left-resized, Finished-from, Finished, put_finish-without, put_finish-with,
}
use operating_system_whw.MessageQueue.Put.Loop.{
  loop-room, loop-block, loop-drop_tail, loop-drop_head, report,
}

-- A call that has the mutex: the queue holds `xs`, and the call has its node, that of `c`, in hand.
pub record Pending (h : Heap) (mq : MessageQueue) (xs : Cells) (c : Cell) : Type 0 where
  pub queue : IsQueue h mq xs
  pub new : Owns h null c
  pub apart : Apart c xs

-- The call sleeps on `cond_get` with the mutex free. Neither the heap nor the queue has changed.
pub record Asleep (resume : Resume) (result : RetCode) (out : Dropped) (xs : Cells) (c : Cell)
    (mq : MessageQueue) (h : Heap) (turn : PutTurn) (g : Heap) : Type 0 where
  pub queue : MessageQueue
  pub answer : turn ≡ waits resume c.node_at result queue out
  pub pending : Pending g queue xs c
  pub sleeping : queue ≡ record mq { locked = false; cond_get = sleep mq.cond_get }
  pub same : g ≡ h

pub put_handle_block-Asleep :
    {h : Heap} {mq : MessageQueue} {xs : Cells} {c : Cell} (resume : Resume) (result : RetCode)
    (d : Dropped)
    → Pending h mq xs c
    → Asleep resume result d xs c mq h (waits resume c.node_at result (put_handle_block mq) d) h
unfolding put_handle_block
put_handle_block-Asleep {mq} resume result d p = record {
  queue = put_handle_block mq;
  answer = refl;
  pending = record {
    queue = record { chain = p.queue.chain; count = p.queue.count; tail_last = p.queue.tail_last };
    new = p.new;
    apart = p.apart;
  };
  sleeping = refl;
  same = refl;
}

module _ {h : Heap} {mq : MessageQueue} {c : Cell} (s : Supply) (result : RetCode)
    (d : Dropped) where
  -- A turn that finds the size different from the capacity puts the node at the tail: the heap
  -- holds the messages `xs` and then the new one, the call answers `result` and reports what `d`
  -- held, a thread that waits for a message is signalled and the mutex is free.
  pub turn-room :
      {xs : Cells}
      → Pending h mq xs c
      → mq.size ≢ mq.capacity
      → Returns
          (Finished result d (xs ++ (c ∷ [])) xs mq h)
          (put_loop loop_fuel s c.node_at result mq d h)
  turn-room p ne =
      rw (loop-room h s c.node_at result d mq 1 ne) (put_finish-with result d p.queue p.new p.apart)

  module _ (full : mq.size ≡ mq.capacity) where
    -- A turn that finds the queue full under `block` sleeps on `cond_get` with its node in hand
    -- and the mutex free, to test the size again; the heap and the messages are as before.
    pub turn-block :
        {xs : Cells}
        → Pending h mq xs c
        → mq.sched_policy ≡ block
        → Returns (Asleep recheck result d xs c mq h) (put_loop loop_fuel s c.node_at result mq d h)
    turn-block p e =
        rw (loop-block h s c.node_at result d mq full 1 e)
          (returns (put_handle_block-Asleep recheck result d p))

    -- A turn that finds the queue full under `drop_tail`, with a place in the caller's array,
    -- answers MQ_DROP and reports the new content alone. The queue holds the same messages, and
    -- the new node, its message and its meta data are given back, each once.
    pub turn-drop_tail :
        {xs : Cells}
        → Pending h mq xs c
        → mq.sched_policy ≡ drop_tail
        → 0 < length d.contents
        → Returns
            (λ turn g. Finished drop (report d c.content) xs (c ∷ []) mq h turn g × Gone c g)
            (put_loop loop_fuel s c.node_at result mq d h)
    turn-drop_tail p e room = rw (loop-drop_tail s result d room mq full 1 e p.new) (
        Returns.mono
          (put_finish-without drop (report d c.content) c.node_at
            (IsQueue-without c p.queue p.apart))
          λ turn g f. (
            Finished-from (c ∷ []) f (λ q l. l)
                (λ a o. f.frame a refl ∙ without-outside c h [] a o),
            λ a i. f.frame a refl ∙ without-Gone c h a i,
          ))

    -- A turn that finds the queue full under `drop_head`, with a place in the caller's array and a
    -- first message `x`, answers MQ_DROP and reports the content of `x` alone. The queue holds the
    -- other messages in order and then the new one, and the three objects of `x` are given back.
    pub turn-drop_head :
        {x : Cell} {xs : Cells}
        → Pending h mq (x ∷ xs) c
        → mq.sched_policy ≡ drop_head
        → 0 < length d.contents
        → Returns
            (λ turn g.
              Finished drop (report d x.content) (xs ++ (c ∷ [])) (x ∷ xs) mq h turn g × Gone x g)
            (put_loop loop_fuel s c.node_at result mq d h)
    turn-drop_head {x} {xs} p e room =
        let u = Seg-Uncons p.queue.chain in
        let (q, rest, step) = loop-drop_head s result d room mq full 0 c.node_at e p.queue in
        rw step (
          Returns.mono
            (put_finish-with drop (report d x.content) rest
              (Owns-without x c p.new (Apart-flip c x xs p.apart)) (Apart-tail c x xs p.apart))
            λ turn g f. (
              Finished-from (x ∷ xs) f (λ t. Left-resized _ _ _)
                  (λ a o. f.frame a (not-mem-tail a x xs o) ∙ without-outside x h xs a o),
              λ a i. f.frame a (not-mem_of_holds a x xs u.apart i) ∙ without-Gone x h a i,
            ))
