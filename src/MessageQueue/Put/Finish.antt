-- ===== src/MessageQueue/Put/Finish.antt =====
-- The end of `MQPut` from the `while` loop on, and what a finished call leaves behind.
use operating_system_whw.Common.{ℕ, ◌≡◌, refl, true, false, [], ◌∷◌, ◌++◌}
use operating_system_whw.Heap.{Ptr, null, Heap}
use operating_system_whw.Heap.Returns
use operating_system_whw.Heap.Returns.{Returns, returns}
use operating_system_whw.Heap.Cells.{Cell, Cells, Apart, SameOutside, Owns}
use operating_system_whw.MessageQueue.Types.{RetCode, MessageQueue, signal, lock}
use operating_system_whw.MessageQueue.Holds.{IsQueue}
use operating_system_whw.MessageQueue.Drop.{Dropped}
use operating_system_whw.MessageQueue.Put.{PutTurn, returned, put_finish}
use operating_system_whw.MessageQueue.Put.Insert.{put_insert-Inserted}

-- A finished call keeps the setup, leaves the mutex free, and has sent one signal to the readers.
pub record Left (mq mq' : MessageQueue) : Type 0 where
  pub capacity : mq'.capacity ≡ mq.capacity
  pub quarter : mq'.random_drop_count ≡ mq.random_drop_count
  pub policy : mq'.sched_policy ≡ mq.sched_policy
  pub unlocked : mq'.locked ≡ false
  pub signalled : mq'.cond_put ≡ signal mq.cond_put
  pub same_get : mq'.cond_get ≡ mq.cond_get

module _ {mq mq' : MessageQueue} where
  pub Left-lock : Left (lock mq) mq' → Left mq mq'
  Left-lock l = record {
    capacity = l.capacity;
    quarter = l.quarter;
    policy = l.policy;
    unlocked = l.unlocked;
    signalled = l.signalled;
    same_get = l.same_get;
  }

  pub Left-resized :
      (n : ℕ) (p q : Ptr) → Left (record mq { size = n; head = p; tail = q }) mq' → Left mq mq'
  Left-resized n p q l = record {
    capacity = l.capacity;
    quarter = l.quarter;
    policy = l.policy;
    unlocked = l.unlocked;
    signalled = l.signalled;
    same_get = l.same_get;
  }

-- The call has returned `result`, reports `out`, and the queue holds `ys`; of the heap only objects
-- of `touched` may have changed.
pub record Finished (result : RetCode) (out : Dropped) (ys touched : Cells) (mq : MessageQueue)
    (h : Heap) (turn : PutTurn) (g : Heap) : Type 0 where
  pub queue : MessageQueue
  pub answer : turn ≡ returned result queue out
  pub contents : IsQueue g queue ys
  pub left : Left mq queue
  pub frame : SameOutside touched h g

-- A part of a call that ends so, seen from the start of the call.
pub Finished-from :
    {result : RetCode} {out : Dropped} {ys touched : Cells} {mq mq' : MessageQueue} {h h' : Heap}
    {turn : PutTurn} {g : Heap} (all : Cells)
    → Finished result out ys touched mq' h' turn g
    → ((q : MessageQueue) → Left mq' q → Left mq q)
    → SameOutside all h g
    → Finished result out ys all mq h turn g
Finished-from all f left same = record {
  queue = f.queue;
  answer = f.answer;
  contents = f.contents;
  left = left f.queue f.left;
  frame = same;
}

module _ {h : Heap} (result : RetCode) (out : Dropped) where
  pub put_finish-without :
      {mq : MessageQueue} {xs : Cells} (p : Ptr)
      → IsQueue h mq xs
      → Returns (Finished result out xs [] mq h) (put_finish false p result mq out h)
  unfolding put_finish
  put_finish-without p is = returns (record {
    queue = _;
    answer = refl;
    contents = record { chain = is.chain; count = is.count; tail_last = is.tail_last };
    left = record {
      capacity = refl;
      quarter = refl;
      policy = refl;
      unlocked = refl;
      signalled = refl;
      same_get = refl;
    };
    frame = λ a i. refl;
  })

  pub put_finish-with :
      {mq : MessageQueue} {d : Cell} {xs : Cells}
      → IsQueue h mq xs
      → Owns h null d
      → Apart d xs
      → Returns
          (Finished result out (xs ++ (d ∷ [])) xs mq h)
          (put_finish true d.node_at result mq out h)
  unfolding put_finish
  put_finish-with {xs} is new apart =
      Returns.bind (put_insert-Inserted new xs is apart) λ mq' g (holds, e, same). returns (record {
        queue = _;
        answer = refl;
        contents = record { chain = holds.chain; count = holds.count; tail_last = holds.tail_last };
        left = record {
          capacity = rw e;
          quarter = rw e;
          policy = rw e;
          unlocked = refl;
          signalled = rw e;
          same_get = rw e;
        };
        frame = same;
      })
