-- ===== src/MessageQueue/Get/Take.antt =====
-- What a turn of `MQGet` does.
use operating_system_whw.Common.{
  ◌≡◌, refl, ◌≢◌, true, false, none, some, [], ◌∷◌, arith, sym, eq_false,
}
use mathlib.Core.Path.{subst}
use operating_system_whw.Heap.{Ptr, null, Heap, ok, write, message, node, free}
use operating_system_whw.Heap.Points.{
  Points, load_node-ok, free-ok, Points-write_ne, Points-write_self,
}
use operating_system_whw.Heap.Returns
use operating_system_whw.Heap.Returns.{Returns, returns}
use operating_system_whw.Heap.Cells.{
  Cell, Cells, ◌∉◌, Owns-distinct, Seg, Seg-frame, not-mem_of_none,
}
use operating_system_whw.MessageQueue.Types.{success, MessageQueue, signal, lock, unlock}
use operating_system_whw.MessageQueue.Holds.{
  IsQueue, Seg-Uncons, Uncons, Uncons-live, behead, behead-IsQueue,
}
use operating_system_whw.MessageQueue.Put.Prepare.{IsMessage, message_copy-ok}
use operating_system_whw.MessageQueue.Drop.Single.{message_free-ok}
use operating_system_whw.MessageQueue.Get.{GetTurn, returned, get_take, mq_get_resume, mq_get}

-- The call hands out a fresh copy of the first message, with its meta data; the node and the old
-- copy are gone, and the queue holds the others with the mutex free.
pub record Taken (fresh : Ptr) (c : Cell) (xs : Cells) (mq : MessageQueue) (h : Heap)
    (turn : GetTurn) (g : Heap) : Type 0 where
  pub queue : MessageQueue
  pub answer : turn ≡ returned success fresh queue
  pub rest : IsQueue g queue xs
  pub copy : IsMessage g fresh c.content c.meta_at c.info
  pub node_gone : g c.node_at ≡ none
  pub message_gone : g c.message_at ≡ none
  pub frame : (a : Ptr) → a ∉ (c ∷ []) → a ≢ fresh → g a ≡ h a
  pub kept :
      (queue.capacity ≡ mq.capacity)
      × (queue.sched_policy ≡ mq.sched_policy)
      × (queue.random_drop_count ≡ mq.random_drop_count)
  pub unlocked : queue.locked ≡ false
  pub signalled : queue.cond_get ≡ signal mq.cond_get
  pub same_put : queue.cond_put ≡ mq.cond_put

-- The heap at the end.
taken : Heap → Ptr → Cell → Heap
taken h fresh c =
    write
      (write
        (write h fresh (some (message (record { content = c.content; meta_data = c.meta_at }))))
        c.message_at none)
      c.node_at none

module _ {h : Heap} {mq : MessageQueue} {c : Cell} {xs : Cells} (fresh : Ptr)
    (is : IsQueue h mq (c ∷ xs)) (ne : fresh ≢ null) (unused : h fresh ≡ none) where
  u : Uncons h mq.head c xs
  u = Seg-Uncons is.chain

  fresh_apart : fresh ∉ (c ∷ xs)
  fresh_apart = not-mem_of_none fresh is.chain unused

  abbrev with_copy : Heap
  with_copy = write h fresh (some (message (record { content = c.content; meta_data = c.meta_at })))

  old_message :
      Points with_copy c.message_at
        (message (record { content = c.content; meta_data = c.meta_at }))
  old_message = Points-write_ne _ u.owned.message_live (ground (arith, fresh_apart))

  old_node :
      Points
        (write with_copy c.message_at none)
        c.node_at
        (node (record { next = u.next; message = c.message_at }))
  old_node =
      Points-write_ne none (Points-write_ne _ u.owned.node_live (ground (arith, fresh_apart)))
        (ground (arith, Owns-distinct u.owned))

  free_node : free mq.head (write with_copy c.message_at none) ≡ ok tt (taken h fresh c)
  unfolding taken
  free_node =
      subst (λ p. free p (write with_copy c.message_at none) ≡ ok tt (taken h fresh c))
        (sym u.head_at) (free-ok old_node)

  get_take-ok :
      get_take fresh mq h
      ≡ ok
          (returned success fresh
            (unlock (record (behead mq u.next) { cond_get = signal mq.cond_get })))
          (taken h fresh c)
  unfolding get_take
  get_take-ok = rw (
    load_node-ok (Uncons-live u),
    message_copy-ok fresh u.owned.message_live ne,
    message_free-ok c.message_at with_copy u.owned.message_live.ne_null,
    free-ok old_message,
    free_node,
  )

  taken-same : (a : Ptr) → a ≢ c.node_at → a ≢ c.message_at → a ≢ fresh → taken h fresh c a ≡ h a
  unfolding taken write
  taken-same a p q r = ground arith

  taken-Seg : Seg (taken h fresh c) null u.next xs
  taken-Seg = Seg-frame u.rest λ a i.
      taken-same a (ground (arith, u.apart)) (ground (arith, u.apart)) (ground (arith, fresh_apart))

  taken-copy : IsMessage (taken h fresh c) fresh c.content c.meta_at c.info
  unfolding taken
  taken-copy = record {
    message_live =
        Points-write_ne none
          (Points-write_ne none (Points-write_self h fresh _ ne) (ground (arith, fresh_apart)))
          (ground (arith, fresh_apart));
    meta_live =
        Points-write_ne none
          (Points-write_ne none (Points-write_ne _ u.owned.meta_live (ground (arith, fresh_apart)))
            (ground (arith, Owns-distinct u.owned)))
          (ground (arith, Owns-distinct u.owned));
  }

  get_take-Taken : Returns (Taken fresh c xs mq h) (get_take fresh mq h)
  unfolding taken write
  get_take-Taken =
      let rest = behead-IsQueue is taken-Seg in
      rw get_take-ok (
        returns (record {
          queue = _;
          answer = refl;
          rest = record { chain = rest.chain; count = rest.count; tail_last = rest.tail_last };
          copy = taken-copy;
          node_gone = ground arith;
          message_gone = ground arith;
          frame = λ a out r. taken-same a (ground arith) (ground arith) r;
          kept = (refl, refl, refl);
          unlocked = refl;
          signalled = refl;
          same_put = refl;
        }))

Taken-lock :
    {fresh : Ptr} {c : Cell} {xs : Cells} {mq : MessageQueue} {h : Heap} {turn : GetTurn} {g : Heap}
    → Taken fresh c xs (lock mq) h turn g
    → Taken fresh c xs mq h turn g
Taken-lock t = record {
  queue = t.queue;
  answer = t.answer;
  rest = t.rest;
  copy = t.copy;
  node_gone = t.node_gone;
  message_gone = t.message_gone;
  frame = t.frame;
  kept = t.kept;
  unlocked = t.unlocked;
  signalled = t.signalled;
  same_put = t.same_put;
}

-- `MQGet` at a queue that holds a message, with memory for a copy, answers MQ_SUCCESS and hands
-- out the first message: a fresh copy with its meta data. The node and the old copy are given
-- back, the queue holds the other messages in order, nothing else changes, the mutex is free, and
-- one thread that waits for room is signalled.
pub mq_get-Taken :
    {h : Heap} {mq : MessageQueue} {c : Cell} {xs : Cells} (fresh : Ptr)
    → IsQueue h mq (c ∷ xs)
    → fresh ≢ null
    → h fresh ≡ none
    → Returns (Taken fresh c xs mq h) (mq_get fresh (some mq) true h)
unfolding mq_get mq_get_resume
mq_get-Taken {h} {mq} {c} {xs} fresh is ne unused =
    let locked : IsQueue h (lock mq) (c ∷ xs) = record {
      chain = is.chain;
      count = is.count;
      tail_last = is.tail_last;
    } in
    let some_left : mq.size ≢ 0 = omega (arith, is.count) in
    rw (eq_false some_left)
      (Returns.mono (get_take-Taken {mq = lock mq} fresh locked ne unused) λ turn g t. Taken-lock t)
