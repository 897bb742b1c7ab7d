-- ===== src/MessageQueue/Put/Insert.antt =====
-- The end of `MQPut` that puts the new node at the tail.
use operating_system_whw.Common.{◌+◌, ◌≡◌, refl, ◌≢◌, [], ◌∷◌, ◌++◌, arith, length-append, sym}
use mathlib.Core.Path.{subst}
use operating_system_whw.Heap.{Ptr, null, Heap, ok, pure, ◌>>◌, set_next}
use operating_system_whw.Heap.Returns
use operating_system_whw.Heap.Returns.{Returns, returns}
use operating_system_whw.Heap.Cells.{
  Cell, Cells, Apart, SameOutside, Owns, Owns-frame, Seg, nil, cons, not-mem_of_holds,
}
use operating_system_whw.Heap.Segments.{last_from, set_next-Seg, Seg-snoc}
use operating_system_whw.MessageQueue.Types.{MessageQueue}
use operating_system_whw.MessageQueue.Holds.{IsQueue, Seg-Uncons}
use operating_system_whw.MessageQueue.Put.{put_insert}

-- The members after the node has gone in.
abbrev pub extend : MessageQueue → (head : Ptr) → (new_node : Ptr) → MessageQueue
extend mq head new_node = record mq { head = head; size = mq.size + 1; tail = new_node }

last_from-snoc : (p : Ptr) (xs : Cells) (d : Cell) → last_from p (xs ++ (d ∷ [])) ≡ d.node_at
last_from-snoc p [] d = refl
last_from-snoc p (x ∷ xs) d = last_from-snoc x.node_at xs d

put_insert-first :
    (h : Heap) (mq : MessageQueue) (p : Ptr)
    → mq.size ≡ 0
    → put_insert p mq h ≡ ok (extend mq p p) h
unfolding put_insert
put_insert-first h mq p e = ground arith

put_insert-link :
    (h : Heap) (mq : MessageQueue) (p : Ptr)
    → mq.size ≢ 0
    → put_insert p mq h ≡ (set_next mq.tail p >> pure (extend mq mq.head p)) h
unfolding put_insert
put_insert-link h mq p ne = ground arith

-- The queue holds the message of `d` as its last, and nothing changes outside the nodes `xs`.
abbrev pub Inserted : Heap → Cell → Cells → MessageQueue → MessageQueue → Heap → Type 0
Inserted h d xs mq mq' g =
    IsQueue g mq' (xs ++ (d ∷ [])) × (mq' ≡ extend mq mq'.head d.node_at) × SameOutside xs h g

module _ {h : Heap} {d : Cell} (new : Owns h null d) where
  insert-empty :
      {mq : MessageQueue}
      → IsQueue h mq []
      → Returns (Inserted h d [] mq) (put_insert d.node_at mq h)
  insert-empty {mq} is = rw (put_insert-first h mq d.node_at is.count) (
      returns (
        record {
          chain = cons refl new (refl, refl, refl) nil;
          count = omega (arith, is.count);
          tail_last = refl;
        },
        refl,
        λ a i. refl,
      ))

  linked-IsQueue :
      {g : Heap} {mq : MessageQueue} {c : Cell} {xs : Cells}
      → IsQueue h mq (c ∷ xs)
      → Apart d (c ∷ xs)
      → Seg g d.node_at c.node_at (c ∷ xs)
      → SameOutside (c ∷ xs) h g
      → IsQueue g (extend mq mq.head d.node_at) ((c ∷ xs) ++ (d ∷ []))
  linked-IsQueue {g} {mq} {c} {xs} is out chain same = record {
    chain =
        subst (λ p. Seg g null p ((c ∷ xs) ++ (d ∷ []))) (sym (Seg-Uncons is.chain).head_at)
          (Seg-snoc chain refl (Owns-frame new λ a i. same a (not-mem_of_holds a d (c ∷ xs) out i))
            out);
    count = omega (arith, is.count, length-append xs (d ∷ []));
    tail_last = sym (last_from-snoc null (c ∷ xs) d);
  }

  insert-cons :
      {mq : MessageQueue} {c : Cell} {xs : Cells}
      → IsQueue h mq (c ∷ xs)
      → Apart d (c ∷ xs)
      → Returns (Inserted h d (c ∷ xs) mq) (put_insert d.node_at mq h)
  insert-cons {mq} {c} {xs} is out =
      let u = Seg-Uncons is.chain in
      let Linked : Unit {0} → Heap → Type 0 =
        λ _ g. Seg g d.node_at c.node_at (c ∷ xs) × SameOutside (c ∷ xs) h g in
      rw (put_insert-link h mq d.node_at (omega (arith, is.count))) (
        Returns.bind
          (subst (λ t. Returns Linked (set_next t d.node_at h)) (sym is.tail_last)
            (set_next-Seg d.node_at u.owned u.apart u.rest))
          λ _ g (chain, same). returns (linked-IsQueue is out chain same, refl, same))

  pub put_insert-Inserted :
      {mq : MessageQueue} (xs : Cells)
      → IsQueue h mq xs
      → Apart d xs
      → Returns (Inserted h d xs mq) (put_insert d.node_at mq h)
  put_insert-Inserted [] is out = insert-empty is
  put_insert-Inserted (c ∷ xs) is out = insert-cons is out
