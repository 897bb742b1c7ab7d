-- ===== src/MessageQueue/Free/All.antt =====
-- `MQFree` on a queue that holds a list of messages.
use mathlib.Core.Path.{subst}
use operating_system_whw.Heap.Points.{Points, load_node-ok}
use operating_system_whw.Heap.{node, ok}
use operating_system_whw.Heap.Cells.{not-mem_of_holds}
use operating_system_whw.Common.{
  sym, ℕ, zero, suc, ◌+◌, ◌<◌, ◌≡◌, refl, none, some, arith, eq_false, if◌then◌else◌, length,
}
use operating_system_whw.Heap.{Ptr, null, Heap}
use operating_system_whw.Heap.Returns
use operating_system_whw.Heap.Returns.{Returns, returns}
use operating_system_whw.Heap.Cells.{Cells, has, Seg, nil, cons}
use operating_system_whw.Heap.Release.{without, Seg-without}
use operating_system_whw.MessageQueue.Types.{MessageQueue}
use operating_system_whw.MessageQueue.Holds.{IsQueue}
use operating_system_whw.MessageQueue.Drop.Single.{release_node-without}
use operating_system_whw.MessageQueue.Drop.{release_node}
use operating_system_whw.MessageQueue.Free.{free_loop, mq_free}

-- `g` is `h` less the objects of `xs`.
abbrev pub Without : Cells → Heap → Heap → Type 0
Without xs h g = (a : Ptr) → g a ≡ (if has a xs then none else h a)

free_loop-Without :
    (fuel : ℕ) {h : Heap} {p : Ptr} {xs : Cells}
    → Seg h null p xs
    → length xs < fuel
    → Returns (λ _ g. Without xs h g) (free_loop fuel p h)
unfolding free_loop without
free_loop-Without zero s lt = absurd (omega arith)
free_loop-Without (suc fuel) nil lt = returns λ a. refl
free_loop-Without (suc fuel) {h} {p} (cons {q} {c} {xs} e o out s) lt =
    let live =
      subst (λ p. Points h p (node (record { next = q; message = c.message_at }))) (sym e)
        o.node_live in
    let released : release_node p h ≡ ok tt (without c h) =
      subst (λ p. release_node p h ≡ ok tt (without c h)) (sym e) (release_node-without o) in
    rw (eq_false live.ne_null, load_node-ok live, released)
      (Returns.mono (free_loop-Without fuel (Seg-without c xs s out) (omega arith))
        λ _ g gone a. ground (arith, gone a, not-mem_of_holds a c xs out))

-- `MQFree` of a queue that holds `xs` ends within its rounds and gives back every node with its
-- message and meta data, each once; no other object of the heap changes.
pub mq_free-Without :
    {h : Heap} {mq : MessageQueue} {xs : Cells}
    → IsQueue h mq xs
    → Returns (λ _ g. Without xs h g) (mq_free (some mq) h)
unfolding mq_free
mq_free-Without {mq} is = free_loop-Without (mq.size + 1) is.chain (omega (arith, is.count))
