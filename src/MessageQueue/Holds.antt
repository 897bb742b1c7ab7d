-- ===== src/MessageQueue/Holds.antt =====
-- What it means that a `struct t_message_queue` holds a list of messages.
use operating_system_whw.Common.{
  ℕ, ◌-◌, ◌/◌, ◌≤◌, ◌≡◌, refl, ◌≢◌, [], ◌∷◌, arith, length, ◌==◌, if◌then◌else◌,
}
use mathlib.Core.Path.{subst}
use operating_system_whw.Heap.Points.{Points}
use operating_system_whw.Common.{sym}
use operating_system_whw.Heap.{node, Ptr, null, Heap}
use operating_system_whw.Heap.Cells.{Cell, Cells, Apart, Owns, Seg, nil, cons}
use operating_system_whw.Heap.Release.{without, Seg-without}
use operating_system_whw.Heap.Segments.{last_from}
use operating_system_whw.MessageQueue.Types.{SchedPolicy, invalid, MessageQueue, new_queue}

-- The nodes from `head` to NULL are `xs`, `size` counts them, and `tail` is the last (NULL if there
-- is none).
pub record IsQueue (h : Heap) (mq : MessageQueue) (xs : Cells) : Type 0 where
  pub chain : Seg h null mq.head xs
  pub count : mq.size ≡ length xs
  pub tail_last : mq.tail ≡ last_from null xs

-- What holds of the members that no operation sets, and of the sizes.
pub record IsBounded (mq : MessageQueue) : Type 0 where
  pub within : mq.size ≤ mq.capacity
  pub quarter : mq.random_drop_count ≡ mq.capacity / 4
  pub has_policy : mq.sched_policy ≢ invalid

pub new_queue-IsQueue :
    (h : Heap) (capacity : ℕ) (policy : SchedPolicy) → IsQueue h (new_queue capacity policy) []
new_queue-IsQueue h capacity policy = record { chain = nil; count = refl; tail_last = refl }

-- The parts of a queue that is not empty.
pub record Uncons (h : Heap) (p : Ptr) (c : Cell) (xs : Cells) : Type 0 where
  pub next : Ptr
  pub head_at : p ≡ c.node_at
  pub owned : Owns h next c
  pub apart : Apart c xs
  pub rest : Seg h null next xs

pub Seg-Uncons :
    {h : Heap} {p : Ptr} {c : Cell} {xs : Cells} → Seg h null p (c ∷ xs) → Uncons h p c xs
Seg-Uncons (cons e o out s) = record { next = _; head_at = e; owned = o; apart = out; rest = s }

pub Uncons-live :
    {h : Heap} {p : Ptr} {c : Cell} {xs : Cells} (u : Uncons h p c xs)
    → Points h p (node (record { next = u.next; message = c.message_at }))
Uncons-live {h} {c} u =
    subst (λ p. Points h p (node (record { next = u.next; message = c.message_at })))
      (sym u.head_at) u.owned.node_live

-- The members after the first node has left the queue.
abbrev pub behead : MessageQueue → Ptr → MessageQueue
behead mq next = record mq {
  head = next;
  size = mq.size - 1;
  tail = if mq.size - 1 == 0 then next else mq.tail;
}

tail_behead :
    {g : Heap} {q n : ℕ} {xs : Cells} (p : ℕ)
    → Seg g null q xs
    → n ≡ length xs
    → (if n == 0 then q else last_from p xs) ≡ last_from null xs
tail_behead p nil e = ground arith
tail_behead p (cons e o out s) len = ground arith

pub behead-IsQueue :
    {h g : Heap} {mq : MessageQueue} {q : Ptr} {c : Cell} {xs : Cells}
    → IsQueue h mq (c ∷ xs)
    → Seg g null q xs
    → IsQueue g (behead mq q) xs
behead-IsQueue {mq} {c} {xs} is s = record {
  chain = s;
  count = omega (arith, is.count);
  tail_last = rw is.tail_last (tail_behead c.node_at s (omega (arith, is.count)));
}

pub IsQueue-without :
    {h : Heap} {mq : MessageQueue} {xs : Cells} (c : Cell)
    → IsQueue h mq xs
    → Apart c xs
    → IsQueue (without c h) mq xs
IsQueue-without {xs} c is out = record {
  chain = Seg-without c xs is.chain out;
  count = is.count;
  tail_last = is.tail_last;
}
