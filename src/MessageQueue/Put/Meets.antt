-- ===== src/MessageQueue/Put/Meets.antt =====
-- What it means that a turn of `MQPut` meets the specification, and how lists of cells stand for
-- lists of messages.
use operating_system_whw.Common.{
  suc, ℕ, ◌+◌, ◌/◌, ◌≤◌, ◌<◌, ◌≡◌, refl, ◌≢◌, true, false, List, Bool, [], ◌∷◌, ◌++◌, map, arith,
  ap, length, set, take, eq_false, eq_true,
}
use mathlib.Core.Path.{subst}
use operating_system_whw.Heap.{Content, Heap}
use operating_system_whw.Heap.{Ptr}
use operating_system_whw.Heap.Cells.{◌∉◌, SameOutside, not-mem-tail, Cell, Cells}
use operating_system_whw.MessageQueue.Types.{
  RetCode, success, drop, SchedPolicy, drop_random, MessageQueue, lock,
}
use operating_system_whw.MessageQueue.Holds.{IsQueue}
use operating_system_whw.MessageQueue.Random.Fill.{Appears}
use operating_system_whw.MessageQueue.Drop.{Dropped}
use operating_system_whw.MessageQueue.Drop.Marks.{
  not-mem-kept, marked, kept, marks, contents_of, take-write_from, length-marked,
}
use operating_system_whw.MessageQueue.Spec.{Entry, entries, Answer, sleeps, answers, put_full, put}
use operating_system_whw.MessageQueue.Put.{Supply, insert, returned, PutTurn}
use operating_system_whw.MessageQueue.Put.Finish.{Left, Left-lock, Finished}
use operating_system_whw.MessageQueue.Put.Policies.{Asleep}
use operating_system_whw.MessageQueue.Put.Random.{reported}

-- The addresses of `cells` are addresses of `all`.
abbrev pub Covers : Cells → Cells → Type 0
Covers all cells = (a : Ptr) → a ∉ all → a ∉ cells

not-mem-append : (a : Ptr) (xs ys : Cells) → a ∉ xs → a ∉ ys → a ∉ (xs ++ ys)
not-mem-append a [] ys p q = q
not-mem-append a (x ∷ xs) ys p q = ground (arith, not-mem-append a xs ys)

pub Covers-append : (xs : Cells) (c : Cell) → Covers (c ∷ xs) (xs ++ (c ∷ []))
Covers-append xs c a out = not-mem-append a xs (c ∷ []) (not-mem-tail a c xs out) (ground arith)

pub Covers-kept :
    (flags : List Bool) (xs : Cells) (c : Cell) → Covers (c ∷ xs) (kept flags xs ++ (c ∷ []))
Covers-kept flags xs c a out =
    not-mem-append a (kept flags xs) (c ∷ []) (not-mem-kept a flags xs (not-mem-tail a c xs out))
      (ground arith)

-- A turn from the heap `h` to the heap `g` answers as specified: the call returned that code, the
-- queue holds those messages, `dropped` begins with those contents, the rest of the queue is in
-- order, and only objects of the queue and of the new message have changed; or the call sleeps, with
-- the queue as before.
abbrev pub Meets : Answer → MessageQueue → Cells → Cell → Heap → PutTurn → Heap → Type 0
Meets (sleeps resume) mq xs c h turn g =
    (d : Dropped) × Asleep resume success d xs c (lock mq) h turn g
Meets (answers result ys out) mq xs c h turn g =
    (q : MessageQueue) × (d : Dropped) × (cells : Cells) × (turn ≡ returned result q d)
    × IsQueue g q cells
    × (entries cells ≡ ys)
    × (take d.amount d.contents ≡ out)
    × Left mq q
    × (d.amount ≡ length out)
    × Covers (c ∷ xs) cells
    × SameOutside (c ∷ xs) h g

pub Finished-Meets :
    {result : RetCode} {d : Dropped} {cells touched : Cells} {mq : MessageQueue} {h : Heap}
    {turn : PutTurn} {g : Heap} {ys : List Entry} {out : List Content} (xs : Cells) (c : Cell)
    → Finished result d cells touched (lock mq) h turn g
    → Covers (c ∷ xs) cells
    → Covers (c ∷ xs) touched
    → entries cells ≡ ys
    → take d.amount d.contents ≡ out
    → d.amount ≡ length out
    → Meets (answers result ys out) mq xs c h turn g
Finished-Meets {d} {cells} xs c f left_in touched_in same shown amount = (
  f.queue,
  d,
  cells,
  f.answer,
  f.contents,
  same,
  shown,
  Left-lock f.left,
  amount,
  left_in,
  λ a o. f.frame a (touched_in a o),
)

pub entries-append : (xs ys : Cells) → entries (xs ++ ys) ≡ entries xs ++ entries ys
entries-append [] ys = refl
entries-append (x ∷ xs) ys = ap (λ t. (x.content, x.info) ∷ t) (entries-append xs ys)

pub length-entries : (xs : Cells) → length (entries xs) ≡ length xs
length-entries [] = refl
length-entries (x ∷ xs) = omega (arith, length-entries xs)

pub entries-kept : (bs : List Bool) (xs : Cells) → entries (kept bs xs) ≡ kept bs (entries xs)
unfolding kept
entries-kept [] xs = refl
entries-kept (b ∷ bs) [] = refl
entries-kept (true ∷ bs) (x ∷ xs) = entries-kept bs xs
entries-kept (false ∷ bs) (x ∷ xs) = ap (λ t. (x.content, x.info) ∷ t) (entries-kept bs xs)

pub contents-marked :
    (bs : List Bool) (xs : Cells)
    → contents_of (marked bs xs) ≡ map (λ (y : Entry). y.0) (marked bs (entries xs))
unfolding marked
contents-marked [] xs = refl
contents-marked (b ∷ bs) [] = refl
contents-marked (true ∷ bs) (x ∷ xs) = ap (λ t. x.content ∷ t) (contents-marked bs xs)
contents-marked (false ∷ bs) (x ∷ xs) = contents-marked bs xs

-- The marks are one for each message, as many as a quarter of the capacity.
abbrev pub AreMarks : List Bool → Cells → ℕ → Type 0
AreMarks flags xs capacity = (length flags ≡ length xs) × (marks flags ≡ capacity / 4)

pub length-contents_of : (xs : Cells) → length (contents_of xs) ≡ length xs
length-contents_of [] = refl
length-contents_of (x ∷ xs) = ap suc (length-contents_of xs)

-- The first places of the array after a sweep are the contents that it dropped.
pub take-reported :
    (d : Dropped) (mq : MessageQueue) (flags : List Bool) (xs : Cells)
    → AreMarks flags xs mq.capacity
    → mq.capacity / 4 ≤ length d.contents
    → take (mq.capacity / 4) (reported d mq flags xs).contents ≡ contents_of (marked flags xs)
take-reported d mq flags xs (one_each, quarter) room =
    let vs : List Content = contents_of (marked flags xs) in
    let size : 0 + length vs ≡ mq.capacity / 4 =
      omega (arith, length-contents_of (marked flags xs), length-marked {0} flags xs one_each) in
    subst (λ n. take n (reported d mq flags xs).contents ≡ vs) size
      (take-write_from d.contents 0 vs (omega arith))

pub length-reported :
    (flags : List Bool) (xs : Cells) (capacity : ℕ)
    → AreMarks flags xs capacity
    → capacity / 4 ≡ length (map (λ (y : Entry). y.0) (marked flags (entries xs)))
length-reported flags xs capacity (one_each, quarter) = omega (
  arith,
  ap length (contents-marked flags xs),
  length-contents_of (marked flags xs),
  length-marked flags xs one_each,
)

pub put_full-small :
    (capacity : ℕ) (flags : List Bool) (x : Entry) (ys : List Entry)
    → capacity < 4
    → put_full capacity flags x drop_random ys ≡ sleeps insert
unfolding put_full
put_full-small capacity flags x ys small = ground arith

pub put_full-large :
    (capacity : ℕ) (flags : List Bool) (x : Entry) (ys : List Entry)
    → 4 ≤ capacity
    → put_full capacity flags x drop_random ys
      ≡ answers drop (kept flags ys ++ (x ∷ [])) (map (λ (y : Entry). y.0) (marked flags ys))
unfolding put_full
put_full-large capacity flags x ys large = ground arith

pub take-set_first : (a : List Content) (v : Content) → 0 < length a → take 1 (set a 0 v) ≡ v ∷ []
take-set_first [] v lt = absurd (omega arith)
take-set_first (x ∷ a) v lt = refl

-- What the caller provides: no count yet, room in the array for what the policy can drop, and, for
-- `random`, memory and enough results of `rand()`.
pub record Provides (mq : MessageQueue) (s : Supply) (d : Dropped) : Type 0 where
  pub none_yet : d.amount ≡ 0
  pub one : mq.sched_policy ≢ drop_random → 0 < length d.contents
  pub quarter : mq.sched_policy ≡ drop_random → mq.capacity / 4 ≤ length d.contents
  pub memory : mq.sched_policy ≡ drop_random → s.indexes ≡ true
  pub draws :
      mq.sched_policy ≡ drop_random → (i : ℕ) → i < mq.capacity → Appears mq.capacity i s.draws

-- The turn meets the specification for some marks, which are those of a sweep if there is one.
abbrev pub Refines : MessageQueue → Cells → Cell → Heap → PutTurn → Heap → Type 0
Refines mq xs c h turn g =
    (flags : List Bool) × (mq.sched_policy ≡ drop_random
      → 4 ≤ mq.capacity
      → length xs ≡ mq.capacity
      → AreMarks flags xs mq.capacity)
    × Meets (put mq.capacity flags (c.content, c.info) mq.sched_policy (entries xs)) mq xs c h turn
        g

module _ (capacity : ℕ) (flags : List Bool) (x : Entry) (policy : SchedPolicy) (xs : Cells) where
  pub put-room :
      length xs ≢ capacity
      → put capacity flags x policy (entries xs) ≡ answers success (entries xs ++ (x ∷ [])) []
  unfolding put
  put-room ne = rw (length-entries xs, eq_false ne)

  pub put-put_full :
      length xs ≡ capacity
      → put capacity flags x policy (entries xs) ≡ put_full capacity flags x policy (entries xs)
  unfolding put
  put-put_full full = rw (length-entries xs, eq_true full)
