-- ===== src/MessageQueue/Put/Outcome.antt =====
-- The outcomes of a turn of `MQPut`, as its caller sees them.
use operating_system_whw.Common.{
  List, ◌+◌, ◌/◌, ◌<◌, ◌≡◌, ◌⊎◌, inl, inr, refl, ap, ◌∙◌, sym, false, some, [], ◌∷◌, arith, length,
  take,
}
use operating_system_whw.Heap.{Ptr, Content, MetaData, Heap}
use operating_system_whw.Heap.Returns
use operating_system_whw.Heap.Returns.{Returns}
use operating_system_whw.Heap.Cells.{SameOutside, Cell, Cells, ◌∉◌}
use operating_system_whw.MessageQueue.Types.{drop, RetCode, success, MessageQueue}
use operating_system_whw.MessageQueue.Holds.{IsQueue, IsBounded}
use operating_system_whw.MessageQueue.Drop.{Dropped}
use operating_system_whw.MessageQueue.Drop.Marks.{contents_of}
use operating_system_whw.MessageQueue.Spec.{entries, Answer, sleeps, answers}
use operating_system_whw.MessageQueue.Spec.Tested.{Tested, put-Tested}
use operating_system_whw.MessageQueue.Put.{recheck}
use operating_system_whw.MessageQueue.Types.{drop_random}
use operating_system_whw.MessageQueue.Spec.Keeps.{
  Coded, put-Coded, count, contents, Conserves, put-Conserves, Fits, put-Fits,
}
use operating_system_whw.MessageQueue.Put.{Supply, Resume, returned, waits, PutTurn, mq_put}
use operating_system_whw.MessageQueue.Put.Prepare.{prepared, IsMessage, Allocates, new_cell}
use operating_system_whw.MessageQueue.Put.Policies.{Pending}
use operating_system_whw.MessageQueue.Put.Meets.{Covers, Refines, Meets, Provides, length-entries}
use operating_system_whw.MessageQueue.Put.Refine.{mq_put-Refines}

-- The call returned. Each content is in the queue or reported as dropped, as often as it was in the
-- queue or is that of the new message; what is dropped is reported with MQ_DROP.
pub record Answered (mq : MessageQueue) (xs : Cells) (c : Cell) (h : Heap) (turn : PutTurn)
    (g : Heap) : Type 0 where
  pub code : RetCode
  pub queue : MessageQueue
  pub out : Dropped
  pub cells : Cells
  pub dropped : List Content
  pub answer : turn ≡ returned code queue out
  pub holds : IsQueue g queue cells
  pub shown : take out.amount out.contents ≡ dropped
  pub amount : out.amount ≡ length dropped
  pub coded : (code ≡ drop) ⊎ ((code ≡ success) × (dropped ≡ []))
  pub conserved :
      (v : Content)
      → count v (contents_of cells) + count v dropped
        ≡ count v (contents_of xs) + count v (c.content ∷ [])
  pub bounded : IsBounded queue
  pub capacity : queue.capacity ≡ mq.capacity
  pub policy : queue.sched_policy ≡ mq.sched_policy
  pub unlocked : queue.locked ≡ false
  pub within : Covers (c ∷ xs) cells
  pub same : SameOutside (c ∷ xs) h g

-- The call sleeps with its node in hand, and the queue holds what it held.
pub record Slept (mq : MessageQueue) (xs : Cells) (c : Cell) (h : Heap) (turn : PutTurn) (g : Heap)
    : Type 0 where
  pub resume : Resume
  pub queue : MessageQueue
  pub out : Dropped
  pub answer : turn ≡ waits resume c.node_at success queue out
  pub tested : (resume ≡ recheck) ⊎ ((mq.sched_policy ≡ drop_random) × (mq.capacity < 4))
  pub pending : Pending g queue xs c
  pub bounded : IsBounded queue
  pub capacity : queue.capacity ≡ mq.capacity
  pub policy : queue.sched_policy ≡ mq.sched_policy
  pub unlocked : queue.locked ≡ false
  pub same : g ≡ h

contents-entries : (xs : Cells) → contents (entries xs) ≡ contents_of xs
contents-entries [] = refl
contents-entries (x ∷ xs) = ap (λ t. x.content ∷ t) (contents-entries xs)

module _ {mq : MessageQueue} (xs : Cells) (c : Cell) (b : IsBounded mq) where
  outcome :
      (a : Answer) (h : Heap) {turn : PutTurn} {g : Heap}
      → Fits mq.capacity a
      → Conserves (entries xs) (c.content, c.info) a
      → Coded a
      → Tested mq.sched_policy mq.capacity a
      → Meets a mq xs c h turn g
      → Slept mq xs c h turn g ⊎ Answered mq xs c h turn g
  outcome (sleeps resume) h fits conserves coded tested (d, asleep) = inl (record {
    resume = resume;
    queue = asleep.queue;
    out = d;
    answer = asleep.answer;
    pending = asleep.pending;
    bounded =
        rw asleep.sleeping
          (record { within = b.within; quarter = b.quarter; has_policy = b.has_policy });
    tested = tested;
    capacity = rw asleep.sleeping refl;
    policy = rw asleep.sleeping refl;
    unlocked = rw asleep.sleeping;
    same = asleep.same;
  })
  outcome (answers code ys out) h fits conserves coded tested
        (q, d, cells, e, holds, same, shown, l, amount, left_in, same_outside) =
      inr (record {
        code = code;
        queue = q;
        out = d;
        cells = cells;
        answer = e;
        dropped = out;
        holds = holds;
        shown = shown;
        amount = amount;
        coded = coded;
        conserved = λ v. omega (
          arith,
          conserves v,
          ap (count v) (contents-entries cells),
          ap (λ zs. count v (contents zs)) same,
          ap (count v) (contents-entries xs),
        );
        bounded = record {
          within =
              omega (arith, holds.count, length-entries cells, ap length same, l.capacity, fits);
          quarter = l.quarter ∙ b.quarter ∙ ap (λ n. n / 4) (sym l.capacity);
          has_policy = λ e. b.has_policy (sym l.policy ∙ e);
        };
        capacity = l.capacity;
        policy = l.policy;
        unlocked = l.unlocked;
        within = left_in;
        same = same_outside;
      })

  pub Refines-outcome :
      (before h : Heap) {turn : PutTurn} {g : Heap}
      → IsQueue before mq xs
      → 0 < mq.capacity
      → Refines mq xs c h turn g
      → Slept mq xs c h turn g ⊎ Answered mq xs c h turn g
  Refines-outcome before h is pos (flags, sweep, meets) =
      outcome _ h
        (put-Fits mq.capacity flags (c.content, c.info) mq.sched_policy (entries xs)
          (omega (arith, is.count, length-entries xs, b.within)) pos
          λ full random large.
            let (one_each, quarter) = sweep random large (omega (arith, length-entries xs, full)) in
            (omega (arith, length-entries xs, one_each), quarter))
        (put-Conserves mq.capacity flags (c.content, c.info) mq.sched_policy (entries xs))
        (put-Coded mq.capacity flags (c.content, c.info) mq.sched_policy (entries xs))
        (put-Tested mq.capacity flags (c.content, c.info) mq.sched_policy (entries xs)) meets

-- `MQPut` of a live message, at a queue of a capacity other than 0 and with what the policy needs,
-- loses no connection: it sleeps with its node in hand and the heap and the messages as they were, or
-- each content is then in the queue or reported as dropped, as often as it was in the queue or is
-- that of the new message. Then it answers MQ_DROP, or MQ_SUCCESS with nothing dropped, the queue is
-- in order and within its capacity, and the mutex is free.
pub mq_put-outcome :
    {h : Heap} {mq : MessageQueue} {xs : Cells} {at meta : Ptr} {content : Content}
    {info : MetaData} (s : Supply) (d : Dropped)
    → IsQueue h mq xs
    → IsBounded mq
    → 0 < mq.capacity
    → IsMessage h at content meta info
    → meta ∉ xs
    → Allocates h s
    → Provides mq s d
    → let c = new_cell s content meta info in
      Returns
        (λ turn g. Slept mq xs c (prepared h c) turn g ⊎ Answered mq xs c (prepared h c) turn g)
        (mq_put s (some mq) at d h)
mq_put-outcome {h} {mq} {xs} {meta} {content} {info} s d is b pos msg out mem given =
    Returns.mono (mq_put-Refines s d is b pos msg out mem given) λ turn g r.
      Refines-outcome xs (new_cell s content meta info) b h
        (prepared h (new_cell s content meta info)) is pos r
