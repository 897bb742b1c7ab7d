-- ===== src/Server/Accept/After.antt =====
-- What a round of the accept loop does after `MQPut`.
use operating_system_whw.Common.{◌+◌, ◌≡◌, refl, ap, ◌∙◌, false, none, some, List, [], ◌∷◌, arith}
use operating_system_whw.Heap.{Ptr, Content, message, Heap, write}
use operating_system_whw.Heap.Returns.{Returns, returns}
use operating_system_whw.Heap.Points.{Points, free-ok}
use operating_system_whw.Heap.Cells.{Cell, Cells, Seg-write}
use operating_system_whw.MessageQueue.Types.{success, MessageQueue}
use operating_system_whw.MessageQueue.Holds.{IsQueue, IsBounded}
use operating_system_whw.MessageQueue.Drop.{Dropped}
use operating_system_whw.MessageQueue.Spec.Keeps.{count}
use operating_system_whw.MessageQueue.Drop.Single.{message_free-ok}
use operating_system_whw.Heap.Cells.{◌∉◌}
use operating_system_whw.MessageQueue.Drop.Marks.{contents_of}
use operating_system_whw.MessageQueue.Put.{waits, PutTurn}
use operating_system_whw.MessageQueue.Put.Outcome.{Answered, Slept}
use operating_system_whw.Server.Accept.{AcceptTurn, finished, asleep, accept_after}
use operating_system_whw.Server.Accept.Close.{close_dropped-ok}

-- The message of a round at `p`, whose connection is that of `c`.
abbrev pub MessageOf : Heap → Ptr → Cell → Type 0
MessageOf h p c = Points h p (message (record { content = c.content; meta_data = c.meta_at }))

-- The round is over: every connection that was in the queue or is the new one is in the queue or was
-- closed, each as often as before; the message of the round is given back, and the queue is as every
-- operation needs it.
pub record Handled (mq : MessageQueue) (xs : Cells) (c : Cell) (p : Ptr) (turn : AcceptTurn)
    (g : Heap) : Type 0 where
  pub closed : List Content
  pub queue : MessageQueue
  pub out : Dropped
  pub cells : Cells
  pub answer : turn ≡ finished (some closed) queue out
  pub holds : IsQueue g queue cells
  pub conserved :
      (v : Content)
      → count v (contents_of cells) + count v closed
        ≡ count v (contents_of xs) + count v (c.content ∷ [])
  pub bounded : IsBounded queue
  pub capacity : queue.capacity ≡ mq.capacity
  pub policy : queue.sched_policy ≡ mq.sched_policy
  pub unlocked : queue.locked ≡ false
  pub given_back : g p ≡ none

-- The round sleeps in `MQPut` with its message in hand, and the queue holds what it held.
pub record Sleeping (mq : MessageQueue) (xs : Cells) (c : Cell) (p : Ptr) (turn : AcceptTurn)
    (g : Heap) : Type 0 where
  pub inner : PutTurn
  pub answer : turn ≡ asleep p inner
  pub slept : Slept mq xs c g inner g
  pub live : MessageOf g p c

module _ {h : Heap} (xs : Cells) (c : Cell) (p : Ptr) (live : MessageOf h p c) (out : p ∉ (c ∷ xs))
    (mq : MessageQueue) (d : Dropped) where
  pub after-Answered :
      {turn : PutTurn} {g : Heap}
      → Answered mq xs c h turn g
      → Returns (Handled mq xs c p) (accept_after p mq d turn g)
  unfolding accept_after write
  after-Answered {turn} {g} a =
      let here : MessageOf g p c = record {
        ne_null = live.ne_null;
        holds = a.same p out ∙ live.holds;
      } in
      rw
        (
          a.answer,
          accept_after,
          message_free-ok p g live.ne_null,
          free-ok here,
          close_dropped-ok a.code a.out a.dropped (write g p none) a.shown a.amount a.coded,
        )
        (returns (record {
          closed = a.dropped;
          queue = a.queue;
          out = a.out;
          cells = a.cells;
          answer = refl;
          holds = record {
            chain = Seg-write p none a.holds.chain (a.within p out);
            count = a.holds.count;
            tail_last = a.holds.tail_last;
          };
          conserved = a.conserved;
          bounded = a.bounded;
          capacity = a.capacity;
          policy = a.policy;
          unlocked = a.unlocked;
          given_back = ground arith;
        }))

  pub after-Slept :
      {turn : PutTurn} {g : Heap}
      → Slept mq xs c h turn g
      → Returns (Sleeping mq xs c p) (accept_after p mq d turn g)
  unfolding accept_after
  after-Slept {turn} {g} s =
      let here : MessageOf g p c = record {
        ne_null = live.ne_null;
        holds = ap (λ k. k p) s.same ∙ live.holds;
      } in
      rw (s.answer, accept_after)
        (returns (record {
          inner = waits s.resume c.node_at success s.queue s.out;
          answer = refl;
          slept = record {
            resume = s.resume;
            queue = s.queue;
            out = s.out;
            answer = refl;
            pending = s.pending;
            bounded = s.bounded;
            tested = s.tested;
            capacity = s.capacity;
            policy = s.policy;
            unlocked = s.unlocked;
            same = refl;
          };
          live = here;
        }))
