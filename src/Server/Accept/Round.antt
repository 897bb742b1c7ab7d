-- ===== src/Server/Accept/Round.antt =====
-- A whole round of the accept loop, from its start or from a wake-up.
use operating_system_whw.Common.{◌<◌, ◌⊎◌, inl, inr, ◌∙◌, List, ◌∷◌, arith}
use operating_system_whw.Heap.{Ptr, Content, Heap}
use operating_system_whw.Heap.Returns
use operating_system_whw.Heap.Returns.{Returns, returns}
use operating_system_whw.Heap.Cells.{Cell, Cells, not-mem_of_none}
use operating_system_whw.MessageQueue.Types.{success, MessageQueue}
use operating_system_whw.MessageQueue.Holds.{IsQueue, IsBounded}
use operating_system_whw.MessageQueue.Drop.{Dropped}
use operating_system_whw.Heap.Cells.{◌∉◌}
use operating_system_whw.MessageQueue.Put.{Supply, PutTurn}
use operating_system_whw.MessageQueue.Put.Outcome.{Answered, Slept, mq_put-outcome}
use operating_system_whw.MessageQueue.Put.Meets.{Provides}
use operating_system_whw.MessageQueue.Put.Prepare.{prepared, prepared-same}
use operating_system_whw.Server.Accept.{Arrival, accept_after, accept_round}
use operating_system_whw.Server.Accept.{accept_wake, accept_round, accept_after}
use operating_system_whw.MessageQueue.Put.Policies.{Pending}
use operating_system_whw.MessageQueue.Put.{recheck}
use operating_system_whw.MessageQueue.Put.Wake.{mq_put_resume-Refines}
use operating_system_whw.MessageQueue.Put.Outcome.{Refines-outcome}
use operating_system_whw.Server.Accept.After.{
  MessageOf, Handled, Sleeping, after-Answered, after-Slept,
}
use operating_system_whw.Server.Accept.Arrive.{
  Fresh, with_message, cell_of, accept_round-put, with_message-IsMessage, with_message-Allocates,
  with_message-IsQueue,
}

module _ {h : Heap} (xs : Cells) (c : Cell) (p : Ptr) (live : MessageOf h p c) (out : p ∉ (c ∷ xs))
    (mq : MessageQueue) (d : Dropped) where
  -- What follows a turn of `MQPut` with one of its outcomes.
  after-outcome :
      {turn : PutTurn} {g : Heap}
      → Slept mq xs c h turn g ⊎ Answered mq xs c h turn g
      → Returns (λ t k. Sleeping mq xs c p t k ⊎ Handled mq xs c p t k) (accept_after p mq d turn g)
  after-outcome (inl s) = Returns.mono (after-Slept xs c p live out mq d s) λ t k w. inl w
  after-outcome (inr a) = Returns.mono (after-Answered xs c p live out mq d a) λ t k w. inr w

  -- A round that slept in `MQPut` and wakes at the test of its loop, with its node and its message in
  -- hand, at a queue of a capacity other than 0 and with what the policy needs: it sleeps again with
  -- the queue as it found it, or each connection is then in the queue or was closed, as often as it
  -- was in the queue or is that of the message. Then the message is given back, the queue is in order
  -- and within its capacity, and the mutex is free.
  pub accept_wake-Handled :
      (s : Supply)
      → Pending h mq xs c
      → IsBounded mq
      → 0 < mq.capacity
      → Provides mq s d
      → Returns
          (λ turn g. Sleeping mq xs c p turn g ⊎ Handled mq xs c p turn g)
          (accept_wake s p recheck c.node_at success mq d h)
  unfolding accept_wake
  accept_wake-Handled s waiting b pos given =
      Returns.bind (mq_put_resume-Refines s d waiting b pos given)
        λ turn g r. after-outcome (Refines-outcome xs c b h h waiting.queue pos r)

module _ {h : Heap} (a : Arrival) (fresh : Fresh h a) (mq : MessageQueue) where
  -- A round of the accept loop with memory for its allocations, at a queue of a capacity other than
  -- 0 and with the array that the policy needs, loses no connection: it sleeps in `MQPut` with its
  -- message in hand and the queue as it was, or each connection is then in the queue or was closed,
  -- as often as it was in the queue or is the new one. Then the message of the round is given back,
  -- the queue is in order and within its capacity, and the mutex is free.
  pub accept_round-Handled :
      {xs : Cells} (contents : List Content)
      → IsQueue h mq xs
      → IsBounded mq
      → 0 < mq.capacity
      → Provides mq a.put (record { contents = contents; amount = 0 })
      → Returns
          (λ turn g.
            Sleeping mq xs (cell_of a) a.message turn g
            ⊎ Handled mq xs (cell_of a) a.message turn g)
          (accept_round a mq contents h)
  accept_round-Handled {xs} contents is b pos given =
      let d : Dropped = record { contents = contents; amount = 0 } in
      let c : Cell = cell_of a in
      let h' : Heap = with_message h a in
      let msg = with_message-IsMessage a fresh mq in
      let mem = with_message-Allocates a fresh mq in
      let live : MessageOf (prepared h' c) a.message c = record {
        ne_null = fresh.message_ne;
        holds =
            prepared-same a.put msg mem a.message fresh.message_node fresh.message_copy
            ∙ msg.message_live.holds;
      } in
      let out : a.message ∉ (c ∷ xs) = ground (
        arith,
        not-mem_of_none a.message is.chain fresh.message_free,
        fresh.message_node,
        fresh.message_copy,
        fresh.meta_message,
      ) in
      rw (accept_round-put a fresh mq contents) (
        Returns.bind
          (mq_put-outcome a.put d (with_message-IsQueue a fresh mq is) b pos msg
            (not-mem_of_none a.meta is.chain fresh.meta_free) mem given)
          λ turn g r. after-outcome xs c a.message live out mq d r)
