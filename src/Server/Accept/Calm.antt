-- ===== src/Server/Accept/Calm.antt =====
-- What a round of the accept loop of HW3/server.c leaves of the condition variables.
use operating_system_whw.Common.{Bool-cases, inl, inr, ◌==◌, List}
use operating_system_whw.Heap.{null, Ptr, Content, Heap}
use operating_system_whw.Heap.Ends.{Ends, ended, chain, skip}
use operating_system_whw.Message.{message_create, message_free, build_message_meta_data}
use operating_system_whw.MessageQueue.Types.{RetCode, MessageQueue}
use operating_system_whw.MessageQueue.Drop.{Dropped}
use operating_system_whw.MessageQueue.Put.{Supply, Resume, PutTurn, refused, waits, returned}
use operating_system_whw.MessageQueue.Calm.{Calm}
use operating_system_whw.MessageQueue.Calm.Puts.{Turned, mq_put-Turned, mq_put_resume-Turned}
use operating_system_whw.Server.Accept.{
  Arrival, AcceptTurn, no_meta_data, asleep, finished, close_dropped, accept_after, set_arrival,
  accept_round, accept_wake,
}

-- The loop sleeps only at a full queue, and no worker is forgotten.
abbrev pub Told : AcceptTurn → Type 0
Told no_meta_data = Unit {0}
Told (asleep message turn) = Turned turn
Told (finished closed mq d) = Calm mq

after-Told :
    (message : Ptr) (mq : MessageQueue) (d : Dropped) (turn : PutTurn) (h : Heap)
    → Calm mq
    → Turned turn
    → Ends Told (accept_after message mq d turn h)
unfolding accept_after
after-Told message mq d (waits resume new_node result mq' d') h calm done = ended done
after-Told message mq d (refused code) h calm done =
    skip (message_free message h) (λ u h1. skip (close_dropped code d h1) (λ closed h2. ended calm))
after-Told message mq d (returned code mq' d') h calm done =
    skip (message_free message h)
      (λ u h1. skip (close_dropped code d' h1) (λ closed h2. ended done))

pub accept_round-Told :
    (a : Arrival) (mq : MessageQueue) (contents : List Content) (h : Heap)
    → Calm mq
    → Ends Told (accept_round a mq contents h)
unfolding accept_round
accept_round-Told a mq contents h calm =
    let empty : Dropped = record { contents = contents; amount = 0 } in
    skip (build_message_meta_data a.meta a.garbage h) (λ meta h1. elim (Bool-cases (meta == null)) [
      | inl e ↦ rw e (ended _)
      | inr e ↦ rw e (
          skip (set_arrival meta a.now h1) (λ u h2.
            skip (message_create a.message a.conn_fd meta h2) (λ message h3.
              chain (mq_put-Turned a.put mq message empty h3 calm)
                (λ turn done h4. after-Told message mq empty turn h4 calm done))))
    ])

pub accept_wake-Told :
    (s : Supply) (message : Ptr) (resume : Resume) (new_node : Ptr) (result : RetCode)
    (mq : MessageQueue) (d : Dropped) (h : Heap)
    → Calm mq
    → Ends Told (accept_wake s message resume new_node result mq d h)
unfolding accept_wake
accept_wake-Told s message resume new_node result mq d h calm =
    chain (mq_put_resume-Turned s resume new_node result mq d h calm)
      (λ turn done h1. after-Told message mq d turn h1 calm done)
