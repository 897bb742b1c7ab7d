-- ===== src/Server/Threads.antt =====
-- HW3/server.c: the thread of the accept loop and the workers together. A step is a round, or the
-- part of a round up to or after a sleep in `MQPut`: each holds the mutex from its first access to
-- the queue to its last.
pub mod Sound
pub mod Accepts
pub mod Works
pub mod Runs
pub mod Awake
pub mod Drain
mod Tests
use operating_system_whw.Common.{
  ◌+◌, length, ℕ, ◌≡◌, ◌≢◌, ◌<◌, Option, none, some, List, [], ◌∷◌, ◌++◌,
}
use operating_system_whw.Heap.{Ptr, null, TimeVal, Content, Heap, ok}
use operating_system_whw.Heap.Cells.{Cell}
use operating_system_whw.MessageQueue.Types.{RetCode, success, MessageQueue, wake}
use operating_system_whw.MessageQueue.Drop.{Dropped}
use operating_system_whw.MessageQueue.Put.{Supply, Resume, PutTurn, waits}
use operating_system_whw.MessageQueue.Put.Meets.{Provides}
use operating_system_whw.Request.{Request}
use operating_system_whw.Server.Accept.{
  Arrival, AcceptTurn, finished, asleep, accept_round, accept_wake,
}
use operating_system_whw.Server.Accept.Arrive.{Fresh, cell_of}
use operating_system_whw.Server.Worker.{
  Worker, WorkerAct, sends, closes, WorkerTurn, served, ended, worker_round,
}

-- The accept loop is between two rounds, or it sleeps with a message in hand: its node's cell, its
-- address, where the call goes on, and the array.
pub data Hand : Type 0 where
  ready : Hand
  holding : Cell → Ptr → Resume → Dropped → Hand

-- What the threads share, what the accept loop holds, and the connections that were accepted, that
-- the accept loop closed, that workers handled and closed, and with which workers are busy, each of
-- them with one.
pub record Threads : Type 0 where
  pub heap : Heap
  pub queue : MessageQueue
  pub hand : Hand
  pub arrived : List Content
  pub closed : List Content
  pub handled : List Content
  pub busy : List Content

-- After a turn of the accept loop with the connection of `c`.
unfoldable pub settle : Cell → AcceptTurn → Heap → Threads → Threads
settle c (finished (some closed) queue out) g t = record t {
  heap = g;
  queue = queue;
  hand = ready;
  closed = closed ++ t.closed;
}
settle c (asleep p (waits resume new_node result queue d)) g t = record t {
  heap = g;
  queue = queue;
  hand = holding c p resume d;
}
settle c _ g t = t

-- The connections that a worker closed.
abbrev pub closed_by : List WorkerAct → List Content
closed_by [] = []
closed_by (sends fd response ∷ acts) = closed_by acts
closed_by (closes fd ∷ acts) = fd ∷ closed_by acts

-- After a turn of a worker.
unfoldable pub serve : WorkerTurn → Heap → Threads → Threads
serve (served w acts queue) g t = record t {
  heap = g;
  queue = queue;
  handled = closed_by acts ++ t.handled;
}
serve (WorkerTurn.busy content queue) g t = record t {
  heap = g;
  queue = queue;
  busy = content ∷ t.busy;
}
serve (WorkerTurn.asleep queue) g t = record t { heap = g; queue = queue }
serve ended g t = t

-- A thread that was woken in `MQPut` goes on.
abbrev pub wake_put : Threads → Threads
wake_put t = record t { queue = record t.queue { cond_get = wake t.queue.cond_get } }

-- A thread that was woken in `MQGet` goes on.
abbrev pub wake_get : Threads → Threads
wake_get t = record t { queue = record t.queue { cond_put = wake t.queue.cond_put } }

-- The workers that are neither in `MQGet` nor busy.
abbrev pub HasIdle : (workers : ℕ) → Threads → Type 0
HasIdle workers t = t.queue.cond_put.waiting + t.queue.cond_put.woken + length t.busy < workers

-- One turn of one of the workers of the pool: a round from its start, by a worker that is neither in
-- `MQGet` nor busy, or the rest of a round that slept, after a signal. The copy of the message gets an
-- address that is not in use. A worker whose request is not answered after `fuel` tests is busy from
-- then on.
pub data WorkerStep (workers : ℕ) (t u : Threads) : Type 0 where
  works :
      (fuel : ℕ) (w : Worker) (now : TimeVal) (requests : Content → Request) (fresh : Ptr)
      (turn : WorkerTurn) (g : Heap)
      → HasIdle workers t
      → fresh ≢ null
      → t.heap fresh ≡ none
      → worker_round fuel w now requests fresh t.queue t.heap ≡ ok turn g
      → u ≡ serve turn g t
      → WorkerStep workers t u
  resumes :
      (fuel : ℕ) (w : Worker) (now : TimeVal) (requests : Content → Request) (fresh : Ptr)
      (turn : WorkerTurn) (g : Heap)
      → 0 < t.queue.cond_put.woken
      → fresh ≢ null
      → t.heap fresh ≡ none
      → worker_round fuel w now requests fresh (wake_get t).queue t.heap ≡ ok turn g
      → u ≡ serve turn g (wake_get t)
      → WorkerStep workers t u

-- What the workers alone come to from `t`.
pub data WorkersReach (workers : ℕ) (t : Threads) : Threads → Type 0 where
  at_once : WorkersReach workers t t
  after_turn :
      {u v : Threads} → WorkersReach workers t u → WorkerStep workers u v → WorkersReach workers t v

-- One turn of one thread: of a worker, or of the accept loop, a round from its start or the rest of a
-- round that slept, after a signal. Its allocations succeed at addresses that are not in use, and it
-- has what the policy needs.
pub data Step (workers : ℕ) (t u : Threads) : Type 0 where
  accepts :
      (a : Arrival) (contents : List Content) (turn : AcceptTurn) (g : Heap)
      → t.hand ≡ ready
      → Fresh t.heap a
      → Provides t.queue a.put (record { contents = contents; amount = 0 })
      → accept_round a t.queue contents t.heap ≡ ok turn g
      → u ≡ settle (cell_of a) turn g (record t { arrived = a.conn_fd ∷ t.arrived })
      → Step workers t u
  wakes :
      (s : Supply) (c : Cell) (p : Ptr) (resume : Resume) (d : Dropped) (turn : AcceptTurn)
      (g : Heap)
      → t.hand ≡ holding c p resume d
      → 0 < t.queue.cond_get.woken
      → Provides (wake_put t).queue s d
      → accept_wake s p resume c.node_at success (wake_put t).queue d t.heap ≡ ok turn g
      → u ≡ settle c turn g (wake_put t)
      → Step workers t u
  serves : WorkerStep workers t u → Step workers t u

-- What comes after `t`, with a pool of `workers`.
pub data Reach (workers : ℕ) (t : Threads) : Threads → Type 0 where
  here : Reach workers t t
  then_step : {u v : Threads} → Reach workers t u → Step workers u v → Reach workers t v
