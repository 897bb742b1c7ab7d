-- ===== src/Server/Threads/Awake.antt =====
-- Wake-ups among the threads of HW3/server.c.
use mathlib.Core.Path.{subst}
use operating_system_whw.Common.{
  ℕ, ◌+◌, ◌≤◌, ◌<◌, ◌≡◌, ◌≢◌, ◌⊎◌, inl, inr, refl, sym, ap, ◌∙◌, none, some, ◌∷◌, arith,
}
use operating_system_whw.Heap.{ok, Content, TimeVal, Ptr, Heap}
use operating_system_whw.Heap.Cells.{Cell, Cells}
use operating_system_whw.Heap.Ends.{Ends, Ends-ok}
use operating_system_whw.MessageQueue.Types.{
  SchedPolicy, invalid, drop_random, MessageQueue, signal, success,
}
use operating_system_whw.MessageQueue.Put.{waits, returned, refused}
use operating_system_whw.MessageQueue.Calm.{Awake, Calm}
use operating_system_whw.Server.Accept.{AcceptTurn, no_meta_data, finished, asleep}
use operating_system_whw.Server.Accept.After.{Handled, Sleeping}
use operating_system_whw.Server.Accept.Arrive.{cell_of}
use operating_system_whw.Server.Accept.Calm.{Told, accept_round-Told, accept_wake-Told}
use operating_system_whw.Server.Worker.{WorkerTurn, served, ended}
use operating_system_whw.Server.Worker.Calm.{Worked, worker_round-Worked}
use operating_system_whw.Server.Threads.{
  worker_round, Request, Worker, Hand, ready, holding, Threads, settle, serve, wake_put, wake_get,
  Step, accepts, wakes, works, resumes, serves, WorkerStep, Reach, here, then_step,
}
use operating_system_whw.Server.Threads.Sound.{IsSound, wake_put-IsSound}
use operating_system_whw.Server.Threads.Accepts.{wakes-Handled}
use operating_system_whw.Server.Threads.Runs.{started, Reach-IsSound}

-- The accept loop does not sleep, or it does at a full queue, or it was woken.
abbrev pub Hears : MessageQueue → Hand → Type 0
Hears mq ready = (mq.cond_get.waiting ≡ 0) × (mq.cond_get.woken ≡ 0)
Hears mq (holding c p resume d) =
    (mq.cond_get.waiting + mq.cond_get.woken ≡ 1)
    × ((mq.size ≡ mq.capacity) ⊎ (mq.cond_get.woken ≡ 1))

abbrev pub IsAwake : Threads → Type 0
IsAwake t = Awake t.queue × Hears t.queue t.hand

-- The turn leaves the threads in a new state.
Settled : AcceptTurn → Type 0
Settled (finished (some closed) mq d) = Unit {0}
Settled (asleep p (waits resume new_node result mq d)) = Unit {0}
Settled _ = ⊥

otherwise : {A : Type 0} → ⊥ ⊎ A → A
otherwise (inl never) = absurd never
otherwise (inr a) = a

-- The accept loop ends a turn with a queue in which nobody sleeps in `MQPut`, or only itself.
settle-IsAwake :
    (c : Cell) (turn : AcceptTurn) (g : Heap) (t : Threads)
    → Settled turn ⊎ IsAwake t
    → Told turn
    → IsAwake (settle c turn g t)
unfolding settle Settled
settle-IsAwake c no_meta_data g t stays told = otherwise stays
settle-IsAwake c (finished none mq d) g t stays told = otherwise stays
settle-IsAwake c (finished (some closed) mq d) g t stays told = told
settle-IsAwake c (asleep p (refused code)) g t stays told = otherwise stays
settle-IsAwake c (asleep p (returned code mq d)) g t stays told = otherwise stays
settle-IsAwake c (asleep p (waits resume new_node result mq d)) g t stays told =
    let (awake, sleeps, none_woken, full) = told in
    (awake, (omega (arith, sleeps, none_woken), inl full))

-- A sleep that ends in order settles its connection.
Handled-Settled :
    {mq : MessageQueue} {xs : Cells} {c : Cell} {p : Ptr} {turn : AcceptTurn} {g : Heap}
    → Sleeping mq xs c p turn g ⊎ Handled mq xs c p turn g
    → Settled turn
unfolding Settled
Handled-Settled (inl sl) = subst Settled (sym (sl.answer ∙ ap (asleep _) sl.slept.answer)) tt
Handled-Settled (inr hd) = subst Settled (sym hd.answer) tt

-- A worker's turn, of which the loop hears.
serve-Hears :
    (before after : MessageQueue) (hand : Hand)
    → Hears before hand
    → after.cond_get ≡ signal before.cond_get
    → Hears after hand
serve-Hears before after ready hears e = rw e (ground (arith, hears))
serve-Hears before after (holding c p resume d) hears e = rw e (ground (arith, hears))

same-Hears :
    (before after : MessageQueue) (hand : Hand)
    → Hears before hand
    → after.cond_get ≡ before.cond_get
    → after.size ≡ before.size
    → after.capacity ≡ before.capacity
    → Hears after hand
same-Hears before after ready hears e size capacity = rw e hears
same-Hears before after (holding c p resume d) hears e size capacity = rw (e, size, capacity) hears

serve-IsAwake :
    (turn : WorkerTurn) (g : Heap) (t : Threads)
    → Hears t.queue t.hand
    → Worked t.queue turn
    → IsAwake (serve turn g t)
unfolding serve
serve-IsAwake (WorkerTurn.asleep after) g t hears (awake, told, size, capacity) =
    (awake, same-Hears t.queue after t.hand hears told size capacity)
serve-IsAwake (WorkerTurn.busy content after) g t hears (awake, told) =
    (awake, serve-Hears t.queue after t.hand hears told)
serve-IsAwake (served w acts after) g t hears (awake, told) =
    (awake, serve-Hears t.queue after t.hand hears told)
serve-IsAwake ended g t hears worked = absurd worked

-- A thread that was woken to put a message is alone at its condition variable.
wake_put-Calm :
    (t : Threads)
    → Awake t.queue
    → t.queue.cond_get.waiting + t.queue.cond_get.woken ≡ 1
    → 0 < t.queue.cond_get.woken
    → Calm (wake_put t).queue
wake_put-Calm t awake one woken = (awake, (omega (arith, one, woken), omega (arith, one, woken)))

works-Worked :
    (t : Threads) (fuel : ℕ) (w : Worker) (now : TimeVal) (requests : Content → Request)
    (fresh : Ptr) {turn : WorkerTurn} {g : Heap}
    → Awake t.queue
    → worker_round fuel w now requests fresh t.queue t.heap ≡ ok turn g
    → Worked t.queue turn
works-Worked t fuel w now requests fresh awake run = Ends-ok (
    subst (Ends (Worked t.queue)) run
      (worker_round-Worked fuel w now requests t.queue fresh t.heap (ground (arith, awake))))

resumes-Worked :
    (t : Threads) (fuel : ℕ) (w : Worker) (now : TimeVal) (requests : Content → Request)
    (fresh : Ptr) {turn : WorkerTurn} {g : Heap}
    → Awake t.queue
    → 0 < t.queue.cond_put.woken
    → worker_round fuel w now requests fresh (wake_get t).queue t.heap ≡ ok turn g
    → Worked (wake_get t).queue turn
resumes-Worked t fuel w now requests fresh awake woken run = Ends-ok (
    subst (Ends (Worked (wake_get t).queue)) run (
      worker_round-Worked fuel w now requests (wake_get t).queue fresh t.heap
        (ground (arith, awake, woken))))

pub worker-IsAwake : {workers : ℕ} {t u : Threads} → WorkerStep workers t u → IsAwake t → IsAwake u
worker-IsAwake {t = t} (works fuel w now requests fresh turn g idle ne unused run e) awake =
    subst IsAwake (sym e)
      (serve-IsAwake turn g t awake.1 (works-Worked t fuel w now requests fresh awake.0 run))
worker-IsAwake {t = t} (resumes fuel w now requests fresh turn g woken ne unused run e) awake =
    let after : Threads = wake_get t in
    subst IsAwake (sym e) (
      serve-IsAwake turn g after (same-Hears t.queue after.queue t.hand awake.1 refl refl refl)
        (resumes-Worked t fuel w now requests fresh awake.0 woken run))

Step-IsAwake : {workers : ℕ} {t u : Threads} → Step workers t u → IsSound t → IsAwake t → IsAwake u
Step-IsAwake {t = t} (accepts a contents turn g free fresh given run e) sound awake =
    let told =
      accept_round-Told a t.queue contents t.heap (awake.0, subst (Hears t.queue) free awake.1) in
    subst IsAwake (sym e) (
      settle-IsAwake (cell_of a) turn g (record t { arrived = a.conn_fd ∷ t.arrived }) (inr awake)
        (Ends-ok (subst (Ends Told) run told)))
Step-IsAwake {t = t} (wakes s c p resume d turn g hand woken given run e) sound awake =
    let calm = wake_put-Calm t awake.0 (subst (Hears t.queue) hand awake.1).0 woken in
    let told = accept_wake-Told s p resume c.node_at success (wake_put t).queue d t.heap calm in
    let settled =
      Handled-Settled (
        wakes-Handled (wake_put t) s c p resume d turn g (wake_put-IsSound sound) hand given run) in
    subst IsAwake (sym e)
      (settle-IsAwake c turn g (wake_put t) (inl settled) (Ends-ok (subst (Ends Told) run told)))
Step-IsAwake (serves step) sound awake = worker-IsAwake step awake

module _ (h : Heap) (capacity : ℕ) (policy : SchedPolicy) (positive : 0 < capacity)
    (known : policy ≢ invalid) (sweeps : policy ≡ drop_random → 4 ≤ capacity) where
  -- No wake-up is lost. In every order of turns of the accept loop and the workers, from a new queue
  -- of a capacity other than 0, and of at least 4 under `random`, where allocations succeed at
  -- unused addresses, the accept loop has what the policy needs, and threads come back from a wait
  -- only after a signal: no worker sleeps, or at least as many workers are woken and yet to run as
  -- there are messages; and the accept loop sleeps only at a full queue, unless it has been woken.
  pub Reach-IsAwake :
      {workers : ℕ} {u : Threads} → Reach workers (started h capacity policy) u → IsAwake u
  Reach-IsAwake here = (inl refl, (refl, refl))
  Reach-IsAwake (then_step before step) =
      Step-IsAwake step (Reach-IsSound h capacity policy positive known sweeps before)
        (Reach-IsAwake before)
