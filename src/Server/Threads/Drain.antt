-- ===== src/Server/Threads/Drain.antt =====
-- Runs in which only the workers of HW3/server.c take turns.
use operating_system_whw.Common.{
  ℕ, ◌+◌, ◌≤◌, ◌<◌, ◌≡◌, ◌≢◌, ◌⊎◌, inl, inr, refl, ap, ◌∙◌, none, List, [], ◌∷◌, length, arith,
  zero, suc,
}
use operating_system_whw.Heap.{Ptr, null, TimeVal, Content, Heap}
use operating_system_whw.Heap.Cells.{Cell, Cells}
use operating_system_whw.Heap.Returns
use operating_system_whw.MessageQueue.Types.{SchedPolicy, invalid, drop_random}
use operating_system_whw.MessageQueue.Holds.{IsQueue}
use operating_system_whw.MessageQueue.Drop.Marks.{contents_of}
use operating_system_whw.Request.{Request}
use operating_system_whw.Request.Ended.{HeadersEnd}
use operating_system_whw.Server.Worker.{Worker, WorkerTurn}
use operating_system_whw.Server.Worker.Serve.{Served, worker_round-Served}
use operating_system_whw.Server.Threads.{
  Threads, serve, wake_get, HasIdle, WorkerStep, works, resumes, WorkersReach, at_once, after_turn,
  Reach,
}
use operating_system_whw.Server.Threads.Runs.{started, Reach-IsSound}
use operating_system_whw.Server.Threads.Awake.{IsAwake, worker-IsAwake, Reach-IsAwake}

-- The handled connections, newest first, after more were handled in order.
abbrev pub handled_after : List Content → List Content → List Content
handled_after [] handled = handled
handled_after (v ∷ vs) handled = handled_after vs (v ∷ handled)

-- From `t` on the connections of `xs` were handled in order, nothing is in the queue, and no
-- connection was accepted or dropped, nor is a worker busy with one that was not before.
abbrev pub IsDrained : Threads → Cells → Threads → Type 0
IsDrained t xs u =
    (u.queue.size ≡ 0)
    × (u.handled ≡ handled_after (contents_of xs) t.handled)
    × (u.closed ≡ t.closed)
    × (u.arrived ≡ t.arrived)
    × (u.busy ≡ t.busy)

-- A worker took and served the first message.
After : (fresh : Ptr) → Threads → Cell → Cells → Threads → Type 0
After fresh t first rest u =
    IsQueue u.heap u.queue rest
    × (u.heap fresh ≡ none)
    × (u.handled ≡ first.content ∷ t.handled)
    × (u.closed ≡ t.closed)
    × (u.arrived ≡ t.arrived)
    × (u.busy ≡ t.busy)

wake_get-IsQueue :
    (t : Threads) (xs : Cells) → IsQueue t.heap t.queue xs → IsQueue t.heap (wake_get t).queue xs
wake_get-IsQueue t xs is = record { chain = is.chain; count = is.count; tail_last = is.tail_last }

-- Where a message waits and a worker is not busy, one is to go on: it was woken, or it is idle.
someone :
    (workers size busy : ℕ) (waiting woken : ℕ)
    → (waiting ≡ 0) ⊎ (size ≤ woken)
    → 0 < size
    → busy < workers
    → (0 < woken) ⊎ (waiting + woken + busy < workers)
someone workers size busy waiting zero awake some_wait room =
    inr (ground (arith, awake, some_wait, room))
someone workers size busy waiting (suc woken) awake some_wait room = inl (omega arith)

module _ (workers fuel : ℕ) (w : Worker) (now : TimeVal) (requests : Content → Request)
    (fresh : Ptr) (ne : fresh ≢ null) (ends : (v : Content) → HeadersEnd fuel (requests v)) where
  serve-After :
      (t : Threads) (first : Cell) (rest : Cells) (turn : WorkerTurn) (g : Heap)
      → Served w now requests fresh first rest t.queue t.heap turn g
      → After fresh t first rest (serve turn g t)
  unfolding serve After
  serve-After t first rest turn g s = rw s.answer (s.rest, s.copy_gone, refl, refl, refl, refl)

  -- One turn of a worker.
  turn-After :
      (t : Threads) (first : Cell) (rest : Cells)
      → IsQueue t.heap t.queue (first ∷ rest)
      → t.heap fresh ≡ none
      → (0 < t.queue.cond_put.woken) ⊎ HasIdle workers t
      → (u : Threads) × WorkerStep workers t u × After fresh t first rest u
  unfolding After
  turn-After t first rest is unused (inl woken) =
      let (turn, g, run, s) = Returns.inversion (
        worker_round-Served fuel w now requests fresh (wake_get-IsQueue t (first ∷ rest) is) unused
          (ends first.content) ne) in
      (
        serve turn g (wake_get t),
        resumes fuel w now requests fresh turn g woken ne unused run refl,
        serve-After (wake_get t) first rest turn g s,
      )
  turn-After t first rest is unused (inr idle) =
      let (turn, g, run, s) =
        Returns.inversion
          (worker_round-Served fuel w now requests fresh is unused (ends first.content) ne) in
      (
        serve turn g t,
        works fuel w now requests fresh turn g idle ne unused run refl,
        serve-After t first rest turn g s,
      )

  drain :
      (xs : Cells) {before t : Threads}
      → WorkersReach workers before t
      → IsQueue t.heap t.queue xs
      → IsAwake t
      → t.heap fresh ≡ none
      → length t.busy < workers
      → (u : Threads) × WorkersReach workers before u × IsDrained t xs u
  unfolding After
  drain [] {t = t} run is awake unused room = (t, run, (is.count, refl, refl, refl, refl))
  drain (first ∷ rest) {t = t} run is awake unused room =
      let next =
        someone workers t.queue.size (length t.busy) t.queue.cond_put.waiting t.queue.cond_put.woken
          awake.0 (omega (arith, is.count)) room in
      let (t', step, (queue, unused', handled, closed, arrived, busy)) =
        turn-After t first rest is unused next in
      let (u, run', (size, handled', closed', arrived', busy')) =
        drain rest (after_turn run step) queue (worker-IsAwake step awake) unused'
          (omega (arith, ap (λ (vs : List Content). length vs) busy, room)) in
      (
        u,
        run',
        (
          size,
          handled' ∙ ap (handled_after (contents_of rest)) handled,
          closed' ∙ closed,
          arrived' ∙ arrived,
          busy' ∙ busy,
        ),
      )

  module _ (h : Heap) (capacity : ℕ) (policy : SchedPolicy) (positive : 0 < capacity)
      (known : policy ≢ invalid) (sweeps : policy ≡ drop_random → 4 ≤ capacity) where
    -- Nothing waits in vain. In every state that the accept loop and the workers of a pool come to,
    -- where fewer workers are busy than the pool has, one address is free for the copies and the
    -- headers of every request end, turns of the pool's workers alone, each of a worker that is idle
    -- or was woken, lead on to an empty queue; the connections that were in the queue have then been
    -- handled and closed, the oldest first, and none was accepted or dropped meanwhile.
    pub Reach-IsDrained :
        {t : Threads} (run : Reach workers (started h capacity policy) t)
        → length t.busy < workers
        → t.heap fresh ≡ none
        → (xs : Cells) × IsQueue t.heap t.queue xs
          × (u : Threads) × WorkersReach workers t u
          × IsDrained t xs u
    Reach-IsDrained run room unused =
        let sound = Reach-IsSound h capacity policy positive known sweeps run in
        let awake = Reach-IsAwake h capacity policy positive known sweeps run in
        let (u, run', done) = drain sound.cells at_once sound.holds awake unused room in
        (sound.cells, sound.holds, u, run', done)
