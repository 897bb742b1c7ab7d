-- ===== src/Server/Threads/Runs.antt =====
-- Every order of the turns of the threads of HW3/server.c.
use mathlib.Core.Path.{subst}
use operating_system_whw.Common.{ℕ, ◌≤◌, ◌<◌, ◌≡◌, ◌≢◌, refl, sym, [], arith}
use operating_system_whw.Heap.{Heap}
use operating_system_whw.MessageQueue.Types.{SchedPolicy, invalid, drop_random, new_queue}
use operating_system_whw.MessageQueue.Holds.{new_queue-IsQueue}
use operating_system_whw.Server.Threads.{
  Threads, ready, wake_put, wake_get, Step, accepts, wakes, WorkerStep, works, resumes, serves,
  Reach, here, then_step,
}
use operating_system_whw.Server.Threads.Sound.{IsSound, wake_put-IsSound, wake_get-IsSound}
use operating_system_whw.Server.Threads.Accepts.{accepts-IsSound, wakes-IsSound}
use operating_system_whw.Server.Threads.Works.{works-IsSound}

-- Before the first connection, with the queue as `MQCreate` fills it.
abbrev pub started : Heap → ℕ → SchedPolicy → Threads
started h capacity policy = record {
  heap = h;
  queue = new_queue capacity policy;
  hand = ready;
  arrived = [];
  closed = [];
  handled = [];
  busy = [];
}

worker-IsSound : {workers : ℕ} {t u : Threads} → WorkerStep workers t u → IsSound t → IsSound u
worker-IsSound {t = t} (works fuel w now requests fresh turn g idle ne unused run e) sound =
    subst IsSound (sym e) (works-IsSound t fuel w now requests fresh turn g sound ne unused run)
worker-IsSound {t = t} (resumes fuel w now requests fresh turn g woken ne unused run e) sound =
    subst IsSound (sym e) (
      works-IsSound (wake_get t) fuel w now requests fresh turn g (wake_get-IsSound sound) ne unused
        run)

pub Step-IsSound : {workers : ℕ} {t u : Threads} → Step workers t u → IsSound t → IsSound u
Step-IsSound {t = t} (accepts a contents turn g free fresh given run e) sound =
    subst IsSound (sym e) (accepts-IsSound t a contents turn g sound free fresh given run)
Step-IsSound {t = t} (wakes s c p resume d turn g hand woken given run e) sound =
    subst IsSound (sym e)
      (wakes-IsSound (wake_put t) s c p resume d turn g (wake_put-IsSound sound) hand given run)
Step-IsSound (serves step) sound = worker-IsSound step sound

Reach-keeps : {workers : ℕ} {t u : Threads} → IsSound t → Reach workers t u → IsSound u
Reach-keeps sound here = sound
Reach-keeps sound (then_step before step) = Step-IsSound step (Reach-keeps sound before)

-- In every order of turns of the accept loop and the workers of a pool, from a new queue of a
-- capacity other than 0, and of at least 4 under `random`, where allocations succeed at unused
-- addresses and the accept loop has what the policy needs: each accepted connection is in the queue,
-- handled and closed by a worker, closed by the accept loop, with a worker whose request is not yet
-- answered, or in the hand of the sleeping accept loop, as often as it was accepted; the queue is in
-- order and within its capacity; and a sleeping accept loop still owns its node and its message and
-- is to test the size again.
pub Reach-IsSound :
    (h : Heap) (capacity : ℕ) (policy : SchedPolicy)
    → 0 < capacity
    → policy ≢ invalid
    → (policy ≡ drop_random → 4 ≤ capacity)
    → {workers : ℕ} {u : Threads} → Reach workers (started h capacity policy) u
    → IsSound u
Reach-IsSound h capacity policy positive known sweeps run =
    Reach-keeps
      (record {
        cells = [];
        holds = new_queue-IsQueue h capacity policy;
        bounded = record { within = omega arith; quarter = refl; has_policy = known };
        positive = positive;
        sweeps = sweeps;
        accounted = λ v. refl;
        owned = _;
      })
      run
