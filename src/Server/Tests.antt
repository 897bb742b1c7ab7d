-- ===== src/Server/Tests.antt =====
-- A server with two workers and a queue of four under the policy `dh`.
use Prim.Native.String.{String, len}
use operating_system_whw.MessageQueue.Put.{Supply}
use operating_system_whw.MessageQueue.Types.{new_queue, drop_random}
use operating_system_whw.Server.{drop_size}
use operating_system_whw.Server.Arguments.{getargs, overflow}
use operating_system_whw.Common.{
  ◌∷◌, ℤ, pos, ℕ, ◌≡◌, ◌≢◌, ◌<◌, inr, refl, Bool, true, none, some, [], arith, get_elem?, replicate,
  ltb,
}
use operating_system_whw.Heap.{Heap}
use operating_system_whw.MessageQueue.Types.{MessageQueue, SchedPolicy, string_to_policy}
use operating_system_whw.ThreadPool.{tp_signal_start_all}
use operating_system_whw.ThreadPool.Fill.{IsFilled, started}
use operating_system_whw.Server.{worker_thread_job, WorkerPool, init_worker_threads}
use operating_system_whw.Server.Start.{params, EndsAt, init_worker_threads-started}

abbrev no_objects : Heap
no_objects a = none

names_policy : string_to_policy "dh" ≢ SchedPolicy.invalid
unfolding string_to_policy
names_policy = ground arith

names_none : string_to_policy "fifo" ≡ SchedPolicy.invalid
unfolding string_to_policy
names_none = refl

-- A pool of three places.
abbrev empty_pool : WorkerPool
empty_pool = record {
  capacity = 3;
  size = 0;
  functions = replicate 3 none;
  args = replicate 3 none;
  threads = replicate 3 none;
}

empty-IsFilled : IsFilled worker_thread_job params 3 empty_pool
empty-IsFilled = record {
  places = refl;
  functions = refl;
  args = refl;
  threads = refl;
  function_at = λ i lt. absurd (omega arith);
  arg_at = λ i lt. absurd (omega arith);
}

-- `malloc` gives memory for the parameters of two workers.
abbrev memory : ℕ → Bool
memory i = ltb i 2

two_workers : EndsAt memory 0 3 2
two_workers = record {
  low = omega arith;
  high = omega arith;
  given = λ j low high. ground arith;
  last = inr refl;
}

init_worker_threads-started_example :
    (filled : WorkerPool) × (after : WorkerPool) × (init_worker_threads memory empty_pool
      ≡ some filled)
    × (tp_signal_start_all (λ i. i) filled
        ≡ some (started worker_thread_job params 2 0 (λ i. i), after))
    × ((j : ℕ) → j < 2 → get_elem? after.threads j ≡ some (some j))
init_worker_threads-started_example =
    init_worker_threads-started 3 (omega arith) memory 2 (λ i. i) empty_pool empty-IsFilled refl
      two_workers

abbrev number : String → ℤ
number text = pos (len text)

-- A buffer of 7 bytes does not hold a name of 7 bytes and its end.
long_name : getargs number ("server" ∷ ("8080" ∷ ("2" ∷ ("4" ∷ ("randoms" ∷ []))))) ≡ overflow
unfolding getargs
long_name = refl

abbrev sweeping : MessageQueue
sweeping = new_queue 4 drop_random

abbrev draws : Supply
draws = record { copy = 1; node = 2; indexes = true; draws = 0 ∷ 1 ∷ 2 ∷ 3 ∷ [] }

random_named : sweeping.sched_policy ≡ string_to_policy "random"
unfolding string_to_policy
random_named = refl

one_place : 1 ≡ drop_size "random" sweeping.capacity
unfolding drop_size string_to_policy
one_place = refl
