-- ===== src/Server.antt =====
-- HW3/server.c: the start of the server; Accept and Worker have its two loops.
pub mod Start
pub mod Setup
pub mod Arguments
pub mod Accept
pub mod Worker
pub mod Threads
mod Tests
use Prim.Native.String.{String}
use operating_system_whw.Common.{
  ℕ, zero, suc, ◌+◌, ◌/◌, Bool, true, false, Option, none, some, List, [], ◌∷◌, ltb, if◌then◌else◌,
  length, ◌>>=◌, ℤ,
}
use operating_system_whw.Heap.{Heap, Cmd}
use operating_system_whw.Heap
use operating_system_whw.MessageQueue.Types.{
  MessageQueue, mq_create, drop_random, string_to_policy, SchedPolicy,
}
use operating_system_whw.ThreadPool.{
  ThreadPool, Blocks, thread_pool_create, thread_pool_free, tp_add_thread, tp_get_pool_size,
}

-- The function that every thread of the pool runs.
pub data ThreadFunction : Type 0 where
  worker_thread_job : ThreadFunction

-- `struct t_worker_thread_params`, less the queue, of which the program has one.
pub record WorkerThreadParams : Type 0 where
  pub thread_id : ℕ

abbrev pub WorkerPool : Type 0
WorkerPool = ThreadPool ThreadFunction WorkerThreadParams

-- `initTP`
unfoldable pub init_tp : (memory : Blocks) → (size : ℕ) → Option WorkerPool × Blocks
init_tp memory size = thread_pool_create memory size

-- What `initServerDataStructures` ends with: both structures, or neither, with the blocks of the
-- pool that are then allocated.
pub data Structures : Type 0 where
  ready : WorkerPool → MessageQueue → Blocks → Structures
  failed : Blocks → Structures

-- `queue_memory` says whether `malloc` gives memory for the queue. `none` is undefined behaviour.
unfoldable pub init_server_data_structures :
    (pool_memory : Blocks)
    → (queue_memory : Bool) → (thread_pool_size : ℕ) → (sched_algo : String) → (queue_size : ℕ)
    → Heap
    → Option Structures
init_server_data_structures pool_memory queue_memory thread_pool_size sched_algo queue_size h =
    let made = init_tp pool_memory thread_pool_size in
    elim made.0 [
      | none ↦ some (failed made.1)
      | some tp ↦ elim (mq_create queue_memory queue_size sched_algo h) [
        | Heap.ok (some mq) g ↦ some (ready tp mq made.1)
        | Heap.ok none g ↦ do live ← thread_pool_free (some tp) made.1; some (failed live)
        | Heap.fault ↦ none
        | Heap.out_of_fuel ↦ none
      ]
    ]

-- The loop of `initWorkerThreads` from index `i`, with `k` rounds left. `memory i` says whether
-- `malloc` gives memory for the parameters in round `i`.
unfoldable pub init_loop : (k i : ℕ) → (memory : ℕ → Bool) → WorkerPool → Option WorkerPool
init_loop zero i memory tp = some tp
init_loop (suc k) i memory tp = elim (memory i) [
  | false ↦ some tp
  | true ↦ elim (tp_add_thread (some tp) worker_thread_job (record { thread_id = i })) [
    | some (index, some tp') ↦ init_loop k (suc i) memory tp'
    | _ ↦ none
  ]
]

unfoldable pub init_worker_threads : (memory : ℕ → Bool) → WorkerPool → Option WorkerPool
init_worker_threads memory tp = init_loop (tp_get_pool_size tp) 0 memory tp

-- How many contents the array of dropped contents has room for.
unfoldable pub drop_size : (sched_algo : String) → (queue_size : ℕ) → ℕ
drop_size sched_algo queue_size = elim (string_to_policy sched_algo) [
  | drop_random ↦ queue_size / 4
  | _ ↦ 1
]
