-- ===== src/Server/Setup.antt =====
-- `initServerDataStructures` of HW3/server.c.
use Prim.Native.String.{String}
use operating_system_whw.Common.{ℕ, ◌≡◌, ap, ◌≢◌, true, some, []}
use operating_system_whw.Heap.{Heap}
use operating_system_whw.MessageQueue.Types.{MessageQueue, SchedPolicy, string_to_policy}
use operating_system_whw.MessageQueue.Types.Create.{mq_create-IsQueue, mq_create-invalid}
use operating_system_whw.MessageQueue.Holds.{IsQueue, IsBounded}
use operating_system_whw.ThreadPool.{Blocks, no_blocks, thread_pool_create, thread_pool_free}
use operating_system_whw.ThreadPool.Memory.{memory_of, thread_pool_create-IsNew}
use operating_system_whw.MessageQueue.Types.{mq_get_capacity}
use operating_system_whw.ThreadPool.Fill.{IsFilled}
use operating_system_whw.Server.{
  worker_thread_job, WorkerPool, init_tp, ready, failed, init_server_data_structures,
}
use operating_system_whw.Server.Start.{params}

abbrev pub all_blocks : Blocks
all_blocks = memory_of true true true true

module _ (size : ℕ) (sched_algo : String) (queue_size : ℕ) (h : Heap) where
  -- With memory and the name of a policy, the server has a new pool of `size` places and an empty
  -- queue of `queue_size` under that policy.
  pub init_server_data_structures-ready :
      string_to_policy sched_algo ≢ SchedPolicy.invalid
      → (tp : WorkerPool) × (mq : MessageQueue) × (init_server_data_structures all_blocks true size
            sched_algo queue_size h
          ≡ some (ready tp mq all_blocks))
        × IsFilled worker_thread_job params size tp
        × (tp.size ≡ 0)
        × IsQueue h mq []
        × IsBounded mq
        × (mq_get_capacity (some mq) ≡ some queue_size)
        × (mq.sched_policy ≡ string_to_policy sched_algo)
  unfolding init_server_data_structures init_tp
  init_server_data_structures-ready ne =
      let (tp, made, is, new) = thread_pool_create-IsNew worker_thread_job params size in
      let (mq, e, holds, bounded, policy, capacity, _, _) =
        mq_create-IsQueue queue_size sched_algo h ne in
      (
        tp,
        mq,
        rw (init_server_data_structures, init_tp, made, e) (ap (λ r. some (ready tp mq r.1)) made),
        is,
        new,
        holds,
        bounded,
        capacity,
        policy,
      )

  -- With memory but no policy of that name there is neither, and the array of the arguments of the
  -- pool's threads stays allocated.
  pub init_server_data_structures-invalid :
      string_to_policy sched_algo ≡ SchedPolicy.invalid
      → init_server_data_structures all_blocks true size sched_algo queue_size h
        ≡ some (failed (record no_blocks { args = true }))
  unfolding init_server_data_structures init_tp thread_pool_create thread_pool_free
  init_server_data_structures-invalid e =
      rw (init_server_data_structures, mq_create-invalid queue_size sched_algo h e)
