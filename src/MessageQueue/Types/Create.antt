-- ===== src/MessageQueue/Types/Create.antt =====
-- `MQCreate` and `stringToPolicy`.
use Prim.Native.String.{String}
use operating_system_whw.Common.{suc, ap, ℕ, ◌≡◌, refl, ◌≢◌, true, false, none, some, [], arith}
use operating_system_whw.Heap.{Heap, fault, ok}
use operating_system_whw.MessageQueue.Types.{
  create_with, SchedPolicy, invalid, block, drop_tail, drop_head, drop_random, MessageQueue,
  new_queue, string_to_policy, mq_create, mq_get_size, mq_get_capacity,
}
use operating_system_whw.MessageQueue.Holds.{IsQueue, IsBounded, new_queue-IsQueue}

-- The four policies are what their names say, and any other text is INVALID, for which no queue is
-- made.
pub string_to_policy_table :
    (string_to_policy "block" ≡ block)
    × (string_to_policy "dt" ≡ drop_tail)
    × (string_to_policy "dh" ≡ drop_head)
    × (string_to_policy "random" ≡ drop_random)
unfolding string_to_policy
string_to_policy_table = (refl, refl, refl, refl)

create_with-some :
    (capacity : ℕ) (policy : SchedPolicy)
    → policy ≢ invalid
    → create_with capacity policy ≡ some (new_queue capacity policy)
unfolding create_with
create_with-some capacity invalid ne = absurd (ne refl)
create_with-some capacity block ne = refl
create_with-some capacity drop_tail ne = refl
create_with-some capacity drop_head ne = refl
create_with-some capacity drop_random ne = refl

-- Given memory, `MQCreate` answers NULL at a text that names no policy.
pub mq_create-invalid :
    (capacity : ℕ) (sched_algo : String) (h : Heap)
    → string_to_policy sched_algo ≡ invalid
    → mq_create true capacity sched_algo h ≡ ok none h
unfolding mq_create create_with
mq_create-invalid capacity sched_algo h e = rw e

-- Given memory and the name of a policy, `MQCreate` makes an empty queue of that capacity and
-- policy, with the mutex free, whose members satisfy what every operation relies on; the getters
-- answer the capacity and 0.
pub mq_create-IsQueue :
    (capacity : ℕ) (sched_algo : String) (h : Heap)
    → string_to_policy sched_algo ≢ invalid
    → (mq : MessageQueue) × (mq_create true capacity sched_algo h ≡ ok (some mq) h)
      × IsQueue h mq []
      × IsBounded mq
      × (mq.sched_policy ≡ string_to_policy sched_algo)
      × (mq_get_capacity (some mq) ≡ some capacity)
      × (mq_get_size (some mq) ≡ some 0)
      × (mq.locked ≡ false)
unfolding mq_create mq_get_size mq_get_capacity
mq_create-IsQueue capacity sched_algo h ne =
    let policy : SchedPolicy = string_to_policy sched_algo in
    (
      new_queue capacity policy,
      ap (λ q. ok q h) (create_with-some capacity policy ne),
      new_queue-IsQueue h capacity policy,
      record { within = omega arith; quarter = refl; has_policy = ne },
      refl,
      refl,
      refl,
      refl,
    )

-- Without memory `MQCreate` answers NULL if the capacity is not 0, and writes through NULL if it
-- is 0.
pub mq_create-no_memory :
    (capacity : ℕ) (sched_algo : String) (h : Heap)
    → (mq_create false (suc capacity) sched_algo h ≡ ok none h)
      × (mq_create false 0 sched_algo h ≡ fault)
unfolding mq_create
mq_create-no_memory capacity sched_algo h = (ground arith, refl)
