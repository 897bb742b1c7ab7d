-- ===== src/MessageQueue/Types.antt =====
-- The types of HW3/message_queue.h, `struct t_message_queue`, its constructor and its getters, and
-- what the queue does with its mutex and its condition variables.
pub mod Create
pub mod Names
use Prim.Native.String.{String}
use text.Mathlib.Text.{◌==◌ as str_eq}
use operating_system_whw.Common.{
  ℕ, ◌+◌, ◌-◌, ◌/◌, Bool, true, false, Option, none, some, ◌==◌, if◌then◌else◌,
}
use operating_system_whw.Heap.{Ptr, null, fault, Cmd, pure}

-- `MQRetCode`
pub data RetCode : Type 0 where
  success drop err_null_args err_memory_fail : RetCode

-- `MQSchedPolicy`
pub data SchedPolicy : Type 0 where
  invalid block drop_tail drop_head drop_random : SchedPolicy

-- A condition variable: how many threads sleep on it, and how many were woken by a signal and have
-- not run since.
pub record Cond : Type 0 where
  pub waiting : ℕ
  pub woken : ℕ

-- `pthread_cond_signal` wakes one thread, if any sleeps.
abbrev pub signal : Cond → Cond
signal c = if c.waiting == 0 then c else record c { waiting = c.waiting - 1; woken = c.woken + 1 }

-- A woken thread comes back from `pthread_cond_wait`.
abbrev pub wake : Cond → Cond
wake c = record c { woken = c.woken - 1 }

-- The first half of `pthread_cond_wait`.
abbrev pub sleep : Cond → Cond
sleep c = record c { waiting = c.waiting + 1 }

-- `struct t_message_queue`. The sizes are `int`s of at least 0; `locked` is the state of `lock`.
pub record MessageQueue : Type 0 where
  pub capacity : ℕ
  pub size : ℕ
  pub random_drop_count : ℕ
  pub head : Ptr
  pub tail : Ptr
  pub sched_policy : SchedPolicy
  pub locked : Bool
  pub cond_get : Cond
  pub cond_put : Cond

abbrev pub lock : MessageQueue → MessageQueue
lock mq = record mq { locked = true }

abbrev pub unlock : MessageQueue → MessageQueue
unlock mq = record mq { locked = false }

unfoldable pub string_to_policy : String → SchedPolicy
string_to_policy sched_algo =
    if str_eq sched_algo "block"
    then block
    else if str_eq sched_algo "dt"
    then drop_tail
    else if str_eq sched_algo "dh"
    then drop_head
    else if str_eq sched_algo "random"
    then drop_random
    else invalid

-- A queue as `MQCreate` fills it.
abbrev pub new_queue : ℕ → SchedPolicy → MessageQueue
new_queue capacity policy = record {
  capacity = capacity;
  size = 0;
  random_drop_count = capacity / 4;
  head = null;
  tail = null;
  sched_policy = policy;
  locked = false;
  cond_get = record { waiting = 0; woken = 0 };
  cond_put = record { waiting = 0; woken = 0 };
}

-- A queue under the policy, or NULL under INVALID.
unfoldable pub create_with : ℕ → SchedPolicy → Option MessageQueue
create_with capacity invalid = none
create_with capacity policy = some (new_queue capacity policy)

-- `allocated` says whether `malloc` gave memory. The code's test lets NULL through at capacity 0,
-- and writes through it.
unfoldable pub mq_create : (allocated : Bool) → ℕ → String → Cmd (Option MessageQueue)
mq_create false capacity sched_algo = if capacity == 0 then (λ _. fault) else pure none
mq_create true capacity sched_algo = pure (create_with capacity (string_to_policy sched_algo))

-- `none` is the -1 that stands for a null argument.
unfoldable pub mq_get_size : Option MessageQueue → Option ℕ
mq_get_size none = none
mq_get_size (some mq) = some mq.size

unfoldable pub mq_get_capacity : Option MessageQueue → Option ℕ
mq_get_capacity none = none
mq_get_capacity (some mq) = some mq.capacity
