-- ===== src/ThreadPool.antt =====
-- HW3/thread_pool.c, for any kind of thread function and of argument. An access outside an array, a
-- read of a place that was never written, and a second `free` of a block are `none`.
pub mod Fill
pub mod Memory
mod Tests
use operating_system_whw.Common.{
  ℕ, zero, suc, ◌+◌, ◌-◌, ◌%◌, ◌^◌, Bool, true, false, ◌&&◌, Option, none, some, List, [], ◌∷◌, ltb,
  if◌then◌else◌, length, get_elem?, set, replicate, ◌>>=◌, ℤ, pos, negsuc,
}

abbrev pub ThreadId : Type 0
ThreadId = ℕ

-- `struct t_thread_pool`. A place of an array is `none` until it is written.
pub record ThreadPool (Function Arg : Type 0) : Type 0 where
  pub capacity : ℕ
  pub size : ℕ
  pub functions : List (Option Function)
  pub args : List (Option Arg)
  pub threads : List (Option ThreadId)

-- A call of `pthread_create`, which is taken to succeed: the function, its argument and the new
-- thread.
pub record Started (Function Arg : Type 0) : Type 0 where
  pub function : Function
  pub arg : Arg
  pub thread : ThreadId

-- For the struct and its three arrays, a truth value: whether `malloc` gives memory for the block,
-- or whether the block is allocated.
pub record Blocks : Type 0 where
  pub pool : Bool
  pub functions : Bool
  pub threads : Bool
  pub args : Bool

abbrev pub no_blocks : Blocks
no_blocks = record { pool = false; functions = false; threads = false; args = false }

module _ {A : Type 0} where
  -- `array[i] = v`
  unfoldable pub put_at : List (Option A) → ℕ → A → Option (List (Option A))
  put_at array i v = if ltb i (length array) then some (set array i (some v)) else none

  -- `array[i]`
  unfoldable pub get_at : List (Option A) → ℕ → Option A
  get_at array i = do place ← get_elem? array i; place

-- An `unsigned int` as an `int`.
unfoldable pub to_int : ℕ → ℤ
to_int n = if ltb n (2 ^ 31) then pos n else negsuc (2 ^ 32 - n - 1)

-- HW3_INVALID_VALUE
abbrev pub invalid_value : ℤ
invalid_value = negsuc 0

module _ {Function Arg : Type 0} where
  -- The result, NULL being `none`, and the blocks that are then allocated.
  unfoldable pub thread_pool_create :
      (memory : Blocks) → ℕ → Option (ThreadPool Function Arg) × Blocks
  thread_pool_create memory capacity =
      let one : Blocks = record no_blocks { pool = true } in
      let two : Blocks = record one { functions = true } in
      let three : Blocks = record two { threads = true } in
      if memory.pool
      then if memory.functions
        then if memory.threads
          then if memory.args
            then (
              some (record {
                capacity = capacity;
                size = 0;
                functions = replicate capacity none;
                args = replicate capacity none;
                threads = replicate capacity none;
              }),
              record three { args = true },
            )
            else (none, record three { functions = false; threads = false; pool = false })
          else (none, record two { functions = false; pool = false })
        else (none, record one { pool = false })
      else (none, no_blocks)

  unfoldable pub thread_pool_free : Option (ThreadPool Function Arg) → Blocks → Option Blocks
  thread_pool_free none live = some live
  thread_pool_free (some tp) live =
      if live.functions && (live.threads && live.pool)
      then some (record live { functions = false; threads = false; pool = false })
      else none

  unfoldable pub tp_add_thread :
      Option (ThreadPool Function Arg)
      → Function
      → Arg
      → Option (ℤ × Option (ThreadPool Function Arg))
  tp_add_thread none function args = some (invalid_value, none)
  tp_add_thread (some tp) function args = do
    functions ← put_at tp.functions tp.size function
    all_args ← put_at tp.args tp.size args
    some (
      to_int tp.size,
      some (record tp { size = (tp.size + 1) % 2 ^ 32; functions = functions; args = all_args }),
    )

  -- The loop from index `i`, with `k` rounds left. `ids i` is the thread that `pthread_create` makes.
  unfoldable pub start_loop :
      (k i : ℕ)
      → (ids : ℕ → ThreadId) → ThreadPool Function Arg
      → Option (List (Started Function Arg) × ThreadPool Function Arg)
  start_loop zero i ids tp = some ([], tp)
  start_loop (suc k) i ids tp = do
    function ← get_at tp.functions i
    arg ← get_at tp.args i
    threads ← put_at tp.threads i (ids i)
    (rest, tp') ← start_loop k (suc i) ids (record tp { threads = threads })
    some (record { function = function; arg = arg; thread = ids i } ∷ rest, tp')

  unfoldable pub tp_signal_start_all :
      (ids : ℕ → ThreadId)
      → ThreadPool Function Arg
      → Option (List (Started Function Arg) × ThreadPool Function Arg)
  tp_signal_start_all ids tp = start_loop tp.size 0 ids tp

  unfoldable pub tp_get_pool_size : ThreadPool Function Arg → ℕ
  tp_get_pool_size tp = tp.capacity
