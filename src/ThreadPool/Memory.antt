-- ===== src/ThreadPool/Memory.antt =====
-- The blocks of a pool: what `ThreadPoolCreate` and `ThreadPoolFree` leave allocated.
use operating_system_whw.Common.{
  ◌&&◌, ℕ, ◌≡◌, refl, ◌⊎◌, inl, inr, Bool, true, false, Option, none, some, length-replicate, arith,
}
use operating_system_whw.ThreadPool.{
  ThreadPool, Blocks, no_blocks, thread_pool_create, thread_pool_free,
}
use operating_system_whw.ThreadPool.Fill.{IsFilled}

-- What `malloc` gives for the struct, the functions, the threads and the arguments.
abbrev pub memory_of : (pool functions threads args : Bool) → Blocks
memory_of p f t a = record { pool = p; functions = f; threads = t; args = a }

module _ {Function Arg : Type 0} (function : Function) (arg : ℕ → Arg) (capacity : ℕ) where
  -- A new pool.
  abbrev pub IsNew : Option (ThreadPool Function Arg) × Blocks → Type 0
  IsNew result =
      (tp : ThreadPool Function Arg) × (result ≡ (some tp, memory_of true true true true))
      × IsFilled function arg capacity tp
      × (tp.size ≡ 0)

  pub thread_pool_create-IsNew : IsNew (thread_pool_create (memory_of true true true true) capacity)
  unfolding thread_pool_create
  thread_pool_create-IsNew = (
    _,
    refl,
    record {
      places = refl;
      functions = length-replicate capacity none;
      args = length-replicate capacity none;
      threads = length-replicate capacity none;
      function_at = λ i lt. absurd (omega arith);
      arg_at = λ i lt. absurd (omega arith);
    },
    refl,
  )

  create-cases :
      (p f t a : Bool)
      → let result =
          thread_pool_create {Function = Function} {Arg = Arg} (memory_of p f t a) capacity in
        IsNew result ⊎ (result ≡ (none, no_blocks))
  unfolding thread_pool_create
  create-cases false f t a = inr refl
  create-cases true false t a = inr refl
  create-cases true true false a = inr refl
  create-cases true true true false = inr refl
  create-cases true true true true = inl thread_pool_create-IsNew

  -- `ThreadPoolCreate` either makes a pool with no thread, with three arrays of the capacity and
  -- with its four blocks allocated, or answers NULL with no block left allocated.
  pub thread_pool_create-cases :
      (memory : Blocks)
      → IsNew (thread_pool_create memory capacity)
        ⊎ (thread_pool_create {Function = Function} {Arg = Arg} memory capacity ≡ (none, no_blocks))
  thread_pool_create-cases memory =
      create-cases memory.pool memory.functions memory.threads memory.args

module _ (Function Arg : Type 0) (capacity : ℕ) where
  abbrev made : Blocks → Option (ThreadPool Function Arg) × Blocks
  made memory = thread_pool_create memory capacity

  free-create :
      (p f t a : Bool)
      → let result = made (memory_of p f t a) in
        thread_pool_free result.0 result.1 ≡ some (record no_blocks { args = p && (f && (t && a)) })
  unfolding thread_pool_create thread_pool_free
  free-create false f t a = refl
  free-create true false t a = refl
  free-create true true false a = refl
  free-create true true true false = refl
  free-create true true true true = refl

  -- `ThreadPoolFree` of what `ThreadPoolCreate` made frees no block twice, but if a pool was made,
  -- the array of its arguments stays allocated.
  pub thread_pool_free-create :
      (memory : Blocks)
      → thread_pool_free (made memory).0 (made memory).1
        ≡ some (record no_blocks {
          args = memory.pool && (memory.functions && (memory.threads && memory.args));
        })
  thread_pool_free-create memory =
      free-create memory.pool memory.functions memory.threads memory.args
