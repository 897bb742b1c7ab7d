-- ===== src/Server/Start.antt =====
-- The start of the server: its data structures, and its workers.
use native.Mathlib.Decide.{ℕ_discrete}
use mathlib.Core.Path.{ap₂}
use operating_system_whw.Common.{
  ℕ, zero, suc, ◌+◌, ◌^◌, ◌≤◌, ◌<◌, ◌≡◌, ◌⊎◌, inl, inr, refl, ap, ◌∙◌, sym, Bool, true, false, some,
  arith, get_elem?,
}
use operating_system_whw.ThreadPool.{ThreadId, tp_get_pool_size, tp_signal_start_all}
use operating_system_whw.ThreadPool.Fill.{
  IsFilled, tp_add_thread-IsFilled, started, tp_signal_start_all-started,
}
use operating_system_whw.Server.{
  worker_thread_job, WorkerThreadParams, WorkerPool, init_loop, init_worker_threads,
}

-- The parameters of worker `i`.
abbrev pub params : ℕ → WorkerThreadParams
params i = record { thread_id = i }

-- `malloc` gives memory for the parameters of the workers from `i` to `n - 1`, and then either there
-- are no more rounds or it fails.
pub record EndsAt (memory : ℕ → Bool) (i end n : ℕ) : Type 0 where
  pub low : i ≤ n
  pub high : n ≤ end
  pub given : (j : ℕ) → i ≤ j → j < n → memory j ≡ true
  pub last : (n ≡ end) ⊎ (memory n ≡ false)

module _ (capacity : ℕ) (small : capacity < 2 ^ 31) (memory : ℕ → Bool) where
  init_loop-IsFilled :
      (k n : ℕ) (tp : WorkerPool)
      → IsFilled worker_thread_job params capacity tp
      → tp.size + k ≤ capacity
      → EndsAt memory tp.size (tp.size + k) n
      → (after : WorkerPool) × (init_loop k tp.size memory tp ≡ some after)
        × IsFilled worker_thread_job params capacity after
        × (after.size ≡ n)
  unfolding init_loop
  init_loop-IsFilled zero n tp is fits ends = (tp, refl, is, omega (arith, ends.low, ends.high))
  init_loop-IsFilled (suc k) n tp is fits ends = elim (ℕ_discrete tp.size n) [
    | yes here ↦ (tp, rw (stops here ends.last, init_loop) refl, is, here)
    | no ne ↦
        let (next, e, is', size) =
          tp_add_thread-IsFilled worker_thread_job params capacity tp is (omega arith) small in
        let rest : EndsAt memory next.size (next.size + k) n = record {
          low = omega (arith, size, ends.low);
          high = omega (arith, size, ends.high);
          given = λ j low high. ends.given j (omega (arith, size)) high;
          last = elim ends.last [
            | inl end ↦ inl (omega (arith, size))
            | inr none_left ↦ inr none_left
          ];
        } in
        let (after, e', is'', size') = init_loop-IsFilled k n next is' (omega (arith, size)) rest in
        (
          after,
          rw (ends.given tp.size (omega arith) (omega (arith, ends.low)), init_loop, e, sym size)
              e',
          is'',
          size',
        )
  ]
    where
      stops : tp.size ≡ n → ((n ≡ tp.size + suc k) ⊎ (memory n ≡ false)) → memory tp.size ≡ false
      stops here (inl end) = absurd (omega arith)
      stops here (inr none_left) = ap memory here ∙ none_left

  -- At a new pool of fewer than 2^31 places, with memory for the parameters of the first `n` workers
  -- and then either no more places or no memory: `initWorkerThreads` and `TPSignalStartAll` start
  -- `n` threads, which run `workerThreadJob` with the numbers 0 to `n - 1` in order, and record each
  -- in its place.
  pub init_worker_threads-started :
      (n : ℕ) (ids : ℕ → ThreadId) (tp : WorkerPool)
      → IsFilled worker_thread_job params capacity tp
      → tp.size ≡ 0
      → EndsAt memory 0 capacity n
      → (filled : WorkerPool) × (after : WorkerPool) × (init_worker_threads memory tp ≡ some filled)
        × (tp_signal_start_all ids filled ≡ some (started worker_thread_job params n 0 ids, after))
        × ((j : ℕ) → j < n → get_elem? after.threads j ≡ some (some (ids j)))
  unfolding init_worker_threads tp_get_pool_size
  init_worker_threads-started n ids tp is new ends =
      let ends' : EndsAt memory tp.size (tp.size + capacity) n = record {
        low = omega (arith, new);
        high = omega (arith, new, ends.high);
        given = λ j low high. ends.given j (omega arith) high;
        last = elim ends.last [
          | inl end ↦ inl (omega (arith, new))
          | inr none_left ↦ inr none_left
        ];
      } in
      let (filled, e, is', size) = init_loop-IsFilled capacity n tp is (omega (arith, new)) ends' in
      let (after, e', recorded) =
        tp_signal_start_all-started worker_thread_job params capacity ids filled is'
          (omega (arith, size, ends.high)) in
      (
        filled,
        after,
        ap₂ (λ a b. init_loop a b memory tp) is.places (sym new) ∙ e,
        e' ∙ ap (λ m. some (started worker_thread_job params m 0 ids, after)) size,
        λ j below. recorded j (omega (arith, size)),
      )
