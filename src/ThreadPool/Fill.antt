-- ===== src/ThreadPool/Fill.antt =====
-- Threads that are added to a pool, and the start of all of them.
use native.Mathlib.Nat.{mod-eq_of_lt}
use native.Mathlib.Decide.{ℕ_discrete}
use operating_system_whw.Common.{
  ◌%◌, ℕ, zero, suc, ◌+◌, ◌^◌, ◌≤◌, ◌<◌, ◌≡◌, refl, ◌∙◌, sym, Option, some, List, [], ◌∷◌, arith,
  length, get_elem?, set, length-set, get_elem?-set_self, get_elem?-set_ne, ltb-true, pos,
}
use operating_system_whw.ThreadPool.{
  ThreadId, ThreadPool, put_at, get_at, to_int, tp_add_thread, Started, start_loop,
  tp_signal_start_all,
}

-- A pool of `capacity` places whose first `tp.size` hold what `function` and `arg` say.
pub record IsFilled {Function Arg : Type 0} (function : Function) (arg : ℕ → Arg) (capacity : ℕ)
    (tp : ThreadPool Function Arg) : Type 0 where
  pub places : tp.capacity ≡ capacity
  pub functions : length tp.functions ≡ capacity
  pub args : length tp.args ≡ capacity
  pub threads : length tp.threads ≡ capacity
  pub function_at : (i : ℕ) → i < tp.size → get_elem? tp.functions i ≡ some (some function)
  pub arg_at : (i : ℕ) → i < tp.size → get_elem? tp.args i ≡ some (some (arg i))

module _ {A : Type 0} where
  pub put_at-ok :
      (array : List (Option A)) (i : ℕ) (v : A)
      → i < length array
      → put_at array i v ≡ some (set array i (some v))
  unfolding put_at
  put_at-ok array i v lt = rw (ltb-true lt)

  -- The places below `n + 1` after the write at `n`.
  set-below :
      (array : List (Option A)) (n : ℕ) (v : ℕ → A)
      → n < length array
      → ((i : ℕ) → i < n → get_elem? array i ≡ some (some (v i)))
      → (i : ℕ) → i < suc n
      → get_elem? (set array n (some (v n))) i ≡ some (some (v i))
  set-below array n v fits below i lt = elim (ℕ_discrete n i) [
    | yes e ↦ rw (sym e) (get_elem?-set_self array n (some (v n)) fits)
    | no ne ↦ get_elem?-set_ne array n i (some (v n)) ne ∙ below i (omega arith)
  ]

module _ {Function Arg : Type 0} (function : Function) (arg : ℕ → Arg) where
  -- A thread that is added where there is a place gets the next index.
  pub tp_add_thread-IsFilled :
      (capacity : ℕ) (tp : ThreadPool Function Arg)
      → IsFilled function arg capacity tp
      → tp.size < capacity
      → capacity < 2 ^ 31
      → (after : ThreadPool Function Arg) × (tp_add_thread (some tp) function (arg tp.size)
          ≡ some (pos tp.size, some after))
        × IsFilled function arg capacity after
        × (after.size ≡ suc tp.size)
  unfolding tp_add_thread to_int
  tp_add_thread-IsFilled capacity tp is lt small =
      let next : (tp.size + 1) % 2 ^ 32 ≡ suc tp.size =
        mod-eq_of_lt {n = tp.size + 1} (omega (arith, small)) ∙ omega arith in
      (
        record tp {
          size = suc tp.size;
          functions = set tp.functions tp.size (some function);
          args = set tp.args tp.size (some (arg tp.size));
        },
        rw (
          put_at-ok tp.functions tp.size function (omega (arith, is.functions)),
          put_at-ok tp.args tp.size (arg tp.size) (omega (arith, is.args)),
          ltb-true {a = tp.size} {b = 2 ^ 31} (omega (arith, small)),
          next,
        ),
        record {
          places = is.places;
          functions = length-set tp.functions tp.size (some function) ∙ is.functions;
          args = length-set tp.args tp.size (some (arg tp.size)) ∙ is.args;
          threads = is.threads;
          function_at =
              set-below tp.functions tp.size (λ i. function) (omega (arith, is.functions))
                is.function_at;
          arg_at = set-below tp.args tp.size arg (omega (arith, is.args)) is.arg_at;
        },
        refl,
      )

  -- The threads `i`, …, `i + k - 1`.
  abbrev pub started : (k i : ℕ) → (ids : ℕ → ThreadId) → List (Started Function Arg)
  started zero i ids = []
  started (suc k) i ids =
      record { function = function; arg = arg i; thread = ids i } ∷ started k (suc i) ids

  -- The places from `i` on hold the threads that were made for them.
  abbrev pub Recorded : (k i : ℕ) → (ids : ℕ → ThreadId) → ThreadPool Function Arg → Type 0
  Recorded k i ids tp = (j : ℕ) → i ≤ j → j < i + k → get_elem? tp.threads j ≡ some (some (ids j))

  start_loop-started :
      (k i capacity : ℕ) (ids : ℕ → ThreadId) (tp : ThreadPool Function Arg)
      → IsFilled function arg capacity tp
      → i + k ≤ tp.size
      → tp.size ≤ capacity
      → (after : ThreadPool Function Arg) × (start_loop k i ids tp ≡ some (started k i ids, after))
        × Recorded k i ids after
        × ((j : ℕ) → j < i → get_elem? after.threads j ≡ get_elem? tp.threads j)
  unfolding start_loop get_at
  start_loop-started zero i capacity ids tp is fits room =
      (tp, refl, λ j low high. absurd (omega arith), λ j below. refl)
  start_loop-started (suc k) i capacity ids tp is fits room =
      let here : i < length tp.threads = omega (arith, is.threads) in
      let next : ThreadPool Function Arg = record tp {
        threads = set tp.threads i (some (ids i));
      } in
      let is' : IsFilled function arg capacity next = record {
        places = is.places;
        functions = is.functions;
        args = is.args;
        threads = length-set tp.threads i (some (ids i)) ∙ is.threads;
        function_at = is.function_at;
        arg_at = is.arg_at;
      } in
      let (after, e, recorded, same) =
        start_loop-started k (suc i) capacity ids next is' (omega arith) room in
      (
        after,
        rw
            (
              is.function_at i (omega arith),
              is.arg_at i (omega arith),
              put_at-ok tp.threads i (ids i) here,
              e,
            )
            refl,
        λ j low high. elim (ℕ_discrete i j) [
          | yes eq ↦
              rw (sym eq)
                (same i (omega arith) ∙ get_elem?-set_self tp.threads i (some (ids i)) here)
          | no ne ↦ recorded j (omega arith) (omega arith)
        ],
        λ j below.
            same j (omega arith) ∙ get_elem?-set_ne tp.threads i j (some (ids i)) (omega arith),
      )

  -- At a pool that is filled as far as its size says, `TPSignalStartAll` makes one thread for each
  -- place up to the size, in order, each with the function and the argument of its place, and
  -- records it there.
  pub tp_signal_start_all-started :
      (capacity : ℕ) (ids : ℕ → ThreadId) (tp : ThreadPool Function Arg)
      → IsFilled function arg capacity tp
      → tp.size ≤ capacity
      → (after : ThreadPool Function Arg) × (tp_signal_start_all ids tp
          ≡ some (started tp.size 0 ids, after))
        × ((j : ℕ) → j < tp.size → get_elem? after.threads j ≡ some (some (ids j)))
  unfolding tp_signal_start_all
  tp_signal_start_all-started capacity ids tp is room =
      let (after, e, recorded, same) =
        start_loop-started tp.size 0 capacity ids tp is (omega arith) room in
      (after, e, λ j below. recorded j (omega arith) (omega arith))
