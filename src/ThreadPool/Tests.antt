-- ===== src/ThreadPool/Tests.antt =====
-- Pools of three places, whose functions and arguments are numbers.
use operating_system_whw.Common.{ℕ, ◌+◌, ◌≡◌, ◌<◌, refl, none, some, [], ◌∷◌, arith, get_elem?}
use operating_system_whw.ThreadPool.{ThreadPool, tp_signal_start_all}
use operating_system_whw.ThreadPool.Fill.{IsFilled, started, tp_signal_start_all-started}

-- One thread: the function 5 with the argument 10.
abbrev one : ThreadPool ℕ ℕ
one = record {
  capacity = 3;
  size = 1;
  functions = some 5 ∷ none ∷ none ∷ [];
  args = some 10 ∷ none ∷ none ∷ [];
  threads = none ∷ none ∷ none ∷ [];
}

abbrev arg : ℕ → ℕ
arg i = i + 10

zero_of : (i : ℕ) → i < 1 → i ≡ 0
zero_of i lt = omega arith

one-IsFilled : IsFilled 5 arg 3 one
one-IsFilled = record {
  places = refl;
  functions = refl;
  args = refl;
  threads = refl;
  function_at = function_at;
  arg_at = arg_at;
}
  where
    function_at : (i : ℕ) → i < 1 → get_elem? one.functions i ≡ some (some 5)
    function_at i lt = rw (zero_of i lt) refl

    arg_at : (i : ℕ) → i < 1 → get_elem? one.args i ≡ some (some (arg i))
    arg_at i lt = rw (zero_of i lt) refl

tp_signal_start_all-started_example :
    (after : ThreadPool ℕ ℕ) × (tp_signal_start_all (λ i. i) one
      ≡ some (started 5 arg 1 0 (λ i. i), after))
    × ((j : ℕ) → j < 1 → get_elem? after.threads j ≡ some (some j))
tp_signal_start_all-started_example =
    tp_signal_start_all-started 5 arg 3 (λ i. i) one one-IsFilled (omega arith)
