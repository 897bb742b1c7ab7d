-- ===== src/MessageQueue/Random.antt =====
-- `getRandomIndexes` of HW3/message_queue.c. The results of `rand()` are a list of draws.
pub mod Fill
use operating_system_whw.Common.{
  ℕ, zero, suc, ◌%◌, Bool, true, false, Option, none, some, List, [], ◌∷◌, if◌then◌else◌, get_elem?,
  set, replicate,
}
use operating_system_whw.Heap.{fault, out_of_fuel, Cmd, pure, ◌>>=◌}

-- The second loop: `k` rounds are left. A draw whose index is marked already costs no round.
unfoldable pub fill_indexes : ℕ → ℕ → List Bool → List ℕ → Cmd (List Bool)
fill_indexes capacity zero flags draws = pure flags
fill_indexes capacity (suc k) flags [] = λ _. out_of_fuel
fill_indexes capacity (suc k) flags (d ∷ ds) = elim (get_elem? flags (d % capacity)) [
  | none ↦ λ _. fault
  | some false ↦ fill_indexes capacity k (set flags (d % capacity) true) ds
  | some true ↦ fill_indexes capacity (suc k) flags ds
]

-- `none` is the NULL of a failed `malloc`. The array holds 0 and 1, here `false` and `true`.
unfoldable pub get_random_indexes : (allocated : Bool) → ℕ → ℕ → List ℕ → Cmd (Option (List Bool))
get_random_indexes allocated capacity amount draws =
    if allocated
    then (do
      flags ← fill_indexes capacity amount (replicate capacity false) draws
      pure (some flags))
    else pure none
