-- ===== src/Heap/Ends.antt =====
-- Partial correctness of a run: what holds of its value, if it ends with one.
use operating_system_whw.Heap.{Heap, Run, ok, fault, out_of_fuel, Cmd, and_then}

pub data Ends {A : Type 0} (post : A → Type 0) : Run A → Type 0 where
  ended : {value : A} {final : Heap} → post value → Ends post (ok value final)
  faulty : Ends post fault
  starved : Ends post out_of_fuel

module _ {A B : Type 0} {goal : B → Type 0} where
  pub chain :
      {post : A → Type 0} {run : Run A} {rest : A → Cmd B}
      → Ends post run
      → ((value : A) → post value → (h : Heap) → Ends goal (rest value h))
      → Ends goal (and_then run rest)
  chain (ended p) next = next _ p _
  chain faulty next = faulty
  chain starved next = starved

  -- A command whose value does not matter.
  pub skip :
      (run : Run A) {rest : A → Cmd B}
      → ((value : A) (h : Heap) → Ends goal (rest value h))
      → Ends goal (and_then run rest)
  skip (ok value final) next = next value final
  skip fault next = faulty
  skip out_of_fuel next = starved

pub Ends-ok :
    {A : Type 0} {post : A → Type 0} {value : A} {final : Heap}
    → Ends post (ok value final)
    → post value
Ends-ok (ended p) = p
