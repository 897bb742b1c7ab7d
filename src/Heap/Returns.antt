-- ===== src/Heap/Returns.antt =====
-- Total correctness of a run: no fault, enough fuel, and a postcondition.
use operating_system_whw.Common.{◌≡◌, refl}
use operating_system_whw.Heap.{Heap, Run, ok, Cmd, and_then}

pub data Returns {A : Type 0} (post : A → Heap → Type 0) : Run A → Type 0 where
  returns : {value : A} {final : Heap} → post value final → Returns post (ok value final)

module _ {A : Type 0} {post : A → Heap → Type 0} where
  -- The value and the heap that a run ends with.
  pub inversion :
      {run : Run A} → Returns post run → (a : A) × (g : Heap) × (run ≡ ok a g) × post a g
  inversion (returns p) = (_, _, refl, p)

  pub mono :
      {weaker : A → Heap → Type 0} {run : Run A}
      → Returns post run
      → ((value : A) (final : Heap) → post value final → weaker value final)
      → Returns weaker run
  mono (returns p) weaken = returns (weaken _ _ p)

  pub bind :
      {B : Type 0} {goal : B → Heap → Type 0} {run : Run A} {rest : A → Cmd B}
      → Returns post run
      → ((value : A) (mid : Heap) → post value mid → Returns goal (rest value mid))
      → Returns goal (and_then run rest)
  bind (returns p) next = next _ _ p
