-- ===== src/Weights/Sum.antt =====
-- `sys_get_children_sum`, and the descendants of a process.
use operating_system_whw.Common.{
  ℕ, zero, suc, ◌+◌, ◌*◌, ◌^◌, ◌≤◌, ◌<◌, ◌≡◌, ap, ◌∙◌, none, some, List, [], ◌∷◌, ◌++◌, arith,
  length, length-append, pos,
}
use operating_system_whw.Weights.{
  TaskPtr, Task, Table, children_loop, do_sys_get_children_sum, sys_get_children_sum, echild,
}

-- The tasks `ps` of the table and all their descendants are `ds`: each task, then its descendants.
pub data Families (table : Table) : List TaskPtr → List TaskPtr → Type 0 where
  nobody : Families table [] []
  family :
      {p : TaskPtr} {task : Task} {ps ds es : List TaskPtr}
      → table p ≡ some task
      → Families table task.children ds
      → Families table ps es
      → Families table (p ∷ ps) (p ∷ (ds ++ es))

-- The weight of the task at `p`.
abbrev pub weight_at : Table → TaskPtr → ℕ
weight_at table p = elim (table p) [ none ↦ 0 | some task ↦ task.weight ]

abbrev pub total : Table → List TaskPtr → ℕ
total table [] = 0
total table (p ∷ ps) = weight_at table p + total table ps

total-append :
    (table : Table) (xs ys : List TaskPtr)
    → total table (xs ++ ys) ≡ total table xs + total table ys
total-append table [] ys = omega arith
total-append table (x ∷ xs) ys = omega (arith, total-append table xs ys)

children_loop-Families :
    {table : Table} {ps ds : List TaskPtr} (fuel weight : ℕ)
    → Families table ps ds
    → length ds ≤ fuel
    → children_loop (do_sys_get_children_sum fuel table) table weight ps
      ≡ some (weight + total table ds)
unfolding children_loop do_sys_get_children_sum
children_loop-Families fuel weight nobody fits = ap some (omega arith)
children_loop-Families zero weight (family e f g) fits = absurd (omega arith)
children_loop-Families {table} (suc fuel) weight (family {p} {task} {ps} {ds} {es} e f g) fits =
    let room : length ds + length es ≤ fuel = omega (arith, length-append ds es) in
    let at : weight_at table p ≡ task.weight = rw (e, weight_at) in
    rw (e, children_loop-Families fuel 0 f (omega (arith, room)))
      (children_loop-Families (suc fuel) (weight + (0 + total table ds + task.weight)) g
          (omega (arith, room))
        ∙ ap some (omega (arith, total-append table ds es, at)))

-- The call on the task at `p`.
do_sys_get_children_sum-Families :
    (fuel : ℕ) {table : Table} (p : TaskPtr) {task : Task} {ds : List TaskPtr}
    → table p ≡ some task
    → Families table task.children ds
    → length ds < fuel
    → do_sys_get_children_sum fuel table p ≡ some (total table ds)
unfolding do_sys_get_children_sum
do_sys_get_children_sum-Families zero p e f few = absurd (omega arith)
do_sys_get_children_sum-Families (suc fuel) p e f few =
    rw e (children_loop-Families fuel 0 f (omega arith) ∙ ap some (omega arith))

-- Weights that fit in an `int`.
abbrev pub Ints : Table → List TaskPtr → Type 0
Ints table [] = Unit {0}
Ints table (p ∷ ps) = (weight_at table p < 2147483648) × Ints table ps

total-bound :
    (table : Table) (ds : List TaskPtr) → Ints table ds → total table ds ≤ length ds * 2147483647
total-bound table [] ints = omega arith
total-bound table (p ∷ ds) ints = omega (arith, ints.0, total-bound table ds ints.1)

total-fits :
    (table : Table) (ds : List TaskPtr)
    → Ints table ds
    → length ds ≤ 2 ^ 32
    → total table ds < 2 ^ 63
total-fits table ds ints few = omega (arith, total-bound table ds ints)

-- A process with children, whose descendants are `ds`, gets the sum of their weights, each once; the
-- nested calls end, being no more than the descendants and one. With weights that fit in an `int`
-- and at most 2^32 descendants, the sum fits in a `long`.
pub sys_get_children_sum-total :
    (fuel : ℕ) (table : Table) (current : TaskPtr) {c : TaskPtr} {cs ds : List TaskPtr}
    {task : Task}
    → table current ≡ some task
    → task.children ≡ c ∷ cs
    → Families table task.children ds
    → Ints table ds
    → length ds ≤ 2 ^ 32
    → length ds < fuel
    → (sys_get_children_sum fuel current table ≡ some (pos (total table ds)))
      × (total table ds < 2 ^ 63)
unfolding sys_get_children_sum
sys_get_children_sum-total fuel table current {ds} is some_child f ints few enough = (
  rw (is, some_child, do_sys_get_children_sum-Families fuel current is f enough),
  total-fits table ds ints few,
)

-- A process without children gets -ECHILD.
pub sys_get_children_sum-no_child :
    (fuel : ℕ) (table : Table) (current : TaskPtr) {task : Task}
    → table current ≡ some task
    → task.children ≡ []
    → sys_get_children_sum fuel current table ≡ some echild
unfolding sys_get_children_sum
sys_get_children_sum-no_child fuel table current is e = rw (is, e)
