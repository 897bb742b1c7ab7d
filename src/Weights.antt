-- ===== src/Weights.antt =====
-- HW2/kernel/hw2.c: the system calls on the weights of processes. The members of `struct
-- task_struct` that they use are a record, and the kernel's memory a table of such records. A
-- call that follows a pointer to no task, or whose rounds do not end its loop, is `none`.
pub mod Sum
pub mod Ancestor
pub mod Calls
mod Tests
use operating_system_whw.Common.{
  ◌>>=◌, ℕ, zero, suc, ◌+◌, Bool, Option, none, some, List, [], ◌∷◌, ◌==◌, ltb, if◌then◌else◌, ℤ,
  pos, negsuc,
}

abbrev pub TaskPtr : Type 0
TaskPtr = ℕ

-- `weight` is an `int` that starts at 0 and that only `sys_set_weight` writes. `children` is the
-- list behind `children` and `sibling`, in the order of `list_for_each`.
pub record Task : Type 0 where
  pub pid : ℕ
  pub weight : ℕ
  pub real_parent : TaskPtr
  pub children : List TaskPtr

abbrev pub Table : Type 0
Table = TaskPtr → Option Task

unfoldable pub write_task : Table → TaskPtr → Task → Table
write_task table p task a = if a == p then some task else table a

-- -EINVAL and -ECHILD
abbrev pub einval : ℤ
einval = negsuc 21

abbrev pub echild : ℤ
echild = negsuc 9

-- `current` is the task that makes the call.
unfoldable pub sys_set_weight : (weight : ℤ) → (current : TaskPtr) → Table → Option (ℤ × Table)
sys_set_weight (negsuc n) current table = some (einval, table)
sys_set_weight (pos weight) current table = do
  task ← table current
  some (pos 0, write_task table current (record task { weight = weight }))

unfoldable pub sys_get_weight : (current : TaskPtr) → Table → Option ℤ
sys_get_weight current table = do task ← table current; some (pos task.weight)

-- The loop over the children, for the function that it calls on each.
unfoldable pub children_loop : (TaskPtr → Option ℕ) → Table → (weight : ℕ) → List TaskPtr → Option ℕ
children_loop below table weight [] = some weight
children_loop below table weight (p ∷ ps) = do
  sum ← below p
  task ← table p
  children_loop below table (weight + (sum + task.weight)) ps

unfoldable pub do_sys_get_children_sum : ℕ → Table → (father : TaskPtr) → Option ℕ
do_sys_get_children_sum zero table father = none
do_sys_get_children_sum (suc fuel) table father = do
  task ← table father
  children_loop (do_sys_get_children_sum fuel table) table 0 task.children

unfoldable pub sys_get_children_sum : ℕ → (current : TaskPtr) → Table → Option ℤ
sys_get_children_sum fuel current table = do
  task ← table current
  elim task.children [
    | [] ↦ some echild
    | _ ∷ _ ↦ do sum ← do_sys_get_children_sum fuel table current; some (pos sum)
  ]

abbrev pub init_pid : ℕ
init_pid = 1

-- The `while` loop.
unfoldable pub heaviest_loop :
    ℕ → Table → (current_task : TaskPtr) → (max_weight max_pid : ℕ) → Option ℕ
heaviest_loop zero table current_task max_weight max_pid = none
heaviest_loop (suc fuel) table current_task max_weight max_pid = do
  task ← table current_task
  parent ← table task.real_parent
  let heavier : Bool = ltb max_weight parent.weight
  let max_weight' : ℕ = if heavier then parent.weight else max_weight
  let max_pid' : ℕ = if heavier then parent.pid else max_pid
  let rest = heaviest_loop fuel table task.real_parent max_weight' max_pid'
  if parent.pid == init_pid then some max_pid' else rest

unfoldable pub sys_get_heaviest_ancestor : ℕ → (current : TaskPtr) → Table → Option ℕ
sys_get_heaviest_ancestor fuel current table = do
  task ← table current
  heaviest_loop fuel table current task.weight task.pid
