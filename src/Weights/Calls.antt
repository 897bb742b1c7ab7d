-- ===== src/Weights/Calls.antt =====
-- `sys_set_weight` and `sys_get_weight`.
use operating_system_whw.Common.{ℕ, ◌≡◌, ◌≢◌, refl, some, pos, negsuc, arith}
use operating_system_whw.Weights.{
  TaskPtr, Task, Table, write_task, einval, sys_set_weight, sys_get_weight,
}

-- A call with a weight of at least 0 answers 0; the caller then reads that weight, its pid and its
-- place in the tree are as before, and so is every other task.
pub sys_set_weight-get :
    (weight : ℕ) (current : TaskPtr) (table : Table) {task : Task}
    → table current ≡ some task
    → (after : Table) × (sys_set_weight (pos weight) current table ≡ some (pos 0, after))
      × (sys_get_weight current after ≡ some (pos weight))
      × (after current ≡ some (record task { weight = weight }))
      × ((p : TaskPtr) → p ≢ current → after p ≡ table p)
unfolding sys_set_weight sys_get_weight write_task
sys_set_weight-get weight current table {task} e = (
  write_task table current (record task { weight = weight }),
  rw e,
  ground arith,
  ground arith,
  λ p ne. ground arith,
)

-- A call with a negative weight answers -EINVAL, and no task changes.
pub sys_set_weight-einval :
    (n : ℕ) (current : TaskPtr) (table : Table)
    → sys_set_weight (negsuc n) current table ≡ some (einval, table)
unfolding sys_set_weight
sys_set_weight-einval n current table = refl
