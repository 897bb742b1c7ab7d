-- ===== src/Weights/Tests.antt =====
-- A small tree of processes, and the theorems at it.
use operating_system_whw.Common.{List, ◌≡◌, ◌<◌, ◌^◌, refl, none, some, [], ◌∷◌, arith, pos}
use operating_system_whw.Weights.{
  TaskPtr, Task, Table, sys_get_children_sum, sys_get_heaviest_ancestor, write_task,
  do_sys_get_children_sum, children_loop,
}
use operating_system_whw.Weights.Sum.{
  Families, nobody, family, Ints, total, sys_get_children_sum-total,
}
use operating_system_whw.Weights.Ancestor.{
  Lineage, child_of_init, descends, Heaviest, sys_get_heaviest_ancestor-Heaviest,
  sys_get_heaviest_ancestor-no_end, Outside, below_root, further_down,
}

abbrev idle : Task
idle = record { pid = 0; weight = 0; real_parent = 100; children = 101 ∷ [] }

abbrev init : Task
init = record { pid = 1; weight = 3; real_parent = 100; children = 102 ∷ [] }

abbrev shell : Task
shell = record { pid = 7; weight = 9; real_parent = 101; children = 103 ∷ 104 ∷ [] }

abbrev child_a : Task
child_a = record { pid = 8; weight = 9; real_parent = 102; children = [] }

abbrev child_b : Task
child_b = record { pid = 9; weight = 1; real_parent = 102; children = [] }

abbrev table : Table
table =
    write_task
      (write_task (write_task (write_task (write_task (λ _. none) 100 idle) 101 init) 102 shell) 103
        child_a)
      104 child_b

below_init : Families table (102 ∷ []) (102 ∷ 103 ∷ 104 ∷ [])
unfolding write_task
below_init = family refl (family refl nobody (family refl nobody nobody)) nobody

above_a : Lineage table 103 (shell ∷ init ∷ [])
unfolding write_task
above_a = descends refl refl (ground arith) (child_of_init refl refl refl)

at : (table 101 ≡ some init) × (table 103 ≡ some child_a) × (table 104 ≡ some child_b)
unfolding write_task
at = (refl, refl, refl)

abbrev descendants : List TaskPtr
descendants = 102 ∷ 103 ∷ 104 ∷ []

small : Ints table descendants
unfolding write_task
small = ground arith

sys_get_children_sum-total_example :
    (sys_get_children_sum 4 101 table ≡ some (pos (total table descendants)))
    × (total table descendants < 2 ^ 63)
sys_get_children_sum-total_example =
    sys_get_children_sum-total 4 table 101 at.0 refl below_init small (omega arith) (omega arith)

-- 9 + 9 + 1
sum_at_init : sys_get_children_sum 4 101 table ≡ some (pos 19)
unfolding sys_get_children_sum do_sys_get_children_sum children_loop write_task
sum_at_init = refl

sys_get_heaviest_ancestor-Heaviest_example :
    (best : Task) × (sys_get_heaviest_ancestor 2 103 table ≡ some best.pid)
    × Heaviest (child_a ∷ shell ∷ init ∷ []) best
sys_get_heaviest_ancestor-Heaviest_example =
    sys_get_heaviest_ancestor-Heaviest 2 table 103 at.1 above_a (omega arith)

-- kthreadd and a kernel thread below it
abbrev kthreadd : Task
kthreadd = record { pid = 2; weight = 0; real_parent = 100; children = 106 ∷ [] }

abbrev kworker : Task
kworker = record { pid = 5; weight = 2; real_parent = 105; children = [] }

abbrev booted : Table
booted = write_task (write_task table 105 kthreadd) 106 kworker

kworker-at : booted 106 ≡ some kworker
unfolding write_task
kworker-at = refl

kworker-Outside : Outside booted 106
unfolding write_task
kworker-Outside = further_down refl refl (ground arith) (below_root refl refl refl (ground arith))

sys_get_heaviest_ancestor-no_end_example : sys_get_heaviest_ancestor 1000 106 booted ≡ none
sys_get_heaviest_ancestor-no_end_example =
    sys_get_heaviest_ancestor-no_end 1000 booted 106 kworker-at kworker-Outside
