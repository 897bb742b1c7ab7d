-- ===== src/Weights/Ancestor.antt =====
-- `sys_get_heaviest_ancestor`, and the way up from a process to init.
use native.Mathlib.Decide.{dec_lt}
use operating_system_whw.Common.{
  true, false, ltb-false, ltb-true, Bool, if◌then◌else◌, get_elem?, ℕ, zero, suc, ◌≤◌, ◌<◌, ◌≡◌,
  ◌≢◌, refl, ap, ◌∙◌, none, some, List, [], ◌∷◌, arith, length, eq_true, eq_false, ltb,
}
use operating_system_whw.Weights.{
  TaskPtr, Task, Table, heaviest_loop, sys_get_heaviest_ancestor, init_pid,
}

-- The ancestors of the task at `p`, from its parent up to init.
pub data Lineage (table : Table) : TaskPtr → List Task → Type 0 where
  child_of_init :
      {p : TaskPtr} {task parent : Task}
      → table p ≡ some task
      → table task.real_parent ≡ some parent
      → parent.pid ≡ init_pid
      → Lineage table p (parent ∷ [])
  descends :
      {p : TaskPtr} {task parent : Task} {xs : List Task}
      → table p ≡ some task
      → table task.real_parent ≡ some parent
      → parent.pid ≢ init_pid
      → Lineage table task.real_parent xs
      → Lineage table p (parent ∷ xs)

-- `best` is the first of the heaviest tasks of `xs`.
pub record Heaviest (xs : List Task) (best : Task) : Type 0 where
  pub index : ℕ
  pub here : get_elem? xs index ≡ some best
  pub most : (j : ℕ) (t : Task) → get_elem? xs j ≡ some t → t.weight ≤ best.weight
  pub first : (j : ℕ) (t : Task) → get_elem? xs j ≡ some t → j < index → t.weight < best.weight

heaviest : Task → List Task → Task
heaviest m [] = m
heaviest m (x ∷ xs) =
    let later = heaviest x xs in
    let same = heaviest m xs in if ltb m.weight x.weight then later else same

Heaviest-later :
    {m x best : Task} {xs : List Task}
    → m.weight < x.weight
    → Heaviest (x ∷ xs) best
    → Heaviest (m ∷ (x ∷ xs)) best
Heaviest-later {m} {x} {best} {xs} lt h = record {
  index = suc h.index;
  here = h.here;
  most = most;
  first = first;
}
  where
    most : (j : ℕ) (t : Task) → get_elem? (m ∷ (x ∷ xs)) j ≡ some t → t.weight ≤ best.weight
    most zero t e = ground (arith, lt, h.most 0 x refl)
    most (suc j) t e = h.most j t e

    first :
        (j : ℕ) (t : Task)
        → get_elem? (m ∷ (x ∷ xs)) j ≡ some t
        → j < suc h.index
        → t.weight < best.weight
    first zero t e below = ground (arith, lt, h.most 0 x refl)
    first (suc j) t e below = h.first j t e (omega arith)

-- The place of the best task once `x` stands behind the first.
abbrev behind_x : ℕ → ℕ
behind_x zero = zero
behind_x (suc i) = suc (suc i)

Heaviest-same :
    {m x best : Task} {xs : List Task}
    → x.weight ≤ m.weight
    → Heaviest (m ∷ xs) best
    → Heaviest (m ∷ (x ∷ xs)) best
Heaviest-same {m} {x} {best} {xs} le h = record {
  index = behind_x h.index;
  here = here h.index h.here;
  most = most;
  first = first h.index h.first;
}
  where
    here :
        (i : ℕ)
        → get_elem? (m ∷ xs) i ≡ some best
        → get_elem? (m ∷ (x ∷ xs)) (behind_x i) ≡ some best
    here zero e = e
    here (suc i) e = e

    most : (j : ℕ) (t : Task) → get_elem? (m ∷ (x ∷ xs)) j ≡ some t → t.weight ≤ best.weight
    most zero t e = h.most zero t e
    most (suc zero) t e = ground (arith, le, h.most 0 m refl)
    most (suc (suc j)) t e = h.most (suc j) t e

    first :
        (i : ℕ)
        → ((j : ℕ) (t : Task) → get_elem? (m ∷ xs) j ≡ some t → j < i → t.weight < best.weight)
        → (j : ℕ) (t : Task) → get_elem? (m ∷ (x ∷ xs)) j ≡ some t
        → j < behind_x i
        → t.weight < best.weight
    first zero f j t e below = absurd (omega arith)
    first (suc i) f zero t e below = f zero t e (omega arith)
    first (suc i) f (suc zero) t e below = ground (arith, le, f 0 m refl (omega arith))
    first (suc i) f (suc (suc j)) t e below = f (suc j) t e (omega arith)

heaviest-Heaviest : (m : Task) (xs : List Task) → Heaviest (m ∷ xs) (heaviest m xs)
unfolding heaviest
heaviest-Heaviest m [] = record {
  index = 0;
  here = refl;
  most = only;
  first = λ j t e below. absurd (omega arith);
}
  where
    only : (j : ℕ) (t : Task) → get_elem? (m ∷ []) j ≡ some t → t.weight ≤ m.weight
    only zero t e = ground arith
    only (suc j) t e = cc
heaviest-Heaviest m (x ∷ xs) = elim (dec_lt m.weight x.weight) [
  | yes lt ↦ rw (ltb-true lt) (Heaviest-later lt (heaviest-Heaviest x xs))
  | no ge ↦
      let le : x.weight ≤ m.weight = omega arith in
      rw (ltb-false le) (Heaviest-same le (heaviest-Heaviest m xs))
]

if_pid : (b : Bool) (x y : Task) → (if b then x.pid else y.pid) ≡ (if b then x else y).pid
if_pid true x y = refl
if_pid false x y = refl

-- The loop, with `m` the heaviest so far.
heaviest_loop-heaviest :
    (fuel : ℕ) (table : Table) (p : TaskPtr) (m : Task) {xs : List Task}
    → Lineage table p xs
    → length xs ≤ fuel
    → heaviest_loop fuel table p m.weight m.pid ≡ some (heaviest m xs).pid
unfolding heaviest_loop heaviest
heaviest_loop-heaviest zero table p m (child_of_init e up is) fits = absurd (omega arith)
heaviest_loop-heaviest zero table p m (descends e up ne l) fits = absurd (omega arith)
heaviest_loop-heaviest (suc fuel) table p m (child_of_init {task} {parent} e up is) fits =
    rw (e, up, eq_true is) (ap some (if_pid (ltb m.weight parent.weight) parent m))
heaviest_loop-heaviest (suc fuel) table p m (descends {task} {parent} {xs} e up ne l) fits =
    elim (dec_lt m.weight parent.weight) [
      | yes lt ↦
          rw (e, up, eq_false ne, ltb-true lt)
            (heaviest_loop-heaviest fuel table task.real_parent parent l (omega arith))
      | no ge ↦
          let le : parent.weight ≤ m.weight = omega arith in
          rw (e, up, eq_false ne, ltb-false le)
            (heaviest_loop-heaviest fuel table task.real_parent m l (omega arith))
    ]

-- For a process below init whose ancestors up to init are `xs`, the loop ends within as many rounds
-- as there are ancestors, and the answer is the pid of the first of the heaviest among the process
-- and its ancestors.
pub sys_get_heaviest_ancestor-Heaviest :
    (fuel : ℕ) (table : Table) (current : TaskPtr) {task : Task} {xs : List Task}
    → table current ≡ some task
    → Lineage table current xs
    → length xs ≤ fuel
    → (best : Task) × (sys_get_heaviest_ancestor fuel current table ≡ some best.pid)
      × Heaviest (task ∷ xs) best
unfolding sys_get_heaviest_ancestor
sys_get_heaviest_ancestor-Heaviest fuel table current {task} {xs} e l fits = (
  heaviest task xs,
  rw (e, heaviest_loop-heaviest fuel table current task l fits),
  heaviest-Heaviest task xs,
)

-- The way up from `p` meets no parent of pid 1, up to a task that is its own parent, as the idle
-- process is.
pub data Outside (table : Table) : TaskPtr → Type 0 where
  below_root :
      {p : TaskPtr} {task root : Task}
      → table p ≡ some task
      → table task.real_parent ≡ some root
      → root.real_parent ≡ task.real_parent
      → root.pid ≢ init_pid
      → Outside table p
  further_down :
      {p : TaskPtr} {task parent : Task}
      → table p ≡ some task
      → table task.real_parent ≡ some parent
      → parent.pid ≢ init_pid
      → Outside table task.real_parent
      → Outside table p

root_loop :
    (fuel : ℕ) (table : Table) (p : TaskPtr) {task root : Task} (max_weight max_pid : ℕ)
    → table p ≡ some task
    → table task.real_parent ≡ some root
    → root.real_parent ≡ task.real_parent
    → root.pid ≢ init_pid
    → heaviest_loop fuel table p max_weight max_pid ≡ none
unfolding heaviest_loop
root_loop zero table p max_weight max_pid e up self ne = refl
root_loop (suc fuel) table p {task} {root} max_weight max_pid e up self ne =
    rw (e, up, eq_false ne)
      (root_loop fuel table task.real_parent _ _ up (ap table self ∙ up) refl ne)

Outside-loop :
    (fuel : ℕ) (table : Table) (p : TaskPtr) (max_weight max_pid : ℕ)
    → Outside table p
    → heaviest_loop fuel table p max_weight max_pid ≡ none
unfolding heaviest_loop
Outside-loop zero table p max_weight max_pid (below_root e up self ne) = refl
Outside-loop zero table p max_weight max_pid (further_down e up ne o) = refl
Outside-loop (suc fuel) table p max_weight max_pid (below_root e up self ne) =
    root_loop (suc fuel) table p max_weight max_pid e up self ne
Outside-loop (suc fuel) table p max_weight max_pid (further_down {task} e up ne o) =
    rw (e, up, eq_false ne) (Outside-loop fuel table task.real_parent _ _ o)

-- A process gets no answer, whatever the number of rounds, if no task above it has pid 1 and the
-- way up ends at a task that is its own parent: so for init itself, for the idle process, and for
-- the kernel threads at every depth. The loop never ends.
pub sys_get_heaviest_ancestor-no_end :
    (fuel : ℕ) (table : Table) (current : TaskPtr) {task : Task}
    → table current ≡ some task
    → Outside table current
    → sys_get_heaviest_ancestor fuel current table ≡ none
unfolding sys_get_heaviest_ancestor
sys_get_heaviest_ancestor-no_end fuel table current {task} e o =
    rw e (Outside-loop fuel table current task.weight task.pid o)
