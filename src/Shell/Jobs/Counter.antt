-- ===== src/Shell/Jobs/Counter.antt =====
-- HW1/JobsList.cpp: the counter that `addJob` leaves, at a list in order.
use operating_system_whw.Shell.Jobs.Insert.{raised, insert_sorted, entry, add_job_with_id-Inserted}
use mathlib.Core.Path.{subst}
use operating_system_whw.Shell.Trace.{Bytes}
use operating_system_whw.Shell.Jobs.Order.{last_id-le, last_id, IsOrdered, Above, Lacks}
use operating_system_whw.Common.{
  ◌≢◌, ◌∙◌, ◌⊎◌, sym, length, ◌≤◌, ◌≡◌, ◌∷◌, ◌<◌, ℕ, refl, ltb-true, ltb-false, inr, inl, arith, ap,
  [], List, Bool,
}
use native.Mathlib.Decide.{dec_lt}
use operating_system_whw.Shell.Jobs.{add_job_with_id, JobEntry, JobsList}

pub Above-insert_sorted :
    (new : JobEntry) (n : ℕ) (jobs : List JobEntry)
    → n < new.job_id
    → Lacks new.job_id jobs
    → Above n jobs
    → Above n (insert_sorted new jobs)
unfolding insert_sorted
Above-insert_sorted new n [] lt lacks h = (lt, _)
Above-insert_sorted new n (job ∷ jobs) lt lacks h = elim (dec_lt new.job_id job.job_id) [
  | yes before ↦ rw (ltb-true before) (lt, (before, h.1))
  | no later ↦
      let after : job.job_id < new.job_id = ground (arith, lacks.0, later) in
      rw (ltb-false {a = new.job_id} {b = job.job_id} (omega (arith, after)))
        (h.0, Above-insert_sorted new job.job_id jobs after lacks.1 h.1)
]

-- Insertion below the last identifier.
pub last_id-insert_sorted :
    (new : JobEntry) (n : ℕ) (jobs : List JobEntry)
    → new.job_id < last_id n jobs
    → n < new.job_id
    → Lacks new.job_id jobs
    → Above n jobs
    → last_id n (insert_sorted new jobs) ≡ last_id n jobs
unfolding insert_sorted
last_id-insert_sorted new n [] low lt lacks h = absurd (omega (arith, low, lt))
last_id-insert_sorted new n (job ∷ jobs) low lt lacks h = elim (dec_lt new.job_id job.job_id) [
  | yes before ↦ rw (ltb-true before) refl
  | no later ↦
      let after : job.job_id < new.job_id = ground (arith, lacks.0, later) in
      rw (ltb-false {a = new.job_id} {b = job.job_id} (omega (arith, after)))
        (last_id-insert_sorted new job.job_id jobs low after lacks.1 h.1)
]

-- And above it.
pub last_id-insert_sorted_last :
    (new : JobEntry) (n : ℕ) (jobs : List JobEntry)
    → last_id n jobs < new.job_id
    → Above n jobs
    → last_id n (insert_sorted new jobs) ≡ new.job_id
unfolding insert_sorted
last_id-insert_sorted_last new n [] high h = refl
last_id-insert_sorted_last new n (job ∷ jobs) high h =
    rw
      (ltb-false {a = new.job_id} {b = job.job_id}
        (omega (arith, last_id-le job.job_id jobs h.1, high)))
      (last_id-insert_sorted_last new job.job_id jobs high h.1)

last_id-ne : (n i : ℕ) (jobs : List JobEntry) → n ≢ i → Lacks i jobs → last_id n jobs ≢ i
last_id-ne n i [] ne lacks = ne
last_id-ne n i (job ∷ jobs) ne lacks = last_id-ne job.job_id i jobs lacks.0 lacks.1

raised-low : (i : ℕ) (jobs : List JobEntry) (max : ℕ) → i ≤ max → raised i jobs max ≡ max
raised-low i [] max le = refl
raised-low i (job ∷ []) max le = refl
raised-low i (job ∷ k ∷ jobs) max le = rw (ltb-false le) refl

raised-high :
    (i : ℕ) (jobs : List JobEntry) (max : ℕ) → max < i → 1 < length jobs → raised i jobs max ≡ i
raised-high i [] max lt room = absurd (omega (arith, room))
raised-high i (job ∷ []) max lt room = absurd (omega (arith, room))
raised-high i (job ∷ k ∷ jobs) max lt room = rw (ltb-true lt) refl

raised-last :
    (new : JobEntry) (jobs : List JobEntry)
    → Above 0 jobs
    → Lacks new.job_id jobs
    → 0 < new.job_id
    → (new.job_id < last_id 0 jobs) ⊎ (1 < length jobs)
    → raised new.job_id jobs (last_id 0 jobs) ≡ last_id 0 (insert_sorted new jobs)
raised-last new jobs above lacks lt room = elim (dec_lt new.job_id (last_id 0 jobs)) [
  | yes low ↦
      raised-low new.job_id jobs (last_id 0 jobs) (omega (arith, low))
      ∙ sym (last_id-insert_sorted new 0 jobs low lt lacks above)
  | no high ↦
      let size : 1 < length jobs = elim room [ inl low ↦ absurd (high low) | inr more ↦ more ] in
      let up : last_id 0 jobs < new.job_id =
        ground (arith, high, last_id-ne 0 new.job_id jobs (λ e. omega (arith, e, lt)) lacks) in
      raised-high new.job_id jobs (last_id 0 jobs) up size
      ∙ sym (last_id-insert_sorted_last new 0 jobs up above)
]

-- The list stays in order, unless a last identifier comes to a list of one job or none.
pub add_job_with_id-IsOrdered :
    (job_id pid : ℕ) (command : Bytes) (is_stopped : Bool) (now : ℕ) (l : JobsList)
    → IsOrdered l
    → Lacks job_id l.jobs
    → 0 < job_id
    → (job_id < last_id 0 l.jobs) ⊎ (1 < length l.jobs)
    → IsOrdered (add_job_with_id job_id pid command is_stopped now l)
add_job_with_id-IsOrdered job_id pid command is_stopped now l h lacks lt room =
    let new : JobEntry = entry job_id pid command is_stopped now in
    subst IsOrdered (sym (add_job_with_id-Inserted job_id pid command is_stopped now l h lacks)) (
      Above-insert_sorted new 0 l.jobs lt lacks h.0,
      ap (raised job_id l.jobs) h.1 ∙ raised-last new l.jobs h.0 lacks lt room,
    )
