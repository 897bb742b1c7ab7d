-- ===== src/Shell/Jobs/Insert.antt =====
-- HW1/JobsList.cpp: `addJob`, at a list in order.
use operating_system_whw.Shell.Trace.{Bytes}
use operating_system_whw.Shell.Jobs.Order.{last_id-le, last_id, IsOrdered, Above, Lacks}
use operating_system_whw.Common.{
  ◌≤◌, ◌≡◌, ◌∷◌, ◌<◌, ◌&&◌, ℕ, refl, ltb-true, ltb-false, ltb, inr, inl, if◌then◌else◌, false,
  arith, ap, [], List, Bool-cases, Bool,
}
use native.Mathlib.Decide.{dec_lt}
use operating_system_whw.Shell.Jobs.{
  starts_above, insert_loop, fits_before, add_job_with_id, JobEntry, JobsList,
}

-- Insertion before the first job with a larger identifier.
unfoldable pub insert_sorted : JobEntry → List JobEntry → List JobEntry
insert_sorted new [] = new ∷ []
insert_sorted new (job ∷ jobs) =
    if ltb new.job_id job.job_id then new ∷ job ∷ jobs else job ∷ insert_sorted new jobs

abbrev pub entry : (job_id pid : ℕ) → (command : Bytes) → (is_stopped : Bool) → (now : ℕ) → JobEntry
entry job_id pid command is_stopped now = record {
  start_time = now;
  pid = pid;
  job_id = job_id;
  command = command;
  is_stopped = is_stopped;
}

-- The counter: it is raised in a list of two jobs or more only.
abbrev pub raised : (job_id : ℕ) → List JobEntry → (max : ℕ) → ℕ
raised job_id (_ ∷ _ ∷ _) max = if ltb max job_id then job_id else max
raised job_id _ max = max

insert_loop-jobs :
    (new job : JobEntry) (jobs : List JobEntry) (max : ℕ)
    → job.job_id < new.job_id
    → Lacks new.job_id jobs
    → (insert_loop new (job ∷ jobs) max).0 ≡ job ∷ insert_sorted new jobs
unfolding insert_loop insert_sorted
insert_loop-jobs new job [] max lt h = rw (ltb-true lt) refl
insert_loop-jobs new job (k ∷ jobs) max lt h = elim (dec_lt new.job_id k.job_id) [
  | yes before ↦ rw (ltb-true before) (rw (ltb-true lt) refl)
  | no later ↦
      let after : k.job_id < new.job_id = ground (arith, h.0, later) in
      let rest =
        insert_loop-jobs new k jobs (if ltb new.job_id max then max else new.job_id) after h.1 in
      let test : ltb new.job_id k.job_id ≡ false = ltb-false (omega (arith, after)) in
      rw test (ap (λ zs. job ∷ zs) rest)
]

-- A counter above the new identifier, or equal to it, stays.
insert_loop-max_low :
    (new : JobEntry) (jobs : List JobEntry) (max : ℕ)
    → new.job_id ≤ max
    → (insert_loop new jobs max).1 ≡ max
unfolding insert_loop
insert_loop-max_low new [] max le = refl
insert_loop-max_low new (job ∷ jobs) max le =
    elim (Bool-cases (fits_before jobs new.job_id && ltb job.job_id new.job_id)) [
      | inl e ↦ rw e refl
      | inr e ↦
          let stays : (if ltb new.job_id max then max else new.job_id) ≡ max = ground (arith, le) in
          rw e (rw stays (insert_loop-max_low new jobs max le))
    ]

insert_loop-max_high :
    (new job k : JobEntry) (jobs : List JobEntry) (max : ℕ)
    → k.job_id < new.job_id
    → max < new.job_id
    → (insert_loop new (job ∷ k ∷ jobs) max).1 ≡ new.job_id
unfolding insert_loop
insert_loop-max_high new job k jobs max after low =
    let skip : ltb new.job_id k.job_id ≡ false = ltb-false (omega (arith, after)) in
    let up : ltb new.job_id max ≡ false = ltb-false (omega (arith, low)) in
    rw (skip, up) (insert_loop-max_low new (k ∷ jobs) new.job_id (omega arith))

-- The counter after the loop, at a list in order of which `max` is the last identifier.
insert_loop-max :
    (new job : JobEntry) (jobs : List JobEntry) (max : ℕ)
    → Above job.job_id jobs
    → Lacks new.job_id jobs
    → job.job_id < new.job_id
    → max ≡ last_id job.job_id jobs
    → (insert_loop new (job ∷ jobs) max).1 ≡ raised new.job_id (job ∷ jobs) max
unfolding insert_loop
insert_loop-max new job [] max above h lt e = rw (ltb-true lt) refl
insert_loop-max new job (k ∷ jobs) max above h lt e = elim (dec_lt max new.job_id) [
  | yes low ↦
      let after : k.job_id < new.job_id = omega (arith, last_id-le k.job_id jobs above.1, e, low) in
      rw (ltb-true low) (insert_loop-max_high new job k jobs max after low)
  | no high ↦
      let le : new.job_id ≤ max = omega (arith, high) in
      rw (ltb-false le) (insert_loop-max_low new (job ∷ k ∷ jobs) max le)
]

-- An identifier below the first is below the last.
not_raised :
    (i : ℕ) (job : JobEntry) (jobs : List JobEntry) (max : ℕ)
    → i < job.job_id
    → Above job.job_id jobs
    → max ≡ last_id job.job_id jobs
    → raised i (job ∷ jobs) max ≡ max
not_raised i job [] max lt above e = refl
not_raised i job (k ∷ jobs) max lt above e =
    rw
      (ltb-false {a = max} {b = i}
        (omega (arith, last_id-le k.job_id jobs above.1, above.0, e, lt)))
      refl

with_counter : List JobEntry → ℕ → JobsList
with_counter jobs max = record { jobs = jobs; max_job_id = max }

inserted_jobs :
    (new : JobEntry) (jobs : List JobEntry) (max : ℕ)
    → Lacks new.job_id jobs
    → (if starts_above jobs new.job_id
        then with_counter (new ∷ jobs) max
        else with_counter (insert_loop new jobs max).0 (insert_loop new jobs max).1).jobs
      ≡ insert_sorted new jobs
unfolding insert_sorted with_counter
inserted_jobs new [] max lacks = refl
inserted_jobs new (job ∷ jobs) max lacks = elim (dec_lt new.job_id job.job_id) [
  | yes before ↦ rw (ltb-true before) refl
  | no later ↦
      let after : job.job_id < new.job_id = ground (arith, lacks.0, later) in
      rw (ltb-false {a = new.job_id} {b = job.job_id} (omega (arith, after)))
        (insert_loop-jobs new job jobs max after lacks.1)
]

-- Of a list in any order.
pub add_job_with_id-jobs :
    (job_id pid : ℕ) (command : Bytes) (is_stopped : Bool) (now : ℕ) (l : JobsList)
    → Lacks job_id l.jobs
    → (add_job_with_id job_id pid command is_stopped now l).jobs
      ≡ insert_sorted (entry job_id pid command is_stopped now) l.jobs
unfolding add_job_with_id with_counter
add_job_with_id-jobs job_id pid command is_stopped now l lacks =
    inserted_jobs (entry job_id pid command is_stopped now) l.jobs l.max_job_id lacks

inserted_into :
    (new : JobEntry) (jobs : List JobEntry) (max : ℕ)
    → Above 0 jobs
    → max ≡ last_id 0 jobs
    → Lacks new.job_id jobs
    → (if starts_above jobs new.job_id
        then with_counter (new ∷ jobs) max
        else with_counter (insert_loop new jobs max).0 (insert_loop new jobs max).1)
      ≡ with_counter (insert_sorted new jobs) (raised new.job_id jobs max)
unfolding insert_sorted
inserted_into new [] max above e lacks = refl
inserted_into new (job ∷ jobs) max above e lacks = elim (dec_lt new.job_id job.job_id) [
  | yes before ↦
      rw (ltb-true before) (rw (not_raised new.job_id job jobs max before above.1 e) refl)
  | no later ↦
      let after : job.job_id < new.job_id = ground (arith, lacks.0, later) in
      let test : ltb new.job_id job.job_id ≡ false = ltb-false (omega (arith, after)) in
      rw test (
        cc (
          insert_loop-jobs new job jobs max after lacks.1,
          insert_loop-max new job jobs max above.1 lacks.1 after e,
        ))
]

-- `addJob` of an identifier that no job has, at a list in order, inserts before the first job with
-- a larger identifier.
pub add_job_with_id-Inserted :
    (job_id pid : ℕ) (command : Bytes) (is_stopped : Bool) (now : ℕ) (l : JobsList)
    → IsOrdered l
    → Lacks job_id l.jobs
    → add_job_with_id job_id pid command is_stopped now l ≡ record {
      jobs = insert_sorted (entry job_id pid command is_stopped now) l.jobs;
      max_job_id = raised job_id l.jobs l.max_job_id;
    }
unfolding add_job_with_id with_counter
add_job_with_id-Inserted job_id pid command is_stopped now l h lacks =
    inserted_into (entry job_id pid command is_stopped now) l.jobs l.max_job_id h.0 h.1 lacks
