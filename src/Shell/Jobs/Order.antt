-- ===== src/Shell/Jobs/Order.antt =====
-- HW1/JobsList.cpp: lists of jobs in the order of their identifiers.
use operating_system_whw.Common.{
  ◌≤◌, ◌≢◌, ◌≡◌, ◌∷◌, ◌<◌, ◌++◌, ℕ, refl, inr, inl, if◌then◌else◌, arith, [], List, Bool-cases,
  Bool,
}
use operating_system_whw.Shell.Jobs.{JobEntry, JobsList}

-- The identifiers go up, from above `n` on.
abbrev pub Above : ℕ → List JobEntry → Type 0
Above n [] = Unit
Above n (job ∷ jobs) = (n < job.job_id) × Above job.job_id jobs

-- The identifier of the last job; `n` where there is none.
abbrev pub last_id : ℕ → List JobEntry → ℕ
last_id n [] = n
last_id n (job ∷ jobs) = last_id job.job_id jobs

-- The list is in order, and the counter is the last identifier, 0 at an empty list.
abbrev pub IsOrdered : JobsList → Type 0
IsOrdered l = Above 0 l.jobs × (l.max_job_id ≡ last_id 0 l.jobs)

-- No job has the identifier.
abbrev pub Lacks : ℕ → List JobEntry → Type 0
Lacks i [] = Unit
Lacks i (job ∷ jobs) = (job.job_id ≢ i) × Lacks i jobs

-- Without the first job that passes the test.
unfoldable pub remove_first : (JobEntry → Bool) → List JobEntry → List JobEntry
remove_first test [] = []
remove_first test (job ∷ jobs) = if test job then jobs else job ∷ remove_first test jobs

pub last_id-append :
    (n : ℕ) (jobs : List JobEntry) (job : JobEntry) → last_id n (jobs ++ (job ∷ [])) ≡ job.job_id
last_id-append n [] job = refl
last_id-append n (k ∷ jobs) job = last_id-append k.job_id jobs job

pub last_id-append_cons :
    (n : ℕ) (xs ys : List JobEntry) (job : JobEntry)
    → last_id n (xs ++ (job ∷ ys)) ≡ last_id job.job_id ys
last_id-append_cons n [] ys job = refl
last_id-append_cons n (k ∷ xs) ys job = last_id-append_cons k.job_id xs ys job

pub last_id-append_nil : (n : ℕ) (xs : List JobEntry) → last_id n (xs ++ []) ≡ last_id n xs
last_id-append_nil n [] = refl
last_id-append_nil n (k ∷ xs) = last_id-append_nil k.job_id xs

pub last_id-le : (n : ℕ) (jobs : List JobEntry) → Above n jobs → n ≤ last_id n jobs
last_id-le n [] h = omega arith
last_id-le n (job ∷ jobs) h = omega (arith, last_id-le job.job_id jobs h.1)

-- A larger start, where there is a job.
pub Above-weaken : (m n : ℕ) (jobs : List JobEntry) → m ≤ n → Above n jobs → Above m jobs
Above-weaken m n [] le h = h
Above-weaken m n (job ∷ jobs) le h = (omega arith, h.1)

pub Above-append :
    (n : ℕ) (jobs : List JobEntry) (job : JobEntry)
    → Above n jobs
    → last_id n jobs < job.job_id
    → Above n (jobs ++ (job ∷ []))
Above-append n [] job h lt = (lt, _)
Above-append n (k ∷ jobs) job h lt = (h.0, Above-append k.job_id jobs job h.1 lt)

pub Above-Lacks : (n i : ℕ) (jobs : List JobEntry) → i ≤ n → Above n jobs → Lacks i jobs
Above-Lacks n i [] le h = h
Above-Lacks n i (job ∷ jobs) le h = (omega arith, Above-Lacks job.job_id i jobs (omega arith) h.1)

pub Lacks-last : (n i : ℕ) (jobs : List JobEntry) → Above n jobs → last_id n jobs < i → Lacks i jobs
Lacks-last n i [] h lt = _
Lacks-last n i (job ∷ jobs) h lt =
    (omega (arith, last_id-le job.job_id jobs h.1), Lacks-last job.job_id i jobs h.1 lt)

pub Above-remove_first :
    (test : JobEntry → Bool) (n : ℕ) (jobs : List JobEntry)
    → Above n jobs
    → Above n (remove_first test jobs)
unfolding remove_first
Above-remove_first test n [] h = h
Above-remove_first test n (job ∷ jobs) h = elim (Bool-cases (test job)) [
  | inl e ↦ rw e (Above-weaken n job.job_id jobs (omega arith) h.1)
  | inr e ↦ rw e (h.0, Above-remove_first test job.job_id jobs h.1)
]
