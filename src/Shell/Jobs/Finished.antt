-- ===== src/Shell/Jobs/Finished.antt =====
-- HW1/JobsList.cpp: `removeFinishedJobs`, at a list in order.
use mathlib.Core.Path.{subst}
use operating_system_whw.Shell.Jobs.Removal.{
  remove_job_by_id-removed, ordered-eta, append-assoc_one, ordered,
}
use operating_system_whw.Shell.Jobs.Order.{IsOrdered, remove_first, Lacks, Above-weaken, Above}
use operating_system_whw.Common.{
  true, ◌∙◌, sym, ◌≡◌, ◌∷◌, ◌==◌, ◌<◌, ◌++◌, ℤ, ℕ, refl, pos, not, negsuc, inr, inl, if◌then◌else◌,
  false, eq_true, eq_false, arith, ap, [], List, Bool-cases, Bool,
}
use operating_system_whw.Shell.Jobs.{
  remove_finished_jobs, remove_each, has_id, collect_finished, JobEntry, JobsList,
}

-- `waitpid` with WNOHANG answers the pid of the job, which is above 0.
abbrev pub is_finished : (waitpid : ℕ → ℤ) → JobEntry → Bool
is_finished waitpid job = elim (waitpid job.pid) [
  | pos status ↦ not (status == 0)
  | negsuc _ ↦ false
]

unfoldable pub keep_running : (waitpid : ℕ → ℤ) → List JobEntry → List JobEntry
keep_running waitpid [] = []
keep_running waitpid (job ∷ jobs) =
    if is_finished waitpid job then keep_running waitpid jobs else job ∷ keep_running waitpid jobs

collect_finished-true :
    (waitpid : ℕ → ℤ) (job : JobEntry) (jobs : List JobEntry)
    → is_finished waitpid job ≡ true
    → (collect_finished waitpid (job ∷ jobs)).0 ≡ job ∷ (collect_finished waitpid jobs).0
unfolding collect_finished
collect_finished-true waitpid job jobs e = ground arith

collect_finished-false :
    (waitpid : ℕ → ℤ) (job : JobEntry) (jobs : List JobEntry)
    → is_finished waitpid job ≡ false
    → (collect_finished waitpid (job ∷ jobs)).0 ≡ (collect_finished waitpid jobs).0
unfolding collect_finished
collect_finished-false waitpid job jobs e = ground arith

before :
    (n : ℕ) (xs ys : List JobEntry) (job : JobEntry) → Above n (xs ++ (job ∷ ys)) → n < job.job_id
before n [] ys job h = h.0
before n (x ∷ xs) ys job h = omega (arith, before x.job_id xs ys job h.1, h.0)

Lacks-before :
    (n : ℕ) (xs ys : List JobEntry) (job : JobEntry)
    → Above n (xs ++ (job ∷ ys))
    → Lacks job.job_id xs
Lacks-before n [] ys job h = _
Lacks-before n (x ∷ xs) ys job h =
    (λ e. omega (arith, before x.job_id xs ys job h.1, e), Lacks-before x.job_id xs ys job h.1)

Above-without :
    (n : ℕ) (xs ys : List JobEntry) (job : JobEntry)
    → Above n (xs ++ (job ∷ ys))
    → Above n (xs ++ ys)
Above-without n [] ys job h = Above-weaken n job.job_id ys (omega (arith, h.0)) h.1
Above-without n (x ∷ xs) ys job h = (h.0, Above-without x.job_id xs ys job h.1)

remove_first-middle :
    (xs ys : List JobEntry) (job : JobEntry)
    → Lacks job.job_id xs
    → remove_first (has_id job.job_id) (xs ++ (job ∷ ys)) ≡ xs ++ ys
unfolding remove_first
remove_first-middle [] ys job lacks = rw (eq_true {a = job.job_id} refl) refl
remove_first-middle (x ∷ xs) ys job lacks =
    rw (eq_false lacks.0) (ap (λ zs. x ∷ zs) (remove_first-middle xs ys job lacks.1))

remove_each-collected :
    (waitpid : ℕ → ℤ) (xs jobs : List JobEntry)
    → Above 0 (xs ++ jobs)
    → remove_each (collect_finished waitpid jobs).0 (ordered (xs ++ jobs))
      ≡ ordered (xs ++ keep_running waitpid jobs)
unfolding remove_each keep_running collect_finished
remove_each-collected waitpid xs [] h = refl
remove_each-collected waitpid xs (job ∷ jobs) h = elim (Bool-cases (is_finished waitpid job)) [
  | inl e ↦
      let whole : Above 0 (xs ++ jobs) = Above-without 0 xs jobs job h in
      let removed = remove_job_by_id-removed job.job_id (ordered (xs ++ (job ∷ jobs))) (h, refl) in
      let middle = remove_first-middle xs jobs job (Lacks-before 0 xs jobs job h) in
      rw e (
        ap (λ (c : List JobEntry). remove_each c (ordered (xs ++ (job ∷ jobs))))
          (collect_finished-true waitpid job jobs e)
        ∙ (ap (remove_each (collect_finished waitpid jobs).0) (removed ∙ ap ordered middle)
            ∙ remove_each-collected waitpid xs jobs whole))
  | inr e ↦
      let whole = append-assoc_one xs jobs job in
      let after = append-assoc_one xs (keep_running waitpid jobs) job in
      rw e (
        ap (λ (c : List JobEntry). remove_each c (ordered (xs ++ (job ∷ jobs))))
          (collect_finished-false waitpid job jobs e)
        ∙ (ap (λ (zs : List JobEntry). remove_each (collect_finished waitpid jobs).0 (ordered zs))
              (sym whole)
            ∙ (remove_each-collected waitpid (xs ++ (job ∷ [])) jobs (rw whole h)
                ∙ ap ordered after)))
]

-- `removeFinishedJobs`, at a list in order, keeps the jobs that `waitpid` does not report, in
-- order, and leaves the counter that fits them.
pub remove_finished_jobs-Kept :
    (waitpid : ℕ → ℤ) (l : JobsList)
    → IsOrdered l
    → (remove_finished_jobs waitpid l).0 ≡ ordered (keep_running waitpid l.jobs)
unfolding remove_finished_jobs
remove_finished_jobs-Kept waitpid l h =
    ap (remove_each (collect_finished waitpid l.jobs).0) (ordered-eta l h)
    ∙ remove_each-collected waitpid [] l.jobs h.0

Above-keep_running :
    (waitpid : ℕ → ℤ) (n : ℕ) (jobs : List JobEntry)
    → Above n jobs
    → Above n (keep_running waitpid jobs)
unfolding keep_running
Above-keep_running waitpid n [] h = h
Above-keep_running waitpid n (job ∷ jobs) h = elim (Bool-cases (is_finished waitpid job)) [
  | inl e ↦ rw e (
      Above-weaken n job.job_id (keep_running waitpid jobs) (omega (arith, h.0))
        (Above-keep_running waitpid job.job_id jobs h.1))
  | inr e ↦ rw e (h.0, Above-keep_running waitpid job.job_id jobs h.1)
]

pub remove_finished_jobs-IsOrdered :
    (waitpid : ℕ → ℤ) (l : JobsList) → IsOrdered l → IsOrdered (remove_finished_jobs waitpid l).0
remove_finished_jobs-IsOrdered waitpid l h =
    subst IsOrdered (sym (remove_finished_jobs-Kept waitpid l h))
      (Above-keep_running waitpid 0 l.jobs h.0, refl)
