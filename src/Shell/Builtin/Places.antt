-- ===== src/Shell/Builtin/Places.antt =====
-- HW1/BackgroundCommand.cpp: the place of a job that is resumed in the background.
use operating_system_whw.Shell.Trace.{kill, Bytes}
use operating_system_whw.Shell.Jobs.Twice.{
  replace_first-twice, find_job-replace_first, Above-replace_first,
}
use operating_system_whw.Shell.Jobs.Replace.{replace_first, put_back-jobs}
use operating_system_whw.Shell.Jobs.Order.{Above}
use operating_system_whw.Shell.Jobs.Insert.{entry}
use operating_system_whw.Shell.Jobs.{has_pid, find_job, JobsList, JobEntry}
use operating_system_whw.Shell.Builtin.Foreground.{are_params_valid}
use operating_system_whw.Shell.Builtin.Background.{
  resume_in_background, put_back, get_background_job, background,
}
use operating_system_whw.Common.{
  ◌≡◌, ◌∙◌, ℕ, true, sym, some, refl, not, inr, inl, false, eq_true, ap, List, Bool-cases, Bool,
}
use mathlib.Core.Path.{subst}
use operating_system_whw.Shell.State.{System, Shell}

put_back-place :
    (job : JobEntry) (is_stopped : Bool) (now : ℕ) (l : JobsList)
    → Above 0 l.jobs
    → find_job (has_pid job.pid) l.jobs ≡ some job
    → (put_back is_stopped now job l).jobs
      ≡ replace_first (has_pid job.pid) (entry job.job_id job.pid job.command is_stopped now) l.jobs
unfolding put_back
put_back-place job is_stopped now l h found = put_back-jobs job is_stopped now l h found

put_back-twice :
    (job : JobEntry) (now : ℕ) (l : JobsList)
    → Above 0 l.jobs
    → find_job (has_pid job.pid) l.jobs ≡ some job
    → (put_back true now job (put_back false now job l)).jobs
      ≡ replace_first (has_pid job.pid) (entry job.job_id job.pid job.command true now) l.jobs
unfolding put_back
put_back-twice job now l h found =
    let test = has_pid job.pid in
    let new : JobEntry = entry job.job_id job.pid job.command false now in
    let newer : JobEntry = entry job.job_id job.pid job.command true now in
    let passes : has_pid job.pid new ≡ true = eq_true {a = job.pid} refl in
    let first = put_back-place job false now l h found in
    put_back-place new true now (put_back false now job l)
      (subst (Above 0) (sym first)
        (Above-replace_first (has_pid job.pid) new job 0 l.jobs h found refl))
      (subst (λ (zs : List JobEntry). find_job (has_pid job.pid) zs ≡ some new) (sym first)
        (find_job-replace_first (has_pid job.pid) new job l.jobs passes found))
    ∙ (ap (replace_first (has_pid job.pid) newer) first
        ∙ replace_first-twice (has_pid job.pid) new newer l.jobs passes)

resume_in_background-place :
    (sys : System) (job : JobEntry) (s : Shell)
    → Above 0 s.jobs_list.jobs
    → find_job (has_pid job.pid) s.jobs_list.jobs ≡ some job
    → (resume_in_background sys job s).jobs_list.jobs
      ≡ replace_first
          (has_pid job.pid)
          (entry job.job_id job.pid job.command (not (sys.works (kill job.pid 18))) sys.now)
          s.jobs_list.jobs
unfolding resume_in_background
resume_in_background-place sys job s h found = elim (Bool-cases (sys.works (kill job.pid 18))) [
  | inl e ↦ rw e (put_back-place job false sys.now s.jobs_list h found)
  | inr e ↦ rw e (put_back-twice job sys.now s.jobs_list h found)
]

-- `bg` of a stopped job, with valid arguments, at a list in order in which the job is the first
-- with its pid: the job keeps its identifier and its place, and runs if SIGCONT was sent, or stays
-- stopped if not. The other jobs are as they were.
pub background-Place :
    (sys : System) (args : List Bytes) (job : JobEntry) (s : Shell)
    → are_params_valid args ≡ true
    → (get_background_job args s.jobs_list).0 ≡ some job
    → job.is_stopped ≡ true
    → Above 0 s.jobs_list.jobs
    → find_job (has_pid job.pid) s.jobs_list.jobs ≡ some job
    → (background sys args s).jobs_list.jobs
      ≡ replace_first
          (has_pid job.pid)
          (entry job.job_id job.pid job.command (not (sys.works (kill job.pid 18))) sys.now)
          s.jobs_list.jobs
unfolding background
background-Place sys args job s valid got stopped h found =
    rw valid (rw got (simp stopped (resume_in_background-place sys job s h found)))
