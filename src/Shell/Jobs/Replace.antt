-- ===== src/Shell/Jobs/Replace.antt =====
-- HW1/JobsList.cpp: a job that is removed and added again with its identifier.
use operating_system_whw.Shell.Jobs.Removal.{erase_at-append, append-assoc_one}
use operating_system_whw.Shell.Jobs.Order.{Above-Lacks, remove_first, Lacks, Above}
use operating_system_whw.Shell.Jobs.Insert.{add_job_with_id-jobs, entry, insert_sorted}
use operating_system_whw.Common.{
  ◌≢◌, true, sym, ltb-false, false, ap, ◌≤◌, ◌≡◌, ◌∷◌, ◌∙◌, ◌<◌, ◌+◌, ◌++◌, ℕ, some, refl, ltb-true,
  length-append, length, inr, inl, if◌then◌else◌, arith, [], List, Bool-cases, Bool,
}
use mathlib.Core.Path.{subst}
use operating_system_whw.Shell.Jobs.{
  add_job_with_id, remove_loop, remove_job_by_pid, has_pid, find_job, erase_job, JobEntry, JobsList,
}

-- The new job in the place of the first that passes the test.
unfoldable pub replace_first : (JobEntry → Bool) → JobEntry → List JobEntry → List JobEntry
replace_first test new [] = []
replace_first test new (job ∷ jobs) =
    if test job then new ∷ jobs else job ∷ replace_first test new jobs

-- Whatever the counter is.
remove_loop-jobs :
    (test : JobEntry → Bool) (xs rest : List JobEntry) (max : ℕ)
    → (remove_loop test (length xs) rest (record { jobs = xs ++ rest; max_job_id = max })).jobs
      ≡ xs ++ remove_first test rest
unfolding remove_loop remove_first erase_job
remove_loop-jobs test xs [] max = refl
remove_loop-jobs test xs (job ∷ rest) max = elim (Bool-cases (test job)) [
  | inl e ↦ rw e (erase_at-append xs rest job)
  | inr e ↦
      let size : length (xs ++ (job ∷ [])) ≡ length xs + 1 =
        omega (arith, length-append xs (job ∷ [])) in
      let whole = append-assoc_one xs rest job in
      let after = append-assoc_one xs (remove_first test rest) job in
      let ih = remove_loop-jobs test (xs ++ (job ∷ [])) rest max in
      rw e (
        subst
          (λ n.
            (remove_loop test n rest (record { jobs = xs ++ (job ∷ rest); max_job_id = max })).jobs
            ≡ xs ++ (job ∷ remove_first test rest))
          size
          (subst
            (λ zs.
              (remove_loop test (length (xs ++ (job ∷ []))) rest
                (record { jobs = zs; max_job_id = max })).jobs
              ≡ xs ++ (job ∷ remove_first test rest))
            whole (ih ∙ after)))
]

pub remove_job_by_pid-jobs :
    (pid : ℕ) (l : JobsList) → (remove_job_by_pid pid l).jobs ≡ remove_first (has_pid pid) l.jobs
unfolding remove_job_by_pid
remove_job_by_pid-jobs pid l = remove_loop-jobs (has_pid pid) [] l.jobs l.max_job_id

pub found-here :
    (test : JobEntry → Bool) (k job : JobEntry) (jobs : List JobEntry)
    → test k ≡ true
    → find_job test (k ∷ jobs) ≡ some job
    → k ≡ job
unfolding find_job
found-here test k job jobs e found = let now : some k ≡ some job = rw e at found in (cc)

pub found-later :
    (test : JobEntry → Bool) (k job : JobEntry) (jobs : List JobEntry)
    → test k ≡ false
    → find_job test (k ∷ jobs) ≡ some job
    → find_job test jobs ≡ some job
unfolding find_job
found-later test k job jobs e found = rw e at found

pub not-found : (test : JobEntry → Bool) (job : JobEntry) → find_job test [] ≢ some job
unfolding find_job
not-found test job e = absurd (cc)

pub found-Above :
    (test : JobEntry → Bool) (n : ℕ) (jobs : List JobEntry) (job : JobEntry)
    → Above n jobs
    → find_job test jobs ≡ some job
    → n < job.job_id
found-Above test n [] job h e = absurd (not-found test job e)
found-Above test n (k ∷ jobs) job h e = elim (Bool-cases (test k)) [
  | inl here ↦ rw (sym (found-here test k job jobs here e)) h.0
  | inr later ↦
      omega
        (arith, found-Above test k.job_id jobs job h.1 (found-later test k job jobs later e), h.0)
]

pub Lacks-found :
    (test : JobEntry → Bool) (n : ℕ) (jobs : List JobEntry) (job : JobEntry)
    → Above n jobs
    → find_job test jobs ≡ some job
    → Lacks job.job_id (remove_first test jobs)
unfolding remove_first
Lacks-found test n [] job h e = _
Lacks-found test n (k ∷ jobs) job h e = elim (Bool-cases (test k)) [
  | inl here ↦ rw here (
      rw (sym (found-here test k job jobs here e))
        (Above-Lacks k.job_id k.job_id jobs (omega arith) h.1))
  | inr later ↦
      let found = found-later test k job jobs later e in
      let above : k.job_id < job.job_id = found-Above test k.job_id jobs job h.1 found in
      rw later (λ same. omega (arith, same, above), Lacks-found test k.job_id jobs job h.1 found)
]

insert_first :
    (new : JobEntry) (n : ℕ) (jobs : List JobEntry)
    → new.job_id ≤ n
    → Above n jobs
    → insert_sorted new jobs ≡ new ∷ jobs
unfolding insert_sorted
insert_first new n [] le h = refl
insert_first new n (k ∷ jobs) le h =
    rw (ltb-true {a = new.job_id} {b = k.job_id} (omega (arith, h.0, le))) refl

-- Removed and inserted again, a job keeps its place.
pub insert_sorted-removed :
    (test : JobEntry → Bool) (new job : JobEntry) (n : ℕ) (jobs : List JobEntry)
    → Above n jobs
    → find_job test jobs ≡ some job
    → new.job_id ≡ job.job_id
    → insert_sorted new (remove_first test jobs) ≡ replace_first test new jobs
unfolding remove_first replace_first insert_sorted
insert_sorted-removed test new job n [] h e same_id = absurd (not-found test job e)
insert_sorted-removed test new job n (k ∷ jobs) h e same_id = elim (Bool-cases (test k)) [
  | inl here ↦
      let same = found-here test k job jobs here e in
      rw here (
        insert_first new k.job_id jobs
          (omega (arith, same_id, ap (λ (j : JobEntry). j.job_id) same)) h.1)
  | inr later ↦
      let found = found-later test k job jobs later e in
      let above : k.job_id < new.job_id =
        omega (arith, found-Above test k.job_id jobs job h.1 found, same_id) in
      let ih = insert_sorted-removed test new job k.job_id jobs h.1 found same_id in
      rw later (
        rw (ltb-false {a = new.job_id} {b = k.job_id} (omega (arith, above)))
          (ap (λ zs. k ∷ zs) ih))
]

-- `removeJobByPid` and `addJob` with the identifier of the job, at a list in order in which it is
-- the first with its pid: it keeps its place.
pub put_back-jobs :
    (job : JobEntry) (is_stopped : Bool) (now : ℕ) (l : JobsList)
    → Above 0 l.jobs
    → find_job (has_pid job.pid) l.jobs ≡ some job
    → (add_job_with_id job.job_id job.pid job.command is_stopped now
        (remove_job_by_pid job.pid l)).jobs
      ≡ replace_first (has_pid job.pid) (entry job.job_id job.pid job.command is_stopped now) l.jobs
put_back-jobs job is_stopped now l h found =
    let rest = remove_job_by_pid-jobs job.pid l in
    let lacks = Lacks-found (has_pid job.pid) 0 l.jobs job h found in
    add_job_with_id-jobs job.job_id job.pid job.command is_stopped now (remove_job_by_pid job.pid l)
      (subst (Lacks job.job_id) (sym rest) lacks)
    ∙ (ap (insert_sorted (entry job.job_id job.pid job.command is_stopped now)) rest
        ∙ insert_sorted-removed (has_pid job.pid)
            (entry job.job_id job.pid job.command is_stopped now) job 0 l.jobs h found refl)
