-- ===== src/Shell/Jobs/Twice.antt =====
-- HW1/JobsList.cpp: a job that is put back twice, as when its signal fails.
use operating_system_whw.Shell.Jobs.Replace.{replace_first, found-later, found-here}
use operating_system_whw.Shell.Jobs.Order.{Above-weaken, Above}
use operating_system_whw.Common.{
  ◌≡◌, ◌∷◌, ◌∙◌, ℕ, true, sym, some, refl, inr, inl, arith, ap, [], List, Bool-cases, Bool,
}
use operating_system_whw.Shell.Jobs.{find_job, JobEntry}

pub Above-replace_first :
    (test : JobEntry → Bool) (new job : JobEntry) (n : ℕ) (jobs : List JobEntry)
    → Above n jobs
    → find_job test jobs ≡ some job
    → new.job_id ≡ job.job_id
    → Above n (replace_first test new jobs)
unfolding replace_first
Above-replace_first test new job n [] h e same_id = _
Above-replace_first test new job n (k ∷ jobs) h e same_id = elim (Bool-cases (test k)) [
  | inl here ↦
      let same : new.job_id ≡ k.job_id =
        same_id ∙ sym (ap (λ (j : JobEntry). j.job_id) (found-here test k job jobs here e)) in
      rw here
        (omega (arith, h.0, same), Above-weaken new.job_id k.job_id jobs (omega (arith, same)) h.1)
  | inr later ↦ rw later (
    h.0,
    Above-replace_first test new job k.job_id jobs h.1 (found-later test k job jobs later e)
        same_id,
  )
]

pub find_job-replace_first :
    (test : JobEntry → Bool) (new job : JobEntry) (jobs : List JobEntry)
    → test new ≡ true
    → find_job test jobs ≡ some job
    → find_job test (replace_first test new jobs) ≡ some new
unfolding replace_first find_job
find_job-replace_first test new job [] passes e = absurd (cc)
find_job-replace_first test new job (k ∷ jobs) passes e = elim (Bool-cases (test k)) [
  | inl here ↦ rw here (rw passes refl)
  | inr later ↦ rw later (
      rw later
        (find_job-replace_first test new job jobs passes (found-later test k job jobs later e)))
]

pub replace_first-twice :
    (test : JobEntry → Bool) (new newer : JobEntry) (jobs : List JobEntry)
    → test new ≡ true
    → replace_first test newer (replace_first test new jobs) ≡ replace_first test newer jobs
unfolding replace_first
replace_first-twice test new newer [] passes = refl
replace_first-twice test new newer (k ∷ jobs) passes = elim (Bool-cases (test k)) [
  | inl here ↦ rw here (rw passes refl)
  | inr later ↦
      rw later (rw later (ap (λ zs. k ∷ zs) (replace_first-twice test new newer jobs passes)))
]
