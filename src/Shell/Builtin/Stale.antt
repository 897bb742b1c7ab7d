-- ===== src/Shell/Builtin/Stale.antt =====
-- HW1/JobsList.cpp: the counter after the last of one or two jobs is put back.
use operating_system_whw.Shell.Jobs.Replace.{not-found, found-later, found-here}
use operating_system_whw.Shell.Jobs.Removal.{remove_job_by_pid-removed, ordered}
use operating_system_whw.Shell.Jobs.Order.{
  remove_first, last_id-le, last_id, Lacks-last, Lacks, IsOrdered, Above,
}
use operating_system_whw.Shell.Jobs.Insert.{raised, insert_sorted, entry, add_job_with_id-Inserted}
use operating_system_whw.Shell.Builtin.Background.{put_back}
use operating_system_whw.Common.{
  ◌≡◌, ◌∷◌, ◌∙◌, ◌<◌, ◌+◌, ◌++◌, ℕ, sym, some, refl, ltb, length, inr, inl, arith, ap, [], List,
  Bool-cases, Bool,
}
use mathlib.Core.Path.{subst}
use operating_system_whw.Shell.Jobs.{
  remove_job_by_pid, has_pid, find_job, add_job_with_id, JobEntry, JobsList,
}

Above-front : (n : ℕ) (xs ys : List JobEntry) → Above n (xs ++ ys) → Above n xs
Above-front n [] ys h = _
Above-front n (x ∷ xs) ys h = (h.0, Above-front x.job_id xs ys h.1)

last_id-before :
    (n : ℕ) (xs : List JobEntry) (job : JobEntry)
    → Above n (xs ++ (job ∷ []))
    → last_id n xs < job.job_id
last_id-before n [] job h = h.0
last_id-before n (x ∷ xs) job h = last_id-before x.job_id xs job h.1

remove_first-last :
    (test : JobEntry → Bool) (n : ℕ) (xs : List JobEntry) (job : JobEntry)
    → find_job test (xs ++ (job ∷ [])) ≡ some job
    → Above n (xs ++ (job ∷ []))
    → remove_first test (xs ++ (job ∷ [])) ≡ xs
unfolding remove_first
remove_first-last test n [] job found h = elim (Bool-cases (test job)) [
  | inl here ↦ rw here refl
  | inr later ↦ absurd (not-found test job (found-later test job job [] later found))
]
remove_first-last test n (x ∷ xs) job found h = elim (Bool-cases (test x)) [
  | inl here ↦
      let same =
        ap (λ (j : JobEntry). j.job_id) (found-here test x job (xs ++ (job ∷ [])) here found) in
      absurd (
        omega (
          arith,
          same,
          last_id-before x.job_id xs job h.1,
          last_id-le x.job_id xs (Above-front x.job_id xs (job ∷ []) h.1),
        ))
  | inr later ↦ rw later (
      ap (λ zs. x ∷ zs)
        (remove_first-last test x.job_id xs job
          (found-later test x job (xs ++ (job ∷ [])) later found) h.1))
]

insert_sorted-has :
    (new : JobEntry) (jobs : List JobEntry) → ¬ Lacks new.job_id (insert_sorted new jobs)
unfolding insert_sorted
insert_sorted-has new [] lacks = lacks.0 refl
insert_sorted-has new (job ∷ jobs) lacks = elim (Bool-cases (ltb new.job_id job.job_id)) [
  | inl e ↦ (let here : Lacks new.job_id (new ∷ job ∷ jobs) = rw e at lacks in here.0 refl)
  | inr e ↦
      (let there : Lacks new.job_id (job ∷ insert_sorted new jobs) = rw e at lacks in
        insert_sorted-has new jobs there.1)
]

raised-short : (i : ℕ) (xs : List JobEntry) (max : ℕ) → length xs < 2 → raised i xs max ≡ max
raised-short i [] max short = refl
raised-short i (x ∷ []) max short = refl
raised-short i (x ∷ y ∷ xs) max short = absurd (omega (arith, short))

-- When the last of one or two jobs is removed and added again with its identifier, as `bg` and
-- a stop of the foreground do, and the identifier is the one after those before it, then the
-- counter stays below it, and the next new job gets an identifier that a job has.
pub put_back-Stale :
    (xs : List JobEntry) (job : JobEntry) (is_stopped : Bool) (now : ℕ) (l : JobsList)
    → IsOrdered l
    → l.jobs ≡ xs ++ (job ∷ [])
    → length xs < 2
    → job.job_id ≡ last_id 0 xs + 1
    → find_job (has_pid job.pid) l.jobs ≡ some job
    → ¬ Lacks ((put_back is_stopped now job l).max_job_id + 1) (put_back is_stopped now job l).jobs
unfolding put_back
put_back-Stale xs job is_stopped now l h e short next_id found =
    let new : JobEntry = entry job.job_id job.pid job.command is_stopped now in
    let above : Above 0 (xs ++ (job ∷ [])) = subst (Above 0) e h.0 in
    let removed : remove_job_by_pid job.pid l ≡ ordered xs =
      remove_job_by_pid-removed job.pid l h
      ∙ ap ordered (
          ap (remove_first (has_pid job.pid)) e
          ∙ remove_first-last (has_pid job.pid) 0 xs job
              (subst (λ (zs : List JobEntry). find_job (has_pid job.pid) zs ≡ some job) e found)
              above) in
    let front = Above-front 0 xs (job ∷ []) above in
    let added =
      add_job_with_id-Inserted job.job_id job.pid job.command is_stopped now (ordered xs)
        (front, refl) (Lacks-last 0 job.job_id xs front (last_id-before 0 xs job above)) in
    let counter : raised job.job_id xs (last_id 0 xs) + 1 ≡ job.job_id =
      omega (arith, raised-short job.job_id xs (last_id 0 xs) short, next_id) in
    let whole =
      ap (add_job_with_id job.job_id job.pid job.command is_stopped now) removed ∙ added in
    subst (λ (m : JobsList). ¬ Lacks (m.max_job_id + 1) m.jobs) (sym whole)
      (subst (λ (i : ℕ). ¬ Lacks i (insert_sorted new xs)) (sym counter) (insert_sorted-has new xs))
