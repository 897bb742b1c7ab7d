-- ===== src/Shell/Jobs/Removal.antt =====
-- HW1/JobsList.cpp: `removeJobById`, `removeJobByPid` and `eraseJob` on a list in order.
use mathlib.Core.Path.{subst}
use operating_system_whw.Shell.Jobs.Order.{
  remove_first, last_id-append_nil, last_id-append_cons, last_id-append, Above-remove_first,
  last_id-le, last_id, IsOrdered, Above,
}
use operating_system_whw.Common.{
  ◌-◌, length-append, ◌∙◌, ◌+◌, sym, suc, inr, inl, eq_true, eq_false, Bool-cases, Bool, ◌≡◌, ◌∷◌,
  ◌<◌, ◌++◌, ℕ, refl, length, arith, ap, [], List,
}
use operating_system_whw.Shell.Jobs.{
  remove_loop, remove_job_by_pid, remove_job_by_id, has_pid, has_id, id_at, erase_job, erase_at,
  JobEntry, JobsList,
}

-- The list of these jobs, with the counter that fits.
abbrev pub ordered : List JobEntry → JobsList
ordered jobs = record { jobs = jobs; max_job_id = last_id 0 jobs }

pub ordered-eta : (l : JobsList) → IsOrdered l → l ≡ ordered l.jobs
ordered-eta l h = λ i. record { jobs = l.jobs; max_job_id = h.1 i }

pub erase_at-append :
    (xs ys : List JobEntry) (job : JobEntry) → erase_at (length xs) (xs ++ (job ∷ ys)) ≡ xs ++ ys
erase_at-append [] ys job = refl
erase_at-append (x ∷ xs) ys job = ap (λ zs. x ∷ zs) (erase_at-append xs ys job)

-- The last but one.
id_at-last :
    (x : JobEntry) (xs : List JobEntry) (job : JobEntry)
    → id_at ((x ∷ xs) ++ (job ∷ [])) (length xs) ≡ last_id x.job_id xs
id_at-last x [] job = refl
id_at-last x (y ∷ xs) job = id_at-last y xs job

last_id-lt :
    (n : ℕ) (job : JobEntry) (ys : List JobEntry) → Above n (job ∷ ys) → n < last_id n (job ∷ ys)
last_id-lt n job ys h = omega (arith, last_id-le job.job_id ys h.1)

Above-after :
    (n : ℕ) (xs ys : List JobEntry) (job : JobEntry)
    → Above n (xs ++ (job ∷ ys))
    → Above job.job_id ys
Above-after n [] ys job h = h.1
Above-after n (x ∷ xs) ys job h = Above-after x.job_id xs ys job h.1

same_list : {l m : JobsList} → l.jobs ≡ m.jobs → l.max_job_id ≡ m.max_job_id → l ≡ m
same_list p q = λ i. record { jobs = p i; max_job_id = q i }

-- The counter of `eraseJob` when the last job goes.
erase_job-max_last :
    (xs : List JobEntry) (job : JobEntry)
    → (erase_job (length xs) job (ordered (xs ++ (job ∷ [])))).max_job_id ≡ last_id 0 xs
unfolding erase_job
erase_job-max_last [] job = rw (eq_true {a = job.job_id} refl) refl
erase_job-max_last (x ∷ xs) job =
    let size : length (xs ++ (job ∷ [])) ≡ suc (length xs) =
      omega (arith, length-append xs (job ∷ [])) in
    rw (last_id-append x.job_id xs job) (
      rw (eq_true {a = job.job_id} refl) (
        rw size (
          rw (eq_false {a = suc (suc (length xs))} {b = 1} (λ e. omega (arith, e))) (
            let less : suc (suc (length xs)) - 2 ≡ length xs = omega arith in
            rw less (id_at-last x xs job)))))

-- And when another goes.
erase_job-max_other :
    (xs ys : List JobEntry) (y job : JobEntry)
    → Above 0 (xs ++ (job ∷ y ∷ ys))
    → (erase_job (length xs) job (ordered (xs ++ (job ∷ y ∷ ys)))).max_job_id
      ≡ last_id 0 (xs ++ (y ∷ ys))
unfolding erase_job
erase_job-max_other xs ys y job h = rw (last_id-append_cons 0 xs (y ∷ ys) job) (
    rw (last_id-append_cons 0 xs ys y) (
      rw
        (eq_false {a = job.job_id} {b = last_id y.job_id ys}
          (λ e. omega (arith, last_id-lt job.job_id y ys (Above-after 0 xs (y ∷ ys) job h))))
        refl))

pub erase_job-ordered :
    (xs ys : List JobEntry) (job : JobEntry)
    → Above 0 (xs ++ (job ∷ ys))
    → erase_job (length xs) job (ordered (xs ++ (job ∷ ys))) ≡ ordered (xs ++ ys)
unfolding erase_job
erase_job-ordered xs [] job h =
    same_list (erase_at-append xs [] job)
      (erase_job-max_last xs job ∙ sym (last_id-append_nil 0 xs))
erase_job-ordered xs (y ∷ ys) job h =
    same_list (erase_at-append xs (y ∷ ys) job) (erase_job-max_other xs ys y job h)

pub append-assoc_one :
    (xs ys : List JobEntry) (job : JobEntry) → (xs ++ (job ∷ [])) ++ ys ≡ xs ++ (job ∷ ys)
append-assoc_one [] ys job = refl
append-assoc_one (x ∷ xs) ys job = ap (λ zs. x ∷ zs) (append-assoc_one xs ys job)

remove_loop-ordered :
    (test : JobEntry → Bool) (xs rest : List JobEntry)
    → Above 0 (xs ++ rest)
    → remove_loop test (length xs) rest (ordered (xs ++ rest))
      ≡ ordered (xs ++ remove_first test rest)
unfolding remove_loop remove_first
remove_loop-ordered test xs [] h = refl
remove_loop-ordered test xs (job ∷ rest) h = elim (Bool-cases (test job)) [
  | inl e ↦ rw e (erase_job-ordered xs rest job h)
  | inr e ↦
      let size : length (xs ++ (job ∷ [])) ≡ length xs + 1 =
        omega (arith, length-append xs (job ∷ [])) in
      let whole = append-assoc_one xs rest job in
      let after = append-assoc_one xs (remove_first test rest) job in
      let ih = remove_loop-ordered test (xs ++ (job ∷ [])) rest (rw whole h) in
      rw e (
        subst
          (λ n.
            remove_loop test n rest (ordered (xs ++ (job ∷ rest)))
            ≡ ordered (xs ++ (job ∷ remove_first test rest)))
          size
          (subst
            (λ zs.
              remove_loop test (length (xs ++ (job ∷ []))) rest (ordered zs)
              ≡ ordered (xs ++ (job ∷ remove_first test rest)))
            whole (ih ∙ ap ordered after)))
]

-- Removal from a list in order: the first job that passes the test goes, and the counter fits.
pub remove_loop-removed :
    (test : JobEntry → Bool) (l : JobsList)
    → IsOrdered l
    → remove_loop test 0 l.jobs l ≡ ordered (remove_first test l.jobs)
remove_loop-removed test l h =
    ap (λ m. remove_loop test 0 l.jobs m) (ordered-eta l h) ∙ remove_loop-ordered test [] l.jobs h.0

pub ordered-IsOrdered : (jobs : List JobEntry) → Above 0 jobs → IsOrdered (ordered jobs)
ordered-IsOrdered jobs h = (h, refl)

pub remove_job_by_id-removed :
    (job_id : ℕ) (l : JobsList)
    → IsOrdered l
    → remove_job_by_id job_id l ≡ ordered (remove_first (has_id job_id) l.jobs)
unfolding remove_job_by_id
remove_job_by_id-removed job_id l h = remove_loop-removed (has_id job_id) l h

pub remove_job_by_pid-removed :
    (pid : ℕ) (l : JobsList)
    → IsOrdered l
    → remove_job_by_pid pid l ≡ ordered (remove_first (has_pid pid) l.jobs)
unfolding remove_job_by_pid
remove_job_by_pid-removed pid l h = remove_loop-removed (has_pid pid) l h

pub remove_job_by_id-IsOrdered :
    (job_id : ℕ) (l : JobsList) → IsOrdered l → IsOrdered (remove_job_by_id job_id l)
remove_job_by_id-IsOrdered job_id l h =
    subst IsOrdered (sym (remove_job_by_id-removed job_id l h))
      (Above-remove_first (has_id job_id) 0 l.jobs h.0, refl)

pub remove_job_by_pid-IsOrdered :
    (pid : ℕ) (l : JobsList) → IsOrdered l → IsOrdered (remove_job_by_pid pid l)
remove_job_by_pid-IsOrdered pid l h =
    subst IsOrdered (sym (remove_job_by_pid-removed pid l h))
      (Above-remove_first (has_pid pid) 0 l.jobs h.0, refl)
