-- ===== src/Shell/Jobs/Steps.antt =====
-- HW1/JobsList.cpp: the operations on the list as steps.
use operating_system_whw.Shell.Trace.{Bytes}
use operating_system_whw.Shell.Jobs.Removal.{
  remove_job_by_pid-IsOrdered, remove_job_by_id-IsOrdered,
}
use operating_system_whw.Shell.Jobs.Order.{
  last_id-append, last_id, Lacks-last, Lacks, IsOrdered, Above-append,
}
use operating_system_whw.Shell.Jobs.Insert.{entry}
use operating_system_whw.Shell.Jobs.Finished.{remove_finished_jobs-IsOrdered}
use operating_system_whw.Shell.Jobs.Counter.{add_job_with_id-IsOrdered}
use operating_system_whw.Common.{◌⊎◌, ◌≡◌, ◌<◌, ◌+◌, ℤ, ℕ, sym, refl, length, arith, Bool}
use mathlib.Core.Path.{subst}
use operating_system_whw.Shell.Jobs.{
  remove_job_by_pid, remove_job_by_id, remove_finished_jobs, empty_list, add_job_with_id, add_job,
  JobEntry, JobsList,
}

-- A call of a public operation, with any arguments.
pub data Change (l m : JobsList) : Type 0 where
  started :
      (pid : ℕ) (command : Bytes) (is_stopped : Bool) (now : ℕ)
      → m ≡ add_job pid command is_stopped now l
      → Change l m
  removed_by_id : (job_id : ℕ) → m ≡ remove_job_by_id job_id l → Change l m
  removed_by_pid : (pid : ℕ) → m ≡ remove_job_by_pid pid l → Change l m
  collected : (waitpid : ℕ → ℤ) → m ≡ (remove_finished_jobs waitpid l).0 → Change l m
  returned :
      (job_id pid : ℕ) (command : Bytes) (is_stopped : Bool) (now : ℕ)
      → m ≡ add_job_with_id job_id pid command is_stopped now l
      → Change l m

pub data Reach : JobsList → Type 0 where
  at_start : Reach empty_list
  then_change : {l m : JobsList} → Reach l → Change l m → Reach m

-- The identifier is free in the list, and below the last one or there are two other jobs at least.
abbrev pub ReturnsWell : (job_id : ℕ) (l : JobsList) → Type 0
ReturnsWell job_id l =
    Lacks job_id l.jobs × (0 < job_id) × ((job_id < last_id 0 l.jobs) ⊎ (1 < length l.jobs))

-- Every identifier that came back on the way did so as above.
unfoldable pub AllReturnWell : {l : JobsList} → Reach l → Type 0
AllReturnWell at_start = Unit
AllReturnWell (then_change r (started pid command is_stopped now e)) = AllReturnWell r
AllReturnWell (then_change r (removed_by_id job_id e)) = AllReturnWell r
AllReturnWell (then_change r (removed_by_pid pid e)) = AllReturnWell r
AllReturnWell (then_change r (collected waitpid e)) = AllReturnWell r
AllReturnWell (then_change {l} r (returned job_id pid command is_stopped now e)) =
    ReturnsWell job_id l × AllReturnWell r

add_job-IsOrdered :
    (pid : ℕ) (command : Bytes) (is_stopped : Bool) (now : ℕ) (l : JobsList)
    → IsOrdered l
    → IsOrdered (add_job pid command is_stopped now l)
unfolding add_job
add_job-IsOrdered pid command is_stopped now l h =
    let new : JobEntry = entry (l.max_job_id + 1) pid command is_stopped now in
    (Above-append 0 l.jobs new h.0 (omega (arith, h.1)), sym (last_id-append 0 l.jobs new))

Reach-IsOrdered : {l : JobsList} (r : Reach l) → AllReturnWell r → IsOrdered l
unfolding AllReturnWell
Reach-IsOrdered at_start well = (_, refl)
Reach-IsOrdered (then_change {l} r (started pid command is_stopped now e)) well =
    subst IsOrdered (sym e)
      (add_job-IsOrdered pid command is_stopped now l (Reach-IsOrdered r well))
Reach-IsOrdered (then_change {l} r (removed_by_id job_id e)) well =
    subst IsOrdered (sym e) (remove_job_by_id-IsOrdered job_id l (Reach-IsOrdered r well))
Reach-IsOrdered (then_change {l} r (removed_by_pid pid e)) well =
    subst IsOrdered (sym e) (remove_job_by_pid-IsOrdered pid l (Reach-IsOrdered r well))
Reach-IsOrdered (then_change {l} r (collected waitpid e)) well =
    subst IsOrdered (sym e) (remove_finished_jobs-IsOrdered waitpid l (Reach-IsOrdered r well))
Reach-IsOrdered (then_change {l} r (returned job_id pid command is_stopped now e)) (here, well) =
    subst IsOrdered (sym e) (
      add_job_with_id-IsOrdered job_id pid command is_stopped now l (Reach-IsOrdered r well) here.0
        here.1 here.2)

-- The calls of the operations may come in any order, with any arguments. If, on the way to a list,
-- each identifier that came back was one that no job had, and was below the last one or came back
-- to a list of two jobs or more, then the identifiers of the list go up, the counter is the last
-- of them, and no job has the identifier that comes next. A job that comes back behind at most one
-- other is not covered: `bg` and Ctrl-Z do that, and the counter is then stale.
pub Reach-Fresh :
    {l : JobsList} (r : Reach l) → AllReturnWell r → IsOrdered l × Lacks (l.max_job_id + 1) l.jobs
Reach-Fresh {l} r well =
    let h = Reach-IsOrdered r well in
    (h, Lacks-last 0 (l.max_job_id + 1) l.jobs h.0 (omega (arith, h.1)))
