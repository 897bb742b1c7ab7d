-- ===== src/Shell/Jobs.antt =====
-- HW1/JobsList.cpp and HW1/JobsList.h: the list of jobs.
pub mod Order
pub mod Removal
pub mod Insert
pub mod Counter
pub mod Replace
pub mod Twice
pub mod Finished
pub mod Steps
use mathlib.Core.Option.{Option, none, some}
use operating_system_whw.Common.{
  ℕ, ◌+◌, ◌-◌, zero, suc, Bool, true, ◌&&◌, List, [], ◌∷◌, ◌++◌, ℤ, pos, negsuc, ltb, ◌==◌,
  if◌then◌else◌, length, get_elem?,
}
use operating_system_whw.Shell.Trace.{Bytes, Piece, lit, bytes, number, Event, out, kill, perror}

-- `JobsList::JobEntry`
pub record JobEntry : Type 0 where
  pub start_time : ℕ
  pub pid : ℕ
  pub job_id : ℕ
  pub command : Bytes
  pub is_stopped : Bool

-- The vector and the counter.
pub record JobsList : Type 0 where
  pub jobs : List JobEntry
  pub max_job_id : ℕ

abbrev pub empty_list : JobsList
empty_list = record { jobs = []; max_job_id = 0 }

-- `addJob` with a new identifier
unfoldable pub add_job :
    (pid : ℕ) → (command : Bytes) → (is_stopped : Bool) → (now : ℕ) → JobsList → JobsList
add_job pid command is_stopped now l = record {
  jobs =
      l.jobs
      ++ (record {
        start_time = now;
        pid = pid;
        job_id = l.max_job_id + 1;
        command = command;
        is_stopped = is_stopped;
      }
          ∷ []);
  max_job_id = l.max_job_id + 1;
}

-- `i + 1 == size || jobs[i + 1].jobId > jobId`, on the jobs after the i-th.
abbrev pub fits_before : List JobEntry → (job_id : ℕ) → Bool
fits_before [] job_id = true
fits_before (next ∷ _) job_id = ltb job_id next.job_id

-- The loop of `addJob` with an identifier, from the i-th job on: those jobs and `maxJobId` then.
unfoldable pub insert_loop : JobEntry → List JobEntry → (max : ℕ) → List JobEntry × ℕ
insert_loop new [] max = ([], max)
insert_loop new (job ∷ rest) max =
    if fits_before rest new.job_id && ltb job.job_id new.job_id
    then (job ∷ new ∷ rest, max)
    else let r = insert_loop new rest (if ltb new.job_id max then max else new.job_id) in
      (job ∷ r.0, r.1)

abbrev pub starts_above : List JobEntry → (job_id : ℕ) → Bool
starts_above [] job_id = true
starts_above (first ∷ _) job_id = ltb job_id first.job_id

-- `addJob` with an identifier
unfoldable pub add_job_with_id :
    (job_id pid : ℕ) → (command : Bytes) → (is_stopped : Bool) → (now : ℕ) → JobsList → JobsList
add_job_with_id job_id pid command is_stopped now l =
    let new : JobEntry = record {
      start_time = now;
      pid = pid;
      job_id = job_id;
      command = command;
      is_stopped = is_stopped;
    } in
    if starts_above l.jobs job_id
    then record l { jobs = new ∷ l.jobs }
    else let r = insert_loop new l.jobs l.max_job_id in record { jobs = r.0; max_job_id = r.1 }

-- `jobs.erase(jobs.begin() + i)`
abbrev pub erase_at {ℓ} : {A : Type ℓ} → ℕ → List A → List A
erase_at i [] = []
erase_at zero (_ ∷ xs) = xs
erase_at (suc i) (x ∷ xs) = x ∷ erase_at i xs

-- `jobs[i].jobId`, read within the vector only.
abbrev pub id_at : List JobEntry → ℕ → ℕ
id_at jobs i = elim (get_elem? jobs i) [ none ↦ 0 | some job ↦ job.job_id ]

unfoldable pub erase_job : ℕ → JobEntry → JobsList → JobsList
erase_job i job l = record {
  jobs = erase_at i l.jobs;
  max_job_id =
      if job.job_id == l.max_job_id
      then (if length l.jobs == 1 then 0 else id_at l.jobs (length l.jobs - 2))
      else l.max_job_id;
}

-- The loops of `removeJobById` and `removeJobByPid`, from the i-th job on.
unfoldable pub remove_loop : (JobEntry → Bool) → ℕ → List JobEntry → JobsList → JobsList
remove_loop test i [] l = l
remove_loop test i (job ∷ rest) l =
    if test job then erase_job i job l else remove_loop test (i + 1) rest l

abbrev pub has_id : ℕ → JobEntry → Bool
has_id job_id job = job.job_id == job_id

abbrev pub has_pid : ℕ → JobEntry → Bool
has_pid pid job = job.pid == pid

unfoldable pub remove_job_by_id : ℕ → JobsList → JobsList
remove_job_by_id job_id l = remove_loop (has_id job_id) 0 l.jobs l

unfoldable pub remove_job_by_pid : ℕ → JobsList → JobsList
remove_job_by_pid pid l = remove_loop (has_pid pid) 0 l.jobs l

-- The loops of `getJobById` and `getJobByPid`.
unfoldable pub find_job : (JobEntry → Bool) → List JobEntry → Option JobEntry
find_job test [] = none
find_job test (job ∷ rest) = if test job then some job else find_job test rest

-- The caller's `int` may be negative, which is no job's identifier.
unfoldable pub get_job_by_id : ℤ → JobsList → Option JobEntry
get_job_by_id (pos job_id) l = find_job (has_id job_id) l.jobs
get_job_by_id (negsuc _) l = none

unfoldable pub get_job_by_pid : ℕ → JobsList → Option JobEntry
get_job_by_pid pid l = find_job (has_pid pid) l.jobs

unfoldable pub get_last_job : JobsList → Option JobEntry
get_last_job l = elim l.jobs [ [] ↦ none | _ ∷ _ ↦ get_elem? l.jobs (length l.jobs - 1) ]

-- The loop of `getLastStoppedJob`, with the job it has kept so far.
unfoldable pub last_stopped_loop : List JobEntry → Option JobEntry → Option JobEntry
last_stopped_loop [] kept = kept
last_stopped_loop (job ∷ rest) kept =
    last_stopped_loop rest (if job.is_stopped then some job else kept)

unfoldable pub get_last_stopped_job : JobsList → Option JobEntry
get_last_stopped_job l = last_stopped_loop l.jobs none

-- `waitpid` with WNOHANG: the jobs to remove, and what is reported.
unfoldable pub collect_finished : (waitpid : ℕ → ℤ) → List JobEntry → List JobEntry × List Event
collect_finished waitpid [] = ([], [])
collect_finished waitpid (job ∷ rest) =
    let r = collect_finished waitpid rest in
    elim (waitpid job.pid) [
      | pos status ↦ if status == 0 then r else (job ∷ r.0, r.1)
      | negsuc error ↦ if error == 0 then (r.0, perror "smash error: waitpid failed" ∷ r.1) else r
    ]

unfoldable pub remove_each : List JobEntry → JobsList → JobsList
remove_each [] l = l
remove_each (job ∷ rest) l = remove_each rest (remove_job_by_id job.job_id l)

unfoldable pub remove_finished_jobs : (waitpid : ℕ → ℤ) → JobsList → JobsList × List Event
remove_finished_jobs waitpid l = let r = collect_finished waitpid l.jobs in (remove_each r.0 l, r.1)

-- The seconds from the start of a job; the clock may be set back.
unfoldable pub get_job_elapsed_time : (now : ℕ) → JobEntry → ℤ
get_job_elapsed_time now job =
    if ltb now job.start_time then negsuc (job.start_time - now - 1) else pos (now - job.start_time)

abbrev pub job_line : (now : ℕ) → JobEntry → List Piece
job_line now job =
    lit "["
    ∷ number (pos job.job_id)
    ∷ lit "] "
    ∷ bytes job.command
    ∷ lit " : "
    ∷ number (pos job.pid)
    ∷ lit " "
    ∷ number (get_job_elapsed_time now job)
    ∷ lit (if job.is_stopped then " secs (stopped)" else " secs")
    ∷ []

print_loop : (now : ℕ) → List JobEntry → List Event
print_loop now [] = []
print_loop now (job ∷ rest) = out (job_line now job) ∷ print_loop now rest

unfoldable pub print_jobs_list : (now : ℕ) → JobsList → List Event
unfolding print_loop
print_jobs_list now l = print_loop now l.jobs

-- The loop of `killAllJobs`, with SIGKILL; `kill` tells whether the call succeeds.
unfoldable pub kill_loop : (can_kill : ℕ → ℕ → Bool) → List JobEntry → List Event
kill_loop can_kill [] = []
kill_loop can_kill (job ∷ rest) =
    out (number (pos job.pid) ∷ lit ": " ∷ bytes job.command ∷ [])
    ∷ kill job.pid 9
    ∷ (if can_kill job.pid 9
        then kill_loop can_kill rest
        else perror "smash error: kill failed" ∷ kill_loop can_kill rest)

unfoldable pub kill_all_jobs : (can_kill : ℕ → ℕ → Bool) → JobsList → List Event
kill_all_jobs can_kill l =
    out (lit "smash: sending SIGKILL signal to " ∷ number (pos (length l.jobs)) ∷ lit " jobs:" ∷ [])
    ∷ kill_loop can_kill l.jobs
