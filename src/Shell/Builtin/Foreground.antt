-- ===== src/Shell/Builtin/Foreground.antt =====
-- HW1/ForegroundCommand.cpp
use operating_system_whw.Shell.Trace.{perror, out, number, lit, kill, err, bytes, Event, Bytes}
use operating_system_whw.Shell.Text.{is_empty}
use operating_system_whw.Shell.Numbers.{to_int, strtol}
use operating_system_whw.Shell.Jobs.{
  remove_job_by_pid, get_last_job, get_job_by_id, JobsList, JobEntry,
}
use operating_system_whw.Common.{
  ◌∷◌, ◌&&◌, true, some, pos, none, if◌then◌else◌, [], Option, List, Bool,
}
use operating_system_whw.Shell.State.{emit_all, System, Shell, emit, wait_checked}

-- `areParamsValid`, in which `strtol` reads the first argument to its end.
unfoldable pub are_params_valid : List Bytes → Bool
are_params_valid [] = true
are_params_valid (arg ∷ rest) =
    is_empty (strtol arg).rest && ((strtol arg).converted && is_empty rest)

-- The job, or what is reported.
unfoldable pub get_foreground_job : List Bytes → JobsList → Option JobEntry × List Event
get_foreground_job [] l = elim (get_last_job l) [
  | none ↦ (none, err (lit "smash error: fg: jobs list is empty" ∷ []) ∷ [])
  | some job ↦ (some job, [])
]
get_foreground_job (arg ∷ _) l =
    let job_id = to_int (strtol arg).value in
    elim (get_job_by_id job_id l) [
      | none ↦ (
        none,
        err (lit "smash error: fg: job-id " ∷ number job_id ∷ lit " does not exist" ∷ []) ∷ [],
      )
      | some job ↦ (some job, [])
    ]

-- `waitForJobToFinish`, with the job as the foreground process meanwhile.
unfoldable pub run_in_foreground : System → JobEntry → Shell → Shell
run_in_foreground sys job s =
    let t = wait_checked sys job.pid (record s {
      jobs_list = remove_job_by_pid job.pid s.jobs_list;
      foreground_pid = job.pid;
      current_command = job.command;
      foreground_job_id = job.job_id;
    }) in
    record t { foreground_pid = s.foreground_pid; foreground_job_id = s.foreground_job_id }

-- `continueIfJobIsStopped` and what follows it.
unfoldable pub resume_in_foreground : System → JobEntry → Shell → Shell
resume_in_foreground sys job s =
    if job.is_stopped
    then (if sys.works (kill job.pid 18)
        then run_in_foreground sys job (emit (kill job.pid 18) s)
        else emit (perror "smash error: kill failed") (emit (kill job.pid 18) s))
    else run_in_foreground sys job s

unfoldable pub foreground : System → List Bytes → Shell → Shell
foreground sys args s =
    if are_params_valid args
    then (let r = get_foreground_job args s.jobs_list in
        elim r.0 [
          | none ↦ emit_all r.1 s
          | some job ↦
              resume_in_foreground sys job
                (emit (out (bytes job.command ∷ lit " : " ∷ number (pos job.pid) ∷ [])) s)
        ])
    else emit (err (lit "smash error: fg: invalid arguments" ∷ [])) s
