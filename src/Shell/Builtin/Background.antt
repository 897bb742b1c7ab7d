-- ===== src/Shell/Builtin/Background.antt =====
-- HW1/BackgroundCommand.cpp
use operating_system_whw.Shell.Trace.{perror, out, number, lit, kill, err, bytes, Event, Bytes}
use operating_system_whw.Shell.Numbers.{to_int, strtol}
use operating_system_whw.Shell.Jobs.{
  remove_job_by_pid, get_last_stopped_job, get_job_by_id, add_job_with_id, JobsList, JobEntry,
}
use operating_system_whw.Common.{
  ◌∷◌, ℕ, true, some, pos, none, if◌then◌else◌, false, [], Option, List, Bool,
}
use operating_system_whw.Shell.State.{System, Shell, emit, emit_all}
use operating_system_whw.Shell.Builtin.Foreground.{are_params_valid}

-- The job, or what is reported.
unfoldable pub get_background_job : List Bytes → JobsList → Option JobEntry × List Event
get_background_job [] l = elim (get_last_stopped_job l) [
  | none ↦ (none, err (lit "smash error: bg: there is no stopped jobs to resume" ∷ []) ∷ [])
  | some job ↦ (some job, [])
]
get_background_job (arg ∷ _) l =
    let job_id = to_int (strtol arg).value in
    elim (get_job_by_id job_id l) [
      | none ↦ (
        none,
        err (lit "smash error: bg: job-id " ∷ number job_id ∷ lit " does not exist" ∷ []) ∷ [],
      )
      | some job ↦ (some job, [])
    ]

-- `removeJobByPid` and `addJob` with the job's identifier.
unfoldable pub put_back : (is_stopped : Bool) → (now : ℕ) → JobEntry → JobsList → JobsList
put_back is_stopped now job l =
    add_job_with_id job.job_id job.pid job.command is_stopped now (remove_job_by_pid job.pid l)

unfoldable pub resume_in_background : System → JobEntry → Shell → Shell
resume_in_background sys job s =
    let t =
      record (emit (kill job.pid 18)
        (emit (out (bytes job.command ∷ lit " : " ∷ number (pos job.pid) ∷ [])) s)) {
          jobs_list = put_back false sys.now job s.jobs_list;
        } in
    if sys.works (kill job.pid 18) then t else record (emit (perror "smash error: kill failed") t) {
      jobs_list = put_back true sys.now job t.jobs_list;
    }

unfoldable pub background : System → List Bytes → Shell → Shell
background sys args s =
    if are_params_valid args
    then (let r = get_background_job args s.jobs_list in
        elim r.0 [
          | none ↦ emit_all r.1 s
          | some job ↦
              if job.is_stopped
              then resume_in_background sys job s
              else emit
                  (err (
                    lit "smash error: bg: job-id "
                    ∷ number (pos job.job_id)
                    ∷ lit " is already running in the background"
                    ∷ []))
                  s
        ])
    else emit (err (lit "smash error: bg: invalid arguments" ∷ [])) s
