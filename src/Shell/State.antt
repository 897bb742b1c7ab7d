-- ===== src/Shell/State.antt =====
-- HW1/SmallShell.h and HW1/SmallShell.cpp: the members of the shell, what the system answers, and
-- the handlers of signals.
use operating_system_whw.Common.{
  ◌∷◌, ◌++◌, [], ◌==◌, ℤ, ℕ, true, some, pos, none, if◌then◌else◌, false, Option, List, Bool,
}
use Prim.Native.String.{String}
use operating_system_whw.Shell.Trace.{
  Bytes, Event, lit, number, out, kill, perror, wait, fork, exit,
}
use operating_system_whw.Shell.Jobs.{JobsList, add_job, add_job_with_id}
use operating_system_whw.Shell.Text.{codes}

-- The answer of a `fork`: the parent has the pid of the child.
pub data Fork : Type 0 where
  failed child : Fork
  parent : (pid : ℕ) → Fork

pub data Signal : Type 0 where
  interrupt stop : Signal

-- What the system answers while a command runs: whether a call succeeds, `waitpid` with WNOHANG,
-- the time, the directory that a path names, the name of a directory, and the answers of `read`.
pub record System : Type 0 where
  pub works : Event → Bool
  pub waitpid : ℕ → ℤ
  pub now : ℕ
  pub resolve : (working path : Bytes) → Option Bytes
  pub name_of : Bytes → Option Bytes
  pub reads : (file : Bytes) → List (Option Bytes)
  pub shell_pid : ℕ

-- The members of `SmallShell`; then the process's working directory, the calls so far, the answers
-- of its forks, the signals that come while it waits, and whether it has ended.
pub record Shell : Type 0 where
  pub jobs_list : JobsList
  pub prompt_name : Bytes
  pub current_directory : Bytes
  pub previous_directory : Bytes
  pub foreground_pid : ℕ
  pub foreground_job_id : ℕ
  pub current_command : Bytes
  pub working_directory : Bytes
  pub log : List Event
  pub forks : List Fork
  pub waits : List (List Signal)
  pub is_over : Bool

abbrev pub emit : Event → Shell → Shell
emit e s = record s { log = s.log ++ (e ∷ []) }

abbrev pub emit_all : List Event → Shell → Shell
emit_all es s = record s { log = s.log ++ es }

-- A call of which a failure is only reported.
unfoldable pub attempt : System → Event → String → Shell → Shell
attempt sys e message s = if sys.works e then emit e s else emit (perror message) (emit e s)

unfoldable pub handle_int_signal : System → Shell → Shell
handle_int_signal sys s =
    let t = emit (out (lit "smash: got ctrl-C" ∷ [])) s in
    if s.foreground_pid == 0
    then t
    else if sys.works (kill s.foreground_pid 9)
    then emit (out (lit "smash: process " ∷ number (pos s.foreground_pid) ∷ lit " was killed" ∷ []))
        (emit (kill s.foreground_pid 9) t)
    else emit (perror "smash error: kill failed") (emit (kill s.foreground_pid 9) t)

-- The job of `handleStpSignal`: it keeps the identifier that it had in the list.
unfoldable pub add_stopped : System → Shell → JobsList
add_stopped sys s =
    if s.foreground_job_id == 0
    then add_job s.foreground_pid s.current_command true sys.now s.jobs_list
    else add_job_with_id s.foreground_job_id s.foreground_pid s.current_command true sys.now
        s.jobs_list

unfoldable pub handle_stp_signal : System → Shell → Shell
handle_stp_signal sys s =
    let t = emit (out (lit "smash: got ctrl-Z" ∷ [])) s in
    if s.foreground_pid == 0
    then t
    else if sys.works (kill s.foreground_pid 19)
    then emit
        (out (lit "smash: process " ∷ number (pos s.foreground_pid) ∷ lit " was stopped" ∷ []))
        (record (emit (kill s.foreground_pid 19) t) { jobs_list = add_stopped sys s })
    else emit (perror "smash error: kill failed") (emit (kill s.foreground_pid 19) t)

unfoldable pub deliver : System → List Signal → Shell → Shell
deliver sys [] s = s
deliver sys (interrupt ∷ signals) s = deliver sys signals (handle_int_signal sys s)
deliver sys (stop ∷ signals) s = deliver sys signals (handle_stp_signal sys s)

-- The signals of the next wait, which handlers serve before the wait is over.
unfoldable pub serve_waits : System → List (List Signal) → Shell → Shell
serve_waits sys [] s = s
serve_waits sys (signals ∷ waits) s = deliver sys signals (record s { waits = waits })

-- `waitpid` with no test of its answer.
unfoldable pub wait_for : System → ℕ → Shell → Shell
wait_for sys pid s = serve_waits sys s.waits (emit (wait pid) s)

-- `waitpid` and the report of its failure.
unfoldable pub wait_checked : System → ℕ → Shell → Shell
wait_checked sys pid s =
    let t = wait_for sys pid s in
    if sys.works (wait pid) then t else emit (perror "smash error: waitpid failed") t

-- The answer of the next `fork`, and the shell then.
unfoldable pub next_fork : List Fork → Shell → Fork × Shell
next_fork [] s = (failed, emit fork s)
next_fork (f ∷ forks) s = (f, emit fork (record s { forks = forks }))

abbrev pub end_with : ℕ → Shell → Shell
end_with status s = record (emit (exit status) s) { is_over = true }

-- What follows a call in the same process: nothing, if the call has ended it.
abbrev pub unless_over : (Shell → Shell) → Shell → Shell
unless_over next s = if s.is_over then s else next s

-- `SmallShell::SmallShell` in the directory that the process has: the members, of which the
-- numbers are 0 and the strings are empty; `none` where the name of the directory is not got.
unfoldable pub init_environment :
    System → (working : Bytes) → List Fork → List (List Signal) → Option Shell
init_environment sys working forks waits = elim (sys.name_of working) [
  | none ↦ none
  | some name ↦ some (record {
    jobs_list = record { jobs = []; max_job_id = 0 };
    prompt_name = codes "smash";
    current_directory = name;
    previous_directory = [];
    foreground_pid = 0;
    foreground_job_id = 0;
    current_command = [];
    working_directory = working;
    log = [];
    forks = forks;
    waits = waits;
    is_over = false;
  })
]
