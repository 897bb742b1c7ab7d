-- ===== src/Shell/Idle/Lines.antt =====
-- HW1: the process in the foreground, before and after a line that is not piped or redirected.
use operating_system_whw.Shell.Trace.{Bytes}
use operating_system_whw.Shell.Text.{parse_command_line}
use operating_system_whw.Shell.State.{System, Shell}
use operating_system_whw.Shell.Idle.Processes.{foreground-Idle, external-Idle, background-Idle}
use operating_system_whw.Shell.External.{external}
use operating_system_whw.Shell.Executor.{
  show_pid_command, run_words, run_builtin, quit_command, lookup_command, kill_command,
  jobs_command, get_current_directory_command, foreground_command, execute_line, chprompt_command,
  change_dir_command, cat_command, builtin_commands, background_command, Builtin,
}
use operating_system_whw.Shell.Builtin.{show_pid, show_jobs, print_directory}
use operating_system_whw.Common.{◌∷◌, some, none, [], Option, List}
use operating_system_whw.Shell.Idle.{Idle}
use operating_system_whw.Shell.Idle.Commands.{
  chprompt-Idle, change_dir-Idle, kill_job-Idle, quit-Idle, cat-Idle,
}

run_builtin-Idle :
    (sys : System) (command : Builtin) (args : List Bytes) (s : Shell)
    → Idle s
    → Idle (run_builtin sys command args s)
unfolding run_builtin show_pid print_directory show_jobs
run_builtin-Idle sys chprompt_command args s idle = chprompt-Idle args s idle
run_builtin-Idle sys show_pid_command args s idle = idle
run_builtin-Idle sys get_current_directory_command args s idle = idle
run_builtin-Idle sys change_dir_command args s idle = change_dir-Idle sys args s idle
run_builtin-Idle sys jobs_command args s idle = idle
run_builtin-Idle sys kill_command args s idle = kill_job-Idle args s idle
run_builtin-Idle sys foreground_command args s idle = foreground-Idle sys args s idle
run_builtin-Idle sys background_command args s idle = background-Idle sys args s idle
run_builtin-Idle sys quit_command args s idle = quit-Idle sys args s idle
run_builtin-Idle sys cat_command args s idle = cat-Idle sys args s idle

looked_up-Idle :
    (sys : System) (found : Option Builtin) (words args : List Bytes) (s : Shell)
    → Idle s
    → Idle (elim found as (λ _. Shell) [
      | some command ↦ run_builtin sys command args s
      | none ↦ external sys words s
    ])
looked_up-Idle sys none words args s idle = external-Idle sys words s idle
looked_up-Idle sys (some command) words args s idle = run_builtin-Idle sys command args s idle

run_words-Idle :
    (sys : System) (words : List Bytes) (s : Shell) → Idle s → Idle (run_words sys words s)
unfolding run_words
run_words-Idle sys [] s idle = idle
run_words-Idle sys (word ∷ args) s idle =
    looked_up-Idle sys (lookup_command word builtin_commands) (word ∷ args) args s idle

pub execute_line-Idle :
    (sys : System) (line : Bytes) (s : Shell) → Idle s → Idle (execute_line sys line s)
unfolding execute_line
execute_line-Idle sys line s idle = run_words-Idle sys (parse_command_line line) s idle
