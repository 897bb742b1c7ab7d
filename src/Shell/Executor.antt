-- ===== src/Shell/Executor.antt =====
-- HW1/CommandExecutor.cpp: the built-in commands, and all others.
use operating_system_whw.Shell.Trace.{Bytes}
use operating_system_whw.Shell.Text.{same, parse_command_line, codes}
use operating_system_whw.Shell.External.{external}
use operating_system_whw.Shell.Builtin.Foreground.{foreground}
use operating_system_whw.Shell.Builtin.Background.{background}
use operating_system_whw.Shell.Builtin.{
  show_pid, show_jobs, quit, print_directory, kill_job, chprompt, change_dir, cat,
}
use operating_system_whw.Common.{◌∷◌, some, none, if◌then◌else◌, [], Option, List}
use operating_system_whw.Shell.State.{System, Shell}

-- The classes of the built-in commands.
pub data Builtin : Type 0 where
  chprompt_command show_pid_command get_current_directory_command : Builtin
  change_dir_command jobs_command kill_command : Builtin
  foreground_command background_command quit_command cat_command : Builtin

-- The map that `initCommandVariables` fills.
unfoldable pub builtin_commands : List (Bytes × Builtin)
builtin_commands =
    (codes "chprompt", chprompt_command)
    ∷ (codes "showpid", show_pid_command)
    ∷ (codes "pwd", get_current_directory_command)
    ∷ (codes "cd", change_dir_command)
    ∷ (codes "jobs", jobs_command)
    ∷ (codes "kill", kill_command)
    ∷ (codes "fg", foreground_command)
    ∷ (codes "bg", background_command)
    ∷ (codes "quit", quit_command)
    ∷ (codes "cat", cat_command)
    ∷ []

unfoldable pub lookup_command : Bytes → List (Bytes × Builtin) → Option Builtin
lookup_command word [] = none
lookup_command word ((keyword, command) ∷ rest) =
    if same word keyword then some command else lookup_command word rest

-- `command->execute(args)`
unfoldable pub run_builtin : System → Builtin → List Bytes → Shell → Shell
run_builtin sys chprompt_command args s = chprompt args s
run_builtin sys show_pid_command args s = show_pid sys s
run_builtin sys get_current_directory_command args s = print_directory s
run_builtin sys change_dir_command args s = change_dir sys args s
run_builtin sys jobs_command args s = show_jobs sys s
run_builtin sys kill_command args s = kill_job args s
run_builtin sys foreground_command args s = foreground sys args s
run_builtin sys background_command args s = background sys args s
run_builtin sys quit_command args s = quit sys args s
run_builtin sys cat_command args s = cat sys args s

unfoldable pub run_words : System → List Bytes → Shell → Shell
run_words sys [] s = s
run_words sys (word ∷ args) s = elim (lookup_command word builtin_commands) [
  | some command ↦ run_builtin sys command args s
  | none ↦ external sys (word ∷ args) s
]

unfoldable pub execute_line : System → (line : Bytes) → Shell → Shell
execute_line sys line s = run_words sys (parse_command_line line) s
