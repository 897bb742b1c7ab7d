-- ===== src/Shell/Redirection.antt =====
-- HW1/RedirectionCommand.cpp: a command with its output in a file.
use operating_system_whw.Shell.Trace.{
  standard_output, saved, perror, opened, open_file, dup2, dup, close, Bytes,
}
use operating_system_whw.Shell.Jobs.{add_job}
use operating_system_whw.Shell.Executor.{execute_line}
use operating_system_whw.Common.{◌∷◌, if◌then◌else◌, false, [], Bool}
use operating_system_whw.Shell.State.{
  unless_over, parent, next_fork, failed, end_with, emit_all, child, Fork, System, Shell, emit,
}

-- `runRedirectedCommand`, which closes the file twice.
unfoldable pub run_redirected : System → (command file : Bytes) → (append : Bool) → Shell → Shell
run_redirected sys command file append s =
    let t = emit (open_file file append) s in
    if sys.works (open_file file append)
    then unless_over
        (λ u. emit_all (dup2 saved standard_output ∷ close opened ∷ close opened ∷ []) u)
        (execute_line sys command
          (emit_all (dup standard_output ∷ dup2 opened standard_output ∷ []) t))
    else emit (perror "smash error: open failed") t

-- On the answer of `fork`.
unfoldable pub redirected_process :
    System → (command file : Bytes) → (append : Bool) → Fork → Shell → Shell
redirected_process sys command file append failed s = emit (perror "smash error: pid failed") s
redirected_process sys command file append child s =
    unless_over (end_with 0) (run_redirected sys command file append s)
redirected_process sys command file append (parent pid) s = record s {
  jobs_list = add_job pid s.current_command false sys.now s.jobs_list;
}

unfoldable pub redirect :
    System → (command file : Bytes) → (is_background append : Bool) → Shell → Shell
redirect sys command file is_background append s =
    if is_background
    then (let r = next_fork s.forks s in redirected_process sys command file append r.0 r.1)
    else run_redirected sys command file append s
