-- ===== src/Shell/Pipe.antt =====
-- HW1/PipeCommand.cpp: two commands with a pipe between them.
use operating_system_whw.Shell.Trace.{
  write_end, standard_output, standard_input, read_end, pipe, perror, dup2, close, Bytes,
}
use operating_system_whw.Shell.Jobs.{add_job}
use operating_system_whw.Shell.External.{has_background_sign}
use operating_system_whw.Shell.Executor.{execute_line}
use operating_system_whw.Common.{◌∷◌, [], List, ℕ, if◌then◌else◌, false}
use operating_system_whw.Shell.State.{
  wait_for, unless_over, parent, next_fork, failed, end_with, child, attempt, Fork, System, Shell,
  emit,
}

unfoldable pub close_pipe : Shell → Shell
close_pipe s = emit (close write_end) (emit (close read_end) s)

unfoldable pub run_first : System → Bytes → Shell → Shell
run_first sys command s =
    unless_over (λ t. end_with 0 (emit (close standard_output) t))
      (execute_line sys command (close_pipe (emit (dup2 write_end standard_output) s)))

unfoldable pub run_second : System → Bytes → Shell → Shell
run_second sys command s =
    unless_over (end_with 0)
      (execute_line sys command (close_pipe (emit (dup2 read_end standard_input) s)))

-- `waitForCommandToFinish`
unfoldable pub wait_for_pipe :
    System → (first second : Bytes) → (first_pid second_pid : ℕ) → Shell → Shell
wait_for_pipe sys first second first_pid second_pid s =
    if has_background_sign second
    then record s {
      jobs_list =
          add_job second_pid second false sys.now
            (add_job first_pid first false sys.now s.jobs_list);
    }
    else wait_for sys second_pid (wait_for sys first_pid s)

-- On the answer of the second `fork`.
unfoldable pub second_process :
    System → (first second : Bytes) → (first_pid : ℕ) → Fork → Shell → Shell
second_process sys first second first_pid failed s = emit (perror "smash error: fork failed") s
second_process sys first second first_pid child s = run_second sys second s
second_process sys first second first_pid (parent pid) s =
    wait_for_pipe sys first second first_pid pid (close_pipe s)

-- On the answer of the first `fork`.
unfoldable pub first_process : System → (first second : Bytes) → Fork → Shell → Shell
first_process sys first second failed s = emit (perror "smash error: fork failed") s
first_process sys first second child s = run_first sys first s
first_process sys first second (parent pid) s =
    let r = next_fork s.forks s in second_process sys first second pid r.0 r.1

-- The caller gives two parts.
unfoldable pub run_pipe : System → (parts : List Bytes) → Shell → Shell
run_pipe sys (first ∷ second ∷ []) s =
    let t = attempt sys pipe "smash error: pipe failed" s in
    let r = next_fork t.forks t in first_process sys first second r.0 r.1
run_pipe sys _ s = s
