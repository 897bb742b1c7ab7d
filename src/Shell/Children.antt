-- ===== src/Shell/Children.antt =====
-- HW1/ExternalCommand.cpp, HW1/PipeCommand.cpp and HW1/RedirectionCommand.cpp: the child processes.
use operating_system_whw.Shell.Redirection.{run_redirected, redirected_process}
use operating_system_whw.Shell.Pipe.{
  second_process, run_second, run_first, first_process, close_pipe,
}
use operating_system_whw.Shell.Executor.{execute_line}
use Prim.Native.String.{String}
use operating_system_whw.Shell.Trace.{
  write_end, standard_output, close, standard_input, setpgrp, read_end, read, dup2, Event, Bytes,
}
use operating_system_whw.Shell.External.{
  foreground_process, background_process, background_child, execv_bash, demand,
}
use operating_system_whw.Common.{arith, Bool, ◌≡◌, ℕ, true, refl, inr, inl, List, Bool-cases}
use operating_system_whw.Shell.State.{child, unless_over, end_with, emit, System, Shell}

execv_bash-over :
    (sys : System) (args : List Bytes) (s : Shell) → (execv_bash sys args s).is_over ≡ true
unfolding execv_bash
execv_bash-over sys args s = ground arith

demand-over :
    (sys : System) (e : Event) (message : String) (rest : Shell → Shell) (s : Shell)
    → ((t : Shell) → (rest t).is_over ≡ true)
    → (demand sys e message rest s).is_over ≡ true
unfolding demand
demand-over sys e message rest s h = elim (Bool-cases (sys.works e)) [
  | inl f ↦ rw f (h (emit e s))
  | inr f ↦ rw f refl
]

unless_over-over : (status : ℕ) (s : Shell) → (unless_over (end_with status) s).is_over ≡ true
unless_over-over status s = ground arith

unless_over-close :
    (s : Shell) → (unless_over (λ t. end_with 0 (emit (close standard_output) t)) s).is_over ≡ true
unless_over-close s = ground arith

-- The children of a command line that is neither piped nor redirected, of the commands of a pipe,
-- and of a command that is redirected in the background: each ends, or is bash, when its part is
-- done, so none goes back to the loop over the lines.
pub children-Over :
    (sys : System) (args : List Bytes) (first second : Bytes) (first_pid : ℕ) (append : Bool)
    (s : Shell)
    → ((foreground_process sys args child s).is_over ≡ true)
      × ((background_process sys args child s).is_over ≡ true)
      × ((first_process sys first second child s).is_over ≡ true)
      × ((second_process sys first second first_pid child s).is_over ≡ true)
      × ((redirected_process sys first second append child s).is_over ≡ true)
unfolding foreground_process background_process background_child first_process run_first
    second_process run_second redirected_process
children-Over sys args first second first_pid append s =
    let bash = execv_bash-over sys args in
    (
      demand-over sys setpgrp "smash error: setpgrp failed" (execv_bash sys args) s bash,
      demand-over sys setpgrp "smash error: setpgrp failed"
          (demand sys (close write_end) "smash error: close failed"
            (demand sys (read read_end) "smash error: read failed" (execv_bash sys args)))
          s
          (λ t.
            demand-over sys (close write_end) "smash error: close failed"
              (demand sys (read read_end) "smash error: read failed" (execv_bash sys args)) t
              (λ u.
                demand-over sys (read read_end) "smash error: read failed" (execv_bash sys args) u
                  bash)),
      unless_over-close
          (execute_line sys first (close_pipe (emit (dup2 write_end standard_output) s))),
      unless_over-over 0
          (execute_line sys second (close_pipe (emit (dup2 read_end standard_input) s))),
      unless_over-over 0 (run_redirected sys first second append s),
    )
