-- ===== src/Shell/Idle/Prompt.antt =====
-- HW1: the process in the foreground when the shell shows its prompt, and the signals that come then.
use operating_system_whw.Shell.Trace.{
  write_end, standard_output, standard_input, saved, read_end, pipe, out, opened, open_file, lit,
  dup2, dup, close, Event, Bytes,
}
use operating_system_whw.Shell.Text.{
  tokenize_redirection_command, split_command, same, remove_trailing_background_char,
  parse_command_line, is_redirection_command, is_pipe_command, is_background_command, codes,
}
use operating_system_whw.Shell.State.{
  wait_for, stop, parent, next_fork, interrupt, init_environment, handle_stp_signal,
  handle_int_signal, failed, end_with, emit_all, emit, deliver, child, attempt, System, Signal,
  Shell, Fork,
}
use operating_system_whw.Shell.Redirection.{run_redirected, redirected_process, redirect}
use operating_system_whw.Shell.Pipe.{
  wait_for_pipe, second_process, run_second, run_pipe, run_first, first_process, close_pipe,
}
use operating_system_whw.Shell.Loop.{
  run_line, prompt, main_round, main_loop, execute_command, dispatch, collect, Round,
}
use operating_system_whw.Shell.External.{has_background_sign}
use operating_system_whw.Shell.Executor.{execute_line}
use operating_system_whw.Common.{
  sym, arith, ◌∙◌, none, eq_true, ap, Option, ◌≡◌, ◌∷◌, ◌&&◌, ℕ, true, some, refl, not, inr, inl,
  false, [], List, Bool-cases, Bool,
}
use operating_system_whw.Shell.Idle.{
  wait_for-SameFront, unless_over-Idle, same-Idle, next_fork-Idle, deliver-SameFront, attempt-Idle,
  Idle,
}
use operating_system_whw.Shell.Idle.Lines.{execute_line-Idle}

run_first-Idle :
    (sys : System) (command : Bytes) (s : Shell) → Idle s → Idle (run_first sys command s)
unfolding run_first close_pipe
run_first-Idle sys command s idle =
    let t : Shell = close_pipe (emit (dup2 write_end standard_output) s) in
    unless_over-Idle (λ u. end_with 0 (emit (close standard_output) u)) (execute_line sys command t)
      (execute_line-Idle sys command t idle) (λ u h. h)

run_second-Idle :
    (sys : System) (command : Bytes) (s : Shell) → Idle s → Idle (run_second sys command s)
unfolding run_second close_pipe
run_second-Idle sys command s idle =
    let t : Shell = close_pipe (emit (dup2 read_end standard_input) s) in
    unless_over-Idle (end_with 0) (execute_line sys command t)
      (execute_line-Idle sys command t idle) (λ u h. h)

wait_for_pipe-Idle :
    (sys : System) (first second : Bytes) (first_pid second_pid : ℕ) (s : Shell)
    → Idle s
    → Idle (wait_for_pipe sys first second first_pid second_pid s)
unfolding wait_for_pipe
wait_for_pipe-Idle sys first second first_pid second_pid s idle =
    elim (Bool-cases (has_background_sign second)) [
      | inl e ↦ rw e idle
      | inr e ↦
          let t : Shell = wait_for sys first_pid s in
          rw e (
            same-Idle t (wait_for sys second_pid t) (wait_for-SameFront sys second_pid t)
              (same-Idle s t (wait_for-SameFront sys first_pid s) idle))
    ]

second_process-Idle :
    (sys : System) (first second : Bytes) (first_pid : ℕ) (answer : Fork) (s : Shell)
    → Idle s
    → Idle (second_process sys first second first_pid answer s)
unfolding second_process close_pipe
second_process-Idle sys first second first_pid failed s idle = idle
second_process-Idle sys first second first_pid child s idle = run_second-Idle sys second s idle
second_process-Idle sys first second first_pid (parent pid) s idle =
    wait_for_pipe-Idle sys first second first_pid pid (close_pipe s) idle

first_process-Idle :
    (sys : System) (first second : Bytes) (answer : Fork) (s : Shell)
    → Idle s
    → Idle (first_process sys first second answer s)
unfolding first_process
first_process-Idle sys first second failed s idle = idle
first_process-Idle sys first second child s idle = run_first-Idle sys first s idle
first_process-Idle sys first second (parent pid) s idle =
    second_process-Idle sys first second pid (next_fork s.forks s).0 (next_fork s.forks s).1
      (next_fork-Idle s.forks s idle)

run_pipe-Idle :
    (sys : System) (parts : List Bytes) (s : Shell) → Idle s → Idle (run_pipe sys parts s)
unfolding run_pipe
run_pipe-Idle sys [] s idle = idle
run_pipe-Idle sys (first ∷ []) s idle = idle
run_pipe-Idle sys (first ∷ (second ∷ [])) s idle =
    let t : Shell = attempt sys pipe "smash error: pipe failed" s in
    first_process-Idle sys first second (next_fork t.forks t).0 (next_fork t.forks t).1
      (next_fork-Idle t.forks t (attempt-Idle sys pipe "smash error: pipe failed" s idle))
run_pipe-Idle sys (first ∷ (second ∷ (third ∷ rest))) s idle = idle

run_redirected-Idle :
    (sys : System) (command file : Bytes) (append : Bool) (s : Shell)
    → Idle s
    → Idle (run_redirected sys command file append s)
unfolding run_redirected
run_redirected-Idle sys command file append s idle =
    elim (Bool-cases (sys.works (open_file file append))) [
      | inl e ↦
          let t : Shell =
            emit_all (dup standard_output ∷ dup2 opened standard_output ∷ [])
              (emit (open_file file append) s) in
          rw e (
            unless_over-Idle
              (λ u. emit_all (dup2 saved standard_output ∷ close opened ∷ close opened ∷ []) u)
              (execute_line sys command t) (execute_line-Idle sys command t idle) (λ u h. h))
      | inr e ↦ rw e idle
    ]

redirected_process-Idle :
    (sys : System) (command file : Bytes) (append : Bool) (answer : Fork) (s : Shell)
    → Idle s
    → Idle (redirected_process sys command file append answer s)
unfolding redirected_process
redirected_process-Idle sys command file append failed s idle = idle
redirected_process-Idle sys command file append child s idle =
    unless_over-Idle (end_with 0) (run_redirected sys command file append s)
      (run_redirected-Idle sys command file append s idle) (λ u h. h)
redirected_process-Idle sys command file append (parent pid) s idle = idle

redirect-Idle :
    (sys : System) (command file : Bytes) (is_background append : Bool) (s : Shell)
    → Idle s
    → Idle (redirect sys command file is_background append s)
unfolding redirect
redirect-Idle sys command file true append s idle =
    redirected_process-Idle sys command file append (next_fork s.forks s).0 (next_fork s.forks s).1
      (next_fork-Idle s.forks s idle)
redirect-Idle sys command file false append s idle =
    run_redirected-Idle sys command file append s idle

dispatch-Idle : (sys : System) (line : Bytes) (s : Shell) → Idle s → Idle (dispatch sys line s)
unfolding dispatch
dispatch-Idle sys line s idle = elim (Bool-cases (is_pipe_command line)) [
  | inl e ↦ rw e (run_pipe-Idle sys (split_command line b'|') s idle)
  | inr e ↦ elim (Bool-cases (is_redirection_command line)) [
    | inl f ↦
        let r = tokenize_redirection_command (remove_trailing_background_char line) in
        rw (e, f)
          (redirect-Idle sys r.0 r.2 (is_background_command line) (same r.1 (codes ">>")) s idle)
    | inr f ↦ rw (e, f) (execute_line-Idle sys line s idle)
  ]
]

run_line-Idle :
    (sys : System) (line : Bytes) (words : List Bytes) (s : Shell)
    → Idle s
    → Idle (run_line sys line words s).1
unfolding run_line
run_line-Idle sys line [] s idle = idle
run_line-Idle sys line (word ∷ rest) s idle = dispatch-Idle sys line s idle

main_round-Idle : (r : Round) (s : Shell) → Idle s → Idle (main_round r s).1
unfolding main_round execute_command collect
main_round-Idle r s idle =
    let t : Shell = deliver r.sys r.signals (prompt s) in
    run_line-Idle r.sys r.line (parse_command_line r.line)
      (record (collect r.sys t) { current_command = r.line })
      (same-Idle (prompt s) t (deliver-SameFront r.sys r.signals (prompt s)) idle)

main_loop-Idle : (rounds : List Round) (s : Shell) → Idle s → Idle (main_loop rounds s).1
unfolding main_loop
main_loop-Idle [] s idle = idle
main_loop-Idle (r ∷ rounds) s idle =
    elim (Bool-cases ((main_round r s).0 && not (main_round r s).1.is_over)) [
      | inl e ↦
          rw (e, main_loop) (main_loop-Idle rounds (main_round r s).1 (main_round-Idle r s idle))
      | inr e ↦ rw (e, main_loop) (main_round-Idle r s idle)
    ]

-- What the handlers print of a signal.
abbrev pub heard : Signal → Event
heard interrupt = out (lit "smash: got ctrl-C" ∷ [])
heard stop = out (lit "smash: got ctrl-Z" ∷ [])

-- The shell when the handlers have printed the signals and done nothing else.
abbrev pub only_heard : List Signal → Shell → Shell
only_heard [] s = s
only_heard (signal ∷ signals) s = only_heard signals (emit (heard signal) s)

int-heard : (sys : System) (s : Shell) → Idle s → handle_int_signal sys s ≡ emit (heard interrupt) s
unfolding handle_int_signal
int-heard sys s idle = rw (eq_true idle.0) refl

stp-heard : (sys : System) (s : Shell) → Idle s → handle_stp_signal sys s ≡ emit (heard stop) s
unfolding handle_stp_signal
stp-heard sys s idle = rw (eq_true idle.0) refl

deliver-Idle :
    (sys : System) (signals : List Signal) (s : Shell)
    → Idle s
    → deliver sys signals s ≡ only_heard signals s
unfolding deliver
deliver-Idle sys [] s idle = refl
deliver-Idle sys (interrupt ∷ signals) s idle =
    ap (deliver sys signals) (int-heard sys s idle)
    ∙ deliver-Idle sys signals (emit (heard interrupt) s) idle
deliver-Idle sys (stop ∷ signals) s idle =
    ap (deliver sys signals) (stp-heard sys s idle)
    ∙ deliver-Idle sys signals (emit (heard stop) s) idle

-- The numbers of the foreground, 0 where there is no shell.
front_pid : Option Shell → ℕ
front_pid none = 0
front_pid (some s) = s.foreground_pid

front_job : Option Shell → ℕ
front_job none = 0
front_job (some s) = s.foreground_job_id

made-Idle :
    (sys : System) (working : Bytes) (forks : List Fork) (waits : List (List Signal))
    → (front_pid (init_environment sys working forks waits) ≡ 0)
      × (front_job (init_environment sys working forks waits) ≡ 0)
unfolding init_environment front_pid front_job
made-Idle sys working forks waits = ground arith

started-Idle :
    (sys : System) (working : Bytes) (forks : List Fork) (waits : List (List Signal)) (s : Shell)
    → init_environment sys working forks waits ≡ some s
    → Idle s
unfolding front_pid front_job
started-Idle sys working forks waits s e =
    let (no_pid, no_job) = made-Idle sys working forks waits in
    (sym (ap front_pid e) ∙ no_pid, sym (ap front_job e) ∙ no_job)

-- Signals at the prompt harm nothing. After any lines, with whatever signals, answers and forks,
-- starting from a new shell: Ctrl-C and Ctrl-Z that come then are printed by the handlers, and
-- nothing else happens: no process gets a signal and the list of jobs stays as it is.
pub main_loop-heard :
    (sys : System) (working : Bytes) (forks : List Fork) (waits : List (List Signal)) (s : Shell)
    (rounds : List Round) (now : System) (signals : List Signal)
    → init_environment sys working forks waits ≡ some s
    → deliver now signals (main_loop rounds s).1 ≡ only_heard signals (main_loop rounds s).1
main_loop-heard sys working forks waits s rounds now signals e =
    deliver-Idle now signals (main_loop rounds s).1
      (main_loop-Idle rounds s (started-Idle sys working forks waits s e))
