-- ===== src/Shell/Loop.antt =====
-- HW1/SmallShell.cpp, `executeCommand`, and HW1/smash.cpp, the loop over the lines.
pub mod Ends
pub mod Endless
use operating_system_whw.Shell.Trace.{out, lit, bytes, Bytes}
use operating_system_whw.Shell.Text.{
  is_pipe_command, tokenize_redirection_command, split_command, same,
  remove_trailing_background_char, parse_command_line, is_redirection_command,
  is_background_command, codes,
}
use operating_system_whw.Shell.Redirection.{redirect}
use operating_system_whw.Shell.Pipe.{run_pipe}
use operating_system_whw.Shell.Jobs.{remove_finished_jobs}
use operating_system_whw.Shell.Executor.{execute_line}
use operating_system_whw.Common.{◌∷◌, ◌&&◌, true, not, if◌then◌else◌, false, [], List, Bool}
use operating_system_whw.Shell.State.{emit_all, deliver, Signal, System, Shell, emit}

-- The tests of `executeCommand` on a line that has a word.
unfoldable pub dispatch : System → (line : Bytes) → Shell → Shell
dispatch sys line s =
    if is_pipe_command line
    then run_pipe sys (split_command line b'|') s
    else if is_redirection_command line
    then (let r = tokenize_redirection_command (remove_trailing_background_char line) in
        redirect sys r.0 r.2 (is_background_command line) (same r.1 (codes ">>")) s)
    else execute_line sys line s

unfoldable pub run_line : System → (line : Bytes) → List Bytes → Shell → Bool × Shell
run_line sys line [] s = (true, s)
run_line sys line (word ∷ _) s = (not (same word (codes "quit")), dispatch sys line s)

-- Whether the shell is to go on, and the shell then.
unfoldable pub execute_command : System → (line : Bytes) → Shell → Bool × Shell
execute_command sys line s =
    run_line sys line (parse_command_line line) (record s { current_command = line })

-- A round of the loop: what the system answers, the signals that come at the prompt, and the line,
-- which is empty at the end of the input.
pub record Round : Type 0 where
  pub sys : System
  pub signals : List Signal
  pub line : Bytes

abbrev pub prompt : Shell → Shell
prompt s = emit (out (bytes s.prompt_name ∷ lit "> " ∷ [])) s

-- `removeFinishedJobs` of the shell's list.
unfoldable pub collect : System → Shell → Shell
collect sys s =
    let r = remove_finished_jobs sys.waitpid s.jobs_list in
    emit_all r.1 (record s { jobs_list = r.0 })

unfoldable pub main_round : Round → Shell → Bool × Shell
main_round r s = execute_command r.sys r.line (collect r.sys (deliver r.sys r.signals (prompt s)))

-- The rounds of `main`, and whether it goes on after them; a child that has ended does not.
unfoldable pub main_loop : List Round → Shell → Bool × Shell
main_loop [] s = (true, s)
main_loop (r ∷ rounds) s =
    let t = main_round r s in
    elim (t.0 && not t.1.is_over) [ true ↦ main_loop rounds t.1 | false ↦ (false, t.1) ]
