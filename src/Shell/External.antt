-- ===== src/Shell/External.antt =====
-- HW1/ExternalCommand.cpp: a command that bash runs in a child process. The last `strdup`, of the
-- command itself, is taken to succeed.
use operating_system_whw.Shell.Trace.{
  write_end, write, strdup, setpgrp, read_end, read, pipe, perror, exec, close, Event, Bytes,
}
use operating_system_whw.Shell.Text.{remove_trailing_background_char, get_bash_command, find, codes}
use operating_system_whw.Shell.Jobs.{add_job}
use operating_system_whw.Common.{◌∷◌, true, some, not, none, if◌then◌else◌, false, [], List, Bool}
use Prim.Native.String.{String}
use operating_system_whw.Shell.State.{
  wait_checked, parent, next_fork, failed, end_with, child, Fork, System, Shell, emit, attempt,
}

-- `execvBashCommandInChildProcess`, after which the process has ended or is bash.
unfoldable pub execv_bash : System → List Bytes → Shell → Shell
execv_bash sys args s =
    let command = remove_trailing_background_char (get_bash_command args) in
    if not (sys.works strdup)
    then end_with 1 (emit (perror "smash error: strdup failed") (emit strdup s))
    else (let t = emit (exec command) (emit strdup s) in
        if sys.works (exec command)
        then record t { is_over = true }
        else end_with 1 (emit (perror "smash error: execv failed") t))

-- A call of which a failure ends the process.
unfoldable pub demand : System → Event → String → (Shell → Shell) → Shell → Shell
demand sys e message next s =
    if sys.works e then next (emit e s) else end_with 1 (emit (perror message) (emit e s))

-- The branches of `runForegroundExternalCommand` on the answer of `fork`.
unfoldable pub foreground_process : System → List Bytes → Fork → Shell → Shell
foreground_process sys args failed s = emit (perror "smash error: fork failed") s
foreground_process sys args child s =
    demand sys setpgrp "smash error: setpgrp failed" (execv_bash sys args) s
foreground_process sys args (parent pid) s =
    record (wait_checked sys pid (record s { foreground_pid = pid })) { foreground_pid = 0 }

unfoldable pub run_foreground : System → List Bytes → Shell → Shell
run_foreground sys args s = let r = next_fork s.forks s in foreground_process sys args r.0 r.1

unfoldable pub background_child : System → List Bytes → Shell → Shell
background_child sys args = demand sys setpgrp "smash error: setpgrp failed" (
    demand sys (close write_end) "smash error: close failed"
      (demand sys (read read_end) "smash error: read failed" (execv_bash sys args)))

-- The branches of `runBackgroundExternalCommand` on the answer of `fork`.
unfoldable pub background_process : System → List Bytes → Fork → Shell → Shell
background_process sys args failed s = emit (perror "smash error: fork failed") s
background_process sys args child s = background_child sys args s
background_process sys args (parent pid) s =
    let t = attempt sys (close read_end) "smash error: close failed" s in
    attempt sys (write write_end) "smash error: write failed"
      (record t { jobs_list = add_job pid t.current_command false sys.now t.jobs_list })

unfoldable pub run_background : System → List Bytes → Shell → Shell
run_background sys args s =
    let t = attempt sys pipe "smash error: pipe failed" s in
    let r = next_fork t.forks t in background_process sys args r.0 r.1

abbrev pub has_background_sign : Bytes → Bool
has_background_sign s = elim (find (codes "&") s) [ none ↦ false | some _ ↦ true ]

-- The last word of a command line, which has a word.
abbrev pub last_word : List Bytes → Bytes
last_word [] = []
last_word (word ∷ []) = word
last_word (_ ∷ word ∷ words) = last_word (word ∷ words)

unfoldable pub external : System → List Bytes → Shell → Shell
external sys args s =
    if has_background_sign (last_word args)
    then run_background sys args s
    else run_foreground sys args s
