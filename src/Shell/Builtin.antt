-- ===== src/Shell/Builtin.antt =====
-- HW1: the built-in commands that keep the list of jobs: HW1/ChpromptCommand.cpp,
-- HW1/ShowPidCommand.cpp, HW1/GetCurrentDirectoryCommand.cpp, HW1/ChangeDirCommand.cpp,
-- HW1/JobsCommand.cpp, HW1/KillCommand.cpp, HW1/QuitCommand.cpp and HW1/CatCommand.cpp.
pub mod Foreground
pub mod Background
pub mod Places
pub mod Stale
pub mod Directory
pub mod Signals
pub mod Retained
use operating_system_whw.Shell.Trace.{
  read, print, perror, out, opened, open_file, number, lit, kill, err, close, chdir, bytes, Event,
  Bytes,
}
use operating_system_whw.Shell.Text.{same, find_first_not_of, codes}
use operating_system_whw.Shell.Numbers.{is_digit, atoi}
use operating_system_whw.Shell.Jobs.{JobEntry, print_jobs_list, kill_all_jobs, get_job_by_id}
use operating_system_whw.Common.{
  ◌∷◌, ◌==◌, ◌++◌, ◌&&◌, ℤ, ℕ, true, some, pos, not, none, negsuc, ltb, if◌then◌else◌, false, [],
  Option, List, Bool,
}
use operating_system_whw.Shell.State.{System, Shell, emit, emit_all}

unfoldable pub chprompt : List Bytes → Shell → Shell
chprompt [] s = record s { prompt_name = codes "smash" }
chprompt (name ∷ _) s = record s { prompt_name = name }

unfoldable pub show_pid : System → Shell → Shell
show_pid sys = emit (out (lit "smash pid is " ∷ number (pos sys.shell_pid) ∷ []))

unfoldable pub print_directory : Shell → Shell
print_directory s = emit (out (bytes s.current_directory ∷ [])) s

-- `chdir`, and what `ChangeDirCommand::execute` does after it.
unfoldable pub go_to : System → (path : Bytes) → Shell → Shell
go_to sys path s = elim (sys.resolve s.working_directory path) [
  | none ↦ emit (perror "smash error: chdir failed") (emit (chdir path) s)
  | some there ↦
      let t = record (emit (chdir path) s) { working_directory = there } in
      elim (sys.name_of there) [
        | none ↦ emit (perror "smash error: get_current_dir_name failed") t
        | some name ↦ record t {
          current_directory = name;
          previous_directory = s.current_directory;
        }
      ]
]

-- `cd -`
unfoldable pub go_back : System → (previous : Bytes) → Shell → Shell
go_back sys [] s = emit (err (lit "smash error: cd: OLDPWD not set" ∷ [])) s
go_back sys (c ∷ previous) s = go_to sys (c ∷ previous) s

unfoldable pub change_dir : System → List Bytes → Shell → Shell
change_dir sys [] s = s
change_dir sys (path ∷ []) s =
    if same path (codes "-") then go_back sys s.previous_directory s else go_to sys path s
change_dir sys (_ ∷ _ ∷ _) s = emit (err (lit "smash error: cd: too many arguments" ∷ [])) s

unfoldable pub show_jobs : System → Shell → Shell
show_jobs sys s = emit_all (print_jobs_list sys.now s.jobs_list) s

-- `substr(1, size - 1)`, at a word, which is not empty.
abbrev pub without_first : Bytes → Bytes
without_first [] = []
without_first (_ ∷ s) = s

abbrev pub starts_with_dash : Bytes → Bool
starts_with_dash [] = false
starts_with_dash (c ∷ _) = c == b'-'

-- `find_first_not_of(ALL_DIGITS) == npos`
abbrev pub only_digits : Bytes → Bool
only_digits s = elim (find_first_not_of is_digit s) [ none ↦ true | some _ ↦ false ]

abbrev pub in_range : ℤ → Bool
in_range (pos n) = not (ltb n 1) && not (ltb 32 n)
in_range (negsuc _) = false

-- `areParamsValid` on the two arguments
unfoldable pub are_kill_params_valid : (signal job_id : Bytes) → Bool
are_kill_params_valid signal job_id =
    starts_with_dash signal
    && ((only_digits (without_first signal) && in_range (atoi (without_first signal)))
        && only_digits job_id)

abbrev pub magnitude : ℤ → ℕ
magnitude (pos n) = n
magnitude (negsuc _) = 0

abbrev pub invalid_kill : Shell → Shell
invalid_kill = emit (err (lit "smash error: kill: invalid arguments" ∷ []))

abbrev pub sent_signal : Bytes → ℕ
sent_signal signal = magnitude (atoi (without_first signal))

-- The answer of `kill` is not tested.
unfoldable pub signal_job : (signal job_id : Bytes) → Option JobEntry → Shell → Shell
signal_job signal job_id none s =
    emit
      (err (lit "smash error: kill: job-id " ∷ number (atoi job_id) ∷ lit " does not exist" ∷ [])) s
signal_job signal job_id (some job) s =
    emit_all
      (out (
          lit "signal number "
          ∷ number (pos (sent_signal signal))
          ∷ lit " was sent to pid "
          ∷ number (pos job.pid)
          ∷ [])
        ∷ kill job.pid (sent_signal signal)
        ∷ [])
      s

unfoldable pub kill_job : List Bytes → Shell → Shell
kill_job (signal ∷ job_id ∷ []) s =
    if are_kill_params_valid signal job_id
    then signal_job signal job_id (get_job_by_id (atoi job_id) s.jobs_list) s
    else invalid_kill s
kill_job _ s = invalid_kill s

-- It ends nothing: the loop of the shell ends at the word `quit`.
unfoldable pub quit : System → List Bytes → Shell → Shell
quit sys [] s = s
quit sys (option ∷ _) s =
    if same option (codes "kill")
    then emit_all (kill_all_jobs (λ pid signal. sys.works (kill pid signal)) s.jobs_list) s
    else s

-- `cout << buffer`: up to the first zero byte.
unfoldable pub c_string : Bytes → Bytes
c_string [] = []
c_string (c ∷ s) = if c == 0 then [] else c ∷ c_string s

-- The loop of `printFile` over the answers of `read`; none are left at the end of the file.
unfoldable pub read_loop : System → List (Option Bytes) → List Event
read_loop sys (none ∷ _) = read opened ∷ perror "smash error: read failed" ∷ []
read_loop sys (some (c ∷ s) ∷ answers) =
    read opened ∷ print (c_string (c ∷ s)) ∷ read_loop sys answers
read_loop sys _ =
    read opened
    ∷ close opened
    ∷ (if sys.works (close opened) then [] else perror "smash error: close failed" ∷ [])

unfoldable pub print_file : System → Bytes → List Event
print_file sys file =
    open_file file false
    ∷ (if sys.works (open_file file false)
        then read_loop sys (sys.reads file)
        else perror "smash error: open failed" ∷ [])

unfoldable pub print_files : System → List Bytes → List Event
print_files sys [] = []
print_files sys (file ∷ files) = print_file sys file ++ print_files sys files

unfoldable pub cat : System → List Bytes → Shell → Shell
cat sys [] s = emit (err (lit "smash error: cat: not enough arguments" ∷ [])) s
cat sys (file ∷ files) s = emit_all (print_files sys (file ∷ files)) s
