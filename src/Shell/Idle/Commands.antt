-- ===== src/Shell/Idle/Commands.antt =====
-- HW1: the process in the foreground, before and after a command.
use operating_system_whw.Common.{some, none, Option, List, [], ◌∷◌, Bool-cases, inl, inr}
use operating_system_whw.Shell.Trace.{Bytes, perror, chdir}
use operating_system_whw.Shell.Text.{same, codes}
use operating_system_whw.Shell.Jobs.{JobEntry}
use operating_system_whw.Shell.State.{System, Shell, emit}
use operating_system_whw.Shell.Builtin.{
  chprompt, change_dir, go_to, go_back, kill_job, quit, cat, signal_job, are_kill_params_valid,
}
use operating_system_whw.Shell.Idle.{Idle}

pub chprompt-Idle : (args : List Bytes) (s : Shell) → Idle s → Idle (chprompt args s)
unfolding chprompt
chprompt-Idle [] s idle = idle
chprompt-Idle (name ∷ rest) s idle = idle

go_to-Idle : (sys : System) (path : Bytes) (s : Shell) → Idle s → Idle (go_to sys path s)
unfolding go_to
go_to-Idle sys path s idle =
    elim (sys.resolve s.working_directory path)
      as (λ found. Idle (elim found as (λ _. Shell) [
        | none ↦ emit (perror "smash error: chdir failed") (emit (chdir path) s)
        | some there ↦
            let t = record (emit (chdir path) s) { working_directory = there } in
            elim (sys.name_of there) as (λ _. Shell) [
              | none ↦ emit (perror "smash error: get_current_dir_name failed") t
              | some name ↦ record t {
                current_directory = name;
                previous_directory = s.current_directory;
              }
            ]
      ])) [
        | none ↦ idle
        | some there ↦
            elim (sys.name_of there)
              as (λ named. Idle (elim named as (λ _. Shell) [
                | none ↦
                    emit (perror "smash error: get_current_dir_name failed")
                      (record (emit (chdir path) s) { working_directory = there })
                | some name ↦ record (emit (chdir path) s) {
                  working_directory = there;
                  current_directory = name;
                  previous_directory = s.current_directory;
                }
              ])) [ none ↦ idle | some name ↦ idle ]
      ]

go_back-Idle :
    (sys : System) (previous : Bytes) (s : Shell) → Idle s → Idle (go_back sys previous s)
unfolding go_back
go_back-Idle sys [] s idle = idle
go_back-Idle sys (c ∷ previous) s idle = go_to-Idle sys (c ∷ previous) s idle

pub change_dir-Idle :
    (sys : System) (args : List Bytes) (s : Shell) → Idle s → Idle (change_dir sys args s)
unfolding change_dir
change_dir-Idle sys [] s idle = idle
change_dir-Idle sys (path ∷ []) s idle = elim (Bool-cases (same path (codes "-"))) [
  | inl e ↦ rw e (go_back-Idle sys s.previous_directory s idle)
  | inr e ↦ rw e (go_to-Idle sys path s idle)
]
change_dir-Idle sys (path ∷ (second ∷ rest)) s idle = idle

signal_job-Idle :
    (signal job_id : Bytes) (found : Option JobEntry) (s : Shell)
    → Idle s
    → Idle (signal_job signal job_id found s)
unfolding signal_job
signal_job-Idle signal job_id none s idle = idle
signal_job-Idle signal job_id (some job) s idle = idle

pub kill_job-Idle : (args : List Bytes) (s : Shell) → Idle s → Idle (kill_job args s)
unfolding kill_job
kill_job-Idle [] s idle = idle
kill_job-Idle (signal ∷ []) s idle = idle
kill_job-Idle (signal ∷ (job_id ∷ [])) s idle =
    elim (Bool-cases (are_kill_params_valid signal job_id)) [
      | inl e ↦ rw e (signal_job-Idle signal job_id _ s idle)
      | inr e ↦ rw e idle
    ]
kill_job-Idle (signal ∷ (job_id ∷ (third ∷ rest))) s idle = idle

pub quit-Idle : (sys : System) (args : List Bytes) (s : Shell) → Idle s → Idle (quit sys args s)
unfolding quit
quit-Idle sys [] s idle = idle
quit-Idle sys (option ∷ rest) s idle = elim (Bool-cases (same option (codes "kill"))) [
  | inl e ↦ rw e idle
  | inr e ↦ rw e idle
]

pub cat-Idle : (sys : System) (args : List Bytes) (s : Shell) → Idle s → Idle (cat sys args s)
unfolding cat
cat-Idle sys [] s idle = idle
cat-Idle sys (file ∷ files) s idle = idle
