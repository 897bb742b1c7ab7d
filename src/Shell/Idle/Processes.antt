-- ===== src/Shell/Idle/Processes.antt =====
-- HW1: the process in the foreground, before and after `fg`, `bg` and what bash runs.
use operating_system_whw.Shell.Trace.{
  write_end, write, setpgrp, read_end, read, pipe, out, number, lit, kill, err, close, bytes, Event,
  Bytes,
}
use operating_system_whw.Shell.State.{
  parent, next_fork, failed, emit_all, emit, child, attempt, System, Shell, Fork,
}
use operating_system_whw.Shell.Jobs.{add_job, JobEntry}
use operating_system_whw.Shell.External.{
  run_foreground, run_background, last_word, has_background_sign, foreground_process, external,
  execv_bash, demand, background_process, background_child,
}
use operating_system_whw.Shell.Builtin.Foreground.{
  run_in_foreground, resume_in_foreground, get_foreground_job, foreground, are_params_valid,
}
use operating_system_whw.Shell.Builtin.Background.{
  resume_in_background, get_background_job, background,
}
use operating_system_whw.Common.{
  ◌∷◌, ◌∙◌, some, refl, pos, none, inr, inl, if◌then◌else◌, false, arith, [], Option, List,
  Bool-cases,
}
use operating_system_whw.Shell.Idle.{
  String, wait_checked-SameFront, next_fork-Idle, attempt-Idle, Idle,
}

fg_run-Idle :
    (sys : System) (job : JobEntry) (s : Shell) → Idle s → Idle (run_in_foreground sys job s)
unfolding run_in_foreground
fg_run-Idle sys job s idle = idle

fg_resume-Idle :
    (sys : System) (job : JobEntry) (s : Shell) → Idle s → Idle (resume_in_foreground sys job s)
unfolding resume_in_foreground
fg_resume-Idle sys job s idle = elim (Bool-cases job.is_stopped) [
  | inl e ↦ elim (Bool-cases (sys.works (kill job.pid 18))) [
    | inl f ↦ simp (e, f) (fg_run-Idle sys job (emit (kill job.pid 18) s) idle)
    | inr f ↦ simp (e, f) idle
  ]
  | inr e ↦ simp e (fg_run-Idle sys job s idle)
]

fg_found-Idle :
    (sys : System) (found : Option JobEntry) (events : List Event) (s : Shell)
    → Idle s
    → Idle (elim found as (λ _. Shell) [
      | none ↦ emit_all events s
      | some job ↦
          resume_in_foreground sys job
            (emit (out (bytes job.command ∷ lit " : " ∷ number (pos job.pid) ∷ [])) s)
    ])
fg_found-Idle sys none events s idle = idle
fg_found-Idle sys (some job) events s idle =
    fg_resume-Idle sys job
      (emit (out (bytes job.command ∷ lit " : " ∷ number (pos job.pid) ∷ [])) s) idle

pub foreground-Idle :
    (sys : System) (args : List Bytes) (s : Shell) → Idle s → Idle (foreground sys args s)
unfolding foreground
foreground-Idle sys args s idle = elim (Bool-cases (are_params_valid args)) [
  | inl e ↦ rw e (
      fg_found-Idle sys (get_foreground_job args s.jobs_list).0
        (get_foreground_job args s.jobs_list).1 s idle)
  | inr e ↦ rw e idle
]

bg_resume-Idle :
    (sys : System) (job : JobEntry) (s : Shell) → Idle s → Idle (resume_in_background sys job s)
unfolding resume_in_background
bg_resume-Idle sys job s idle = elim (Bool-cases (sys.works (kill job.pid 18))) [
  | inl e ↦ rw e idle
  | inr e ↦ rw e idle
]

bg_found-Idle :
    (sys : System) (found : Option JobEntry) (events : List Event) (s : Shell)
    → Idle s
    → Idle (elim found as (λ _. Shell) [
      | none ↦ emit_all events s
      | some job ↦
          if job.is_stopped
          then resume_in_background sys job s
          else emit
              (err (
                lit "smash error: bg: job-id "
                ∷ number (pos job.job_id)
                ∷ lit " is already running in the background"
                ∷ []))
              s
    ])
bg_found-Idle sys none events s idle = idle
bg_found-Idle sys (some job) events s idle = elim (Bool-cases job.is_stopped) [
  | inl e ↦ simp e (bg_resume-Idle sys job s idle)
  | inr e ↦ simp e idle
]

pub background-Idle :
    (sys : System) (args : List Bytes) (s : Shell) → Idle s → Idle (background sys args s)
unfolding background
background-Idle sys args s idle = elim (Bool-cases (are_params_valid args)) [
  | inl e ↦ rw e (
      bg_found-Idle sys (get_background_job args s.jobs_list).0
        (get_background_job args s.jobs_list).1 s idle)
  | inr e ↦ rw e idle
]

execv-Idle : (sys : System) (args : List Bytes) (s : Shell) → Idle s → Idle (execv_bash sys args s)
unfolding execv_bash
execv-Idle sys args s idle = ground (arith, idle)

demand-Idle :
    (sys : System) (e : Event) (message : String) (rest : Shell → Shell) (s : Shell)
    → Idle s
    → ((t : Shell) → Idle t → Idle (rest t))
    → Idle (demand sys e message rest s)
unfolding demand
demand-Idle sys e message rest s idle keeps = elim (Bool-cases (sys.works e)) [
  | inl f ↦ rw f (keeps (emit e s) idle)
  | inr f ↦ rw f idle
]

foreground_process-Idle :
    (sys : System) (args : List Bytes) (answer : Fork) (s : Shell)
    → Idle s
    → Idle (foreground_process sys args answer s)
unfolding foreground_process
foreground_process-Idle sys args failed s idle = idle
foreground_process-Idle sys args child s idle =
    demand-Idle sys setpgrp "smash error: setpgrp failed" (execv_bash sys args) s idle
      (execv-Idle sys args)
foreground_process-Idle sys args (parent pid) s idle =
    (refl, (wait_checked-SameFront sys pid (record s { foreground_pid = pid })).1 ∙ idle.1)

background_process-Idle :
    (sys : System) (args : List Bytes) (answer : Fork) (s : Shell)
    → Idle s
    → Idle (background_process sys args answer s)
unfolding background_process background_child
background_process-Idle sys args failed s idle = idle
background_process-Idle sys args child s idle =
    demand-Idle sys setpgrp "smash error: setpgrp failed" _ s idle (λ t it.
      demand-Idle sys (close write_end) "smash error: close failed" _ t it (λ u iu.
        demand-Idle sys (read read_end) "smash error: read failed" (execv_bash sys args) u iu
          (execv-Idle sys args)))
background_process-Idle sys args (parent pid) s idle =
    let t : Shell = attempt sys (close read_end) "smash error: close failed" s in
    attempt-Idle sys (write write_end) "smash error: write failed"
      (record t { jobs_list = add_job pid t.current_command false sys.now t.jobs_list })
      (attempt-Idle sys (close read_end) "smash error: close failed" s idle)

pub external-Idle :
    (sys : System) (args : List Bytes) (s : Shell) → Idle s → Idle (external sys args s)
unfolding external run_background run_foreground
external-Idle sys args s idle = elim (Bool-cases (has_background_sign (last_word args))) [
  | inl e ↦
      let t : Shell = attempt sys pipe "smash error: pipe failed" s in
      rw e (
        background_process-Idle sys args (next_fork t.forks t).0 (next_fork t.forks t).1
          (next_fork-Idle t.forks t (attempt-Idle sys pipe "smash error: pipe failed" s idle)))
  | inr e ↦ rw e (
      foreground_process-Idle sys args (next_fork s.forks s).0 (next_fork s.forks s).1
        (next_fork-Idle s.forks s idle))
]
