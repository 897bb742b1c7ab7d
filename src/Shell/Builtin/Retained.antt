-- ===== src/Shell/Builtin/Retained.antt =====
-- HW1/ForegroundCommand.cpp with `handleStpSignal` of HW1/SmallShell.cpp: a job that is stopped
-- while it runs in the foreground.
use operating_system_whw.Shell.Jobs.Replace.{replace_first, put_back-jobs, found-Above}
use operating_system_whw.Shell.Jobs.Order.{Above}
use operating_system_whw.Shell.Jobs.Insert.{entry}
use operating_system_whw.Shell.Trace.{wait, out, number, lit, bytes, Bytes, kill}
use operating_system_whw.Shell.Jobs.{
  remove_job_by_pid, has_pid, find_job, add_job_with_id, JobsList, JobEntry,
}
use operating_system_whw.Shell.Builtin.Foreground.{
  resume_in_foreground, get_foreground_job, foreground, are_params_valid, run_in_foreground,
}
use operating_system_whw.Common.{
  ◌∙◌, ℕ, some, refl, pos, inr, inl, eq_false, arith, ap, Bool-cases, ◌≡◌, ◌∷◌, ◌<◌, true, [], List,
}
use operating_system_whw.Shell.State.{
  emit, wait_for, wait_checked, stop, serve_waits, handle_stp_signal, deliver, add_stopped, Signal,
  System, Shell,
}

wait_checked-jobs :
    (sys : System) (pid : ℕ) (s : Shell)
    → (wait_checked sys pid s).jobs_list ≡ (wait_for sys pid s).jobs_list
unfolding wait_checked
wait_checked-jobs sys pid s = elim (Bool-cases (sys.works (wait pid))) [
  | inl e ↦ rw e refl
  | inr e ↦ rw e refl
]

-- Ctrl-Z while a process of the list is in the foreground.
handle_stp_signal-jobs :
    (sys : System) (s : Shell)
    → 0 < s.foreground_pid
    → 0 < s.foreground_job_id
    → sys.works (kill s.foreground_pid 19) ≡ true
    → (handle_stp_signal sys s).jobs_list
      ≡ add_job_with_id s.foreground_job_id s.foreground_pid s.current_command true sys.now
          s.jobs_list
unfolding handle_stp_signal add_stopped
handle_stp_signal-jobs sys s pid_pos id_pos works =
    rw (eq_false {a = s.foreground_pid} {b = 0} (λ e. omega (arith, e, pid_pos))) (
      rw works
        (rw (eq_false {a = s.foreground_job_id} {b = 0} (λ e. omega (arith, e, id_pos))) refl))

serve_stop :
    (sys : System) (s : Shell) (waits : List (List Signal))
    → 0 < s.foreground_pid
    → 0 < s.foreground_job_id
    → sys.works (kill s.foreground_pid 19) ≡ true
    → (serve_waits sys ((stop ∷ []) ∷ waits) s).jobs_list
      ≡ add_job_with_id s.foreground_job_id s.foreground_pid s.current_command true sys.now
          s.jobs_list
unfolding serve_waits deliver
serve_stop sys s waits pid_pos id_pos works =
    handle_stp_signal-jobs sys (record s { waits = waits }) pid_pos id_pos works

run_in_foreground-stopped :
    (sys : System) (job : JobEntry) (s : Shell) (waits : List (List Signal))
    → s.waits ≡ (stop ∷ []) ∷ waits
    → 0 < job.pid
    → 0 < job.job_id
    → sys.works (kill job.pid 19) ≡ true
    → (run_in_foreground sys job s).jobs_list
      ≡ add_job_with_id job.job_id job.pid job.command true sys.now
          (remove_job_by_pid job.pid s.jobs_list)
unfolding run_in_foreground wait_for
run_in_foreground-stopped sys job s waits e pid_pos id_pos works =
    let before : Shell = record s {
      jobs_list = remove_job_by_pid job.pid s.jobs_list;
      foreground_pid = job.pid;
      current_command = job.command;
      foreground_job_id = job.job_id;
    } in
    wait_checked-jobs sys job.pid before
    ∙ (ap (λ (w : List (List Signal)). (serve_waits sys w (emit (wait job.pid) before)).jobs_list) e
        ∙ serve_stop sys (emit (wait job.pid) before) waits pid_pos id_pos works)

resume_in_foreground-stopped :
    (sys : System) (job : JobEntry) (s : Shell) (waits : List (List Signal))
    → s.waits ≡ (stop ∷ []) ∷ waits
    → 0 < job.pid
    → 0 < job.job_id
    → sys.works (kill job.pid 18) ≡ true
    → sys.works (kill job.pid 19) ≡ true
    → (resume_in_foreground sys job s).jobs_list
      ≡ add_job_with_id job.job_id job.pid job.command true sys.now
          (remove_job_by_pid job.pid s.jobs_list)
unfolding resume_in_foreground
resume_in_foreground-stopped sys job s waits e pid_pos id_pos continues works =
    elim (Bool-cases job.is_stopped) [
      | inl stopped ↦ simp stopped (
          rw continues (
            run_in_foreground-stopped sys job (emit (kill job.pid 18) s) waits e pid_pos id_pos
              works))
      | inr running ↦
          simp running (run_in_foreground-stopped sys job s waits e pid_pos id_pos works)
    ]

-- `fg` of a job, with valid arguments, at a list in order in which the job is the first with its
-- pid, and Ctrl-Z while the shell waits for it, with signals that can be sent: the job is in the
-- list again, stopped, with its identifier and in its place, and the other jobs are as they were.
pub foreground-Retained :
    (sys : System) (args : List Bytes) (job : JobEntry) (s : Shell) (waits : List (List Signal))
    → are_params_valid args ≡ true
    → (get_foreground_job args s.jobs_list).0 ≡ some job
    → Above 0 s.jobs_list.jobs
    → find_job (has_pid job.pid) s.jobs_list.jobs ≡ some job
    → 0 < job.pid
    → sys.works (kill job.pid 18) ≡ true
    → sys.works (kill job.pid 19) ≡ true
    → s.waits ≡ (stop ∷ []) ∷ waits
    → (foreground sys args s).jobs_list.jobs
      ≡ replace_first
          (has_pid job.pid)
          (entry job.job_id job.pid job.command true sys.now)
          s.jobs_list.jobs
unfolding foreground
foreground-Retained sys args job s waits valid got h found pid_pos continues works e =
    let shown : Shell = emit (out (bytes job.command ∷ lit " : " ∷ number (pos job.pid) ∷ [])) s in
    let id_pos = found-Above (has_pid job.pid) 0 s.jobs_list.jobs job h found in
    rw valid (
      rw got (
        ap (λ (l : JobsList). l.jobs)
          (resume_in_foreground-stopped sys job shown waits e pid_pos id_pos continues works)
        ∙ put_back-jobs job true sys.now s.jobs_list h found))
