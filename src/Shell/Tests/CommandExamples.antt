-- ===== src/Shell/Tests/CommandExamples.antt =====
-- Examples of the commands of HW1.
use operating_system_whw.Shell.Trace.{out, number, lit, kill, chdir}
use operating_system_whw.Shell.Text.{is_white, find_first_not_of, codes}
use operating_system_whw.Shell.State.{child}
use operating_system_whw.Shell.Redirection.{redirected_process}
use operating_system_whw.Shell.Pipe.{second_process, first_process}
use operating_system_whw.Shell.Numbers.{strtol, read_digits, atoi}
use operating_system_whw.Shell.Jobs.Replace.{replace_first}
use operating_system_whw.Shell.Jobs.Insert.{entry}
use operating_system_whw.Shell.Jobs.{
  last_stopped_loop, has_pid, get_last_stopped_job, get_job_by_id, find_job,
}
use operating_system_whw.Shell.External.{foreground_process, background_process}
use operating_system_whw.Shell.Children.{children-Over}
use operating_system_whw.Shell.Builtin.Signals.{kill_job-Sent, Sent, Refused}
use operating_system_whw.Shell.Builtin.Retained.{foreground-Retained}
use operating_system_whw.Shell.Builtin.Places.{background-Place}
use operating_system_whw.Shell.Builtin.Foreground.{get_foreground_job, foreground, are_params_valid}
use operating_system_whw.Shell.Builtin.Directory.{change_dir-back}
use operating_system_whw.Shell.Builtin.Background.{get_background_job, background}
use operating_system_whw.Shell.Builtin.{signal_job, kill_job, change_dir, are_kill_params_valid}
use operating_system_whw.Common.{◌⊎◌, ◌≡◌, ◌∷◌, true, refl, pos, not, arith, []}
use operating_system_whw.Shell.Tests.{
  two_jobs, three_jobs-IsOrdered, three_jobs, shell_with, editor, system,
}

background-Place_example :
    (background system [] (shell_with three_jobs)).jobs_list.jobs
    ≡ replace_first
        (has_pid 12)
        (entry 2 12 (codes "vi") (not (system.works (kill 12 18))) 100)
        three_jobs.jobs
unfolding are_params_valid get_background_job get_last_stopped_job last_stopped_loop find_job
background-Place_example =
    background-Place system [] editor (shell_with three_jobs) refl refl refl three_jobs-IsOrdered.0
      refl

foreground-Retained_example :
    (foreground system (codes "2" ∷ []) (shell_with three_jobs)).jobs_list.jobs
    ≡ replace_first (has_pid 12) (entry 2 12 (codes "vi") true 100) three_jobs.jobs
unfolding are_params_valid get_foreground_job get_job_by_id find_job strtol read_digits is_white
foreground-Retained_example =
    foreground-Retained system (codes "2" ∷ []) editor (shell_with three_jobs) [] refl refl
      three_jobs-IsOrdered.0 refl (omega arith) refl refl refl

change_dir-back_example :
    change_dir system (codes "-" ∷ []) (change_dir system (codes "/tmp" ∷ []) (shell_with two_jobs))
    ≡ record (shell_with two_jobs) {
      log = chdir (codes "/tmp") ∷ chdir (codes "/home") ∷ [];
      previous_directory = codes "/tmp";
    }
change_dir-back_example =
    change_dir-back system (codes "/tmp") (codes "/tmp") (codes "/tmp") b'/' (codes "home")
      (shell_with two_jobs) refl refl refl refl refl refl

kill_job-Sent_example :
    Refused (shell_with two_jobs) (kill_job (codes "-9" ∷ codes "2" ∷ []) (shell_with two_jobs))
    ⊎ Sent
        (codes "-9" ∷ codes "2" ∷ [])
        (shell_with two_jobs)
        (kill_job (codes "-9" ∷ codes "2" ∷ []) (shell_with two_jobs))
kill_job-Sent_example = kill_job-Sent (codes "-9" ∷ codes "2" ∷ []) (shell_with two_jobs)

-- Signal 9 goes to process 12.
killed_second :
    (kill_job (codes "-9" ∷ codes "2" ∷ []) (shell_with two_jobs)).log
    ≡ out (lit "signal number " ∷ number (pos 9) ∷ lit " was sent to pid " ∷ number (pos 12) ∷ [])
      ∷ kill 12 9
      ∷ []
unfolding kill_job signal_job are_kill_params_valid atoi strtol read_digits is_white
    find_first_not_of get_job_by_id find_job
killed_second = refl

-- 4294967298 is 2 in an `int`.
killed_wrapped :
    (kill_job (codes "-9" ∷ codes "4294967298" ∷ []) (shell_with two_jobs)).log
    ≡ (kill_job (codes "-9" ∷ codes "2" ∷ []) (shell_with two_jobs)).log
unfolding kill_job signal_job are_kill_params_valid atoi strtol read_digits is_white
    find_first_not_of get_job_by_id find_job
killed_wrapped = refl

children-Over_example :
    ((foreground_process system (codes "ls" ∷ []) child (shell_with two_jobs)).is_over ≡ true)
    × ((background_process system (codes "ls" ∷ []) child (shell_with two_jobs)).is_over ≡ true)
    × ((first_process system (codes "ls ") (codes " wc") child (shell_with two_jobs)).is_over
        ≡ true)
    × ((second_process system (codes "ls ") (codes " wc") 20 child (shell_with two_jobs)).is_over
        ≡ true)
    × ((redirected_process system
          (codes "ls ")
          (codes " wc")
          true
          child
          (shell_with two_jobs)).is_over
        ≡ true)
children-Over_example =
    children-Over system (codes "ls" ∷ []) (codes "ls ") (codes " wc") 20 true (shell_with two_jobs)
