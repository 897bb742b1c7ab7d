-- ===== src/Shell/Tests.antt =====
-- Examples of the shell of HW1: a system that answers, a list of three jobs and a shell.
mod ListExamples
mod CommandExamples
mod LineExamples
use operating_system_whw.Shell.Text.{codes}
use operating_system_whw.Shell.Jobs.Order.{IsOrdered}
use operating_system_whw.Shell.Jobs.{JobsList, JobEntry}
use operating_system_whw.Common.{◌∷◌, ◌==◌, true, some, refl, pos, if◌then◌else◌, false, arith, []}
use operating_system_whw.Shell.State.{stop, System, Shell}

-- Every call succeeds, process 12 has finished, and a path leads to the directory of its name.
abbrev pub system : System
system = record {
  works = λ event. true;
  waitpid = λ pid. if pid == 12 then pos 12 else pos 0;
  now = 100;
  resolve = λ working path. some path;
  name_of = λ directory. some directory;
  reads = λ file. [];
  shell_pid = 7;
}

abbrev pub sleeper : JobEntry
sleeper = record {
  start_time = 5;
  pid = 11;
  job_id = 1;
  command = codes "sleep 9&";
  is_stopped = false;
}

abbrev pub editor : JobEntry
editor = record { start_time = 6; pid = 12; job_id = 2; command = codes "vi"; is_stopped = true }

abbrev pub mailer : JobEntry
mailer = record { start_time = 7; pid = 13; job_id = 4; command = codes "mail"; is_stopped = false }

abbrev pub three_jobs : JobsList
three_jobs = record { jobs = sleeper ∷ editor ∷ mailer ∷ []; max_job_id = 4 }

abbrev pub two_jobs : JobsList
two_jobs = record { jobs = sleeper ∷ editor ∷ []; max_job_id = 2 }

abbrev pub shell_with : JobsList → Shell
shell_with l = record {
  jobs_list = l;
  prompt_name = codes "smash";
  current_directory = codes "/home";
  previous_directory = [];
  foreground_pid = 0;
  foreground_job_id = 0;
  current_command = [];
  working_directory = codes "/home";
  log = [];
  forks = [];
  waits = (stop ∷ []) ∷ [];
  is_over = false;
}

pub three_jobs-IsOrdered : IsOrdered three_jobs
three_jobs-IsOrdered = ((omega arith, (omega arith, (omega arith, _))), refl)

pub two_jobs-IsOrdered : IsOrdered two_jobs
two_jobs-IsOrdered = ((omega arith, (omega arith, _)), refl)
