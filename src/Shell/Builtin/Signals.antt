-- ===== src/Shell/Builtin/Signals.antt =====
-- HW1/KillCommand.cpp and HW1/QuitCommand.cpp: which signals are sent.
use operating_system_whw.Shell.Text.{codes}
use operating_system_whw.Shell.Numbers.{atoi}
use operating_system_whw.Shell.Trace.{Event, out, number, lit, kill, err, Piece, Bytes}
use operating_system_whw.Shell.Jobs.{kill_loop, kill_all_jobs, get_job_by_id, JobEntry}
use operating_system_whw.Shell.Builtin.{
  signal_job, sent_signal, quit, without_first, starts_with_dash, only_digits, kill_job,
  are_kill_params_valid, magnitude, in_range,
}
use operating_system_whw.Common.{
  ap, Bool-cases, ◌⊎◌, ◌&&◌, refl, none, inr, inl, false, Option, Bool, arith, ◌≡◌, ◌∷◌, ◌<◌, ℤ, ℕ,
  true, some, pos, negsuc, [], List,
}
use operating_system_whw.Shell.State.{emit_all, emit, System, Shell}

-- One signal, with a number from 1 to 32, to the job that the list has under the identifier.
pub record Sent (args : List Bytes) (s t : Shell) : Type 0 where
  signal : Bytes
  job_id : Bytes
  job : JobEntry
  arguments : args ≡ signal ∷ job_id ∷ []
  listed : get_job_by_id (atoi job_id) s.jobs_list ≡ some job
  at_least_one : 0 < sent_signal signal
  at_most_32 : sent_signal signal < 33
  sent :
      t
      ≡ emit_all
          (out (
              lit "signal number "
              ∷ number (pos (sent_signal signal))
              ∷ lit " was sent to pid "
              ∷ number (pos job.pid)
              ∷ [])
            ∷ kill job.pid (sent_signal signal)
            ∷ [])
          s

-- One line on `cerr` and no signal.
pub Refused : (s t : Shell) → Type 0
Refused s t = (text : List Piece) × (t ≡ emit (err text) s)

in_range-bounds : (n : ℤ) → in_range n ≡ true → (0 < magnitude n) × (magnitude n < 33)
in_range-bounds (pos n) e = (ground arith, ground arith)
in_range-bounds (negsuc n) e = absurd (cc)

and-left : (a b : Bool) → a && b ≡ true → a ≡ true
and-left true b e = refl
and-left false b e = e

and-right : (a b : Bool) → a && b ≡ true → b ≡ true
and-right true b e = e
and-right false b e = absurd (cc)

valid-range :
    (signal job_id : Bytes)
    → are_kill_params_valid signal job_id ≡ true
    → in_range (atoi (without_first signal)) ≡ true
unfolding are_kill_params_valid
valid-range signal job_id e =
    let rest =
      and-right (starts_with_dash signal)
        ((only_digits (without_first signal) && in_range (atoi (without_first signal)))
          && only_digits job_id)
        e in
    and-right (only_digits (without_first signal)) (in_range (atoi (without_first signal))) (
      and-left (only_digits (without_first signal) && in_range (atoi (without_first signal)))
        (only_digits job_id) rest)

found_cases : (o : Option JobEntry) → (o ≡ none) ⊎ ((job : JobEntry) × (o ≡ some job))
found_cases none = inl refl
found_cases (some job) = inr (job, refl)

kill_valid :
    (signal job_id : Bytes) (s : Shell)
    → are_kill_params_valid signal job_id ≡ true
    → Refused s (signal_job signal job_id (get_job_by_id (atoi job_id) s.jobs_list) s)
      ⊎ Sent
          (signal ∷ job_id ∷ [])
          s
          (signal_job signal job_id (get_job_by_id (atoi job_id) s.jobs_list) s)
unfolding Refused signal_job
kill_valid signal job_id s valid = elim (found_cases (get_job_by_id (atoi job_id) s.jobs_list)) [
  | inl missing ↦ inl (
    lit "smash error: kill: job-id " ∷ number (atoi job_id) ∷ lit " does not exist" ∷ [],
    ap (λ (o : Option JobEntry). signal_job signal job_id o s) missing,
  )
  | inr (job, there) ↦
      let bounds =
        in_range-bounds (atoi (without_first signal)) (valid-range signal job_id valid) in
      inr (record {
        signal = signal;
        job_id = job_id;
        job = job;
        arguments = refl;
        listed = there;
        at_least_one = bounds.0;
        at_most_32 = bounds.1;
        sent = ap (λ (o : Option JobEntry). signal_job signal job_id o s) there;
      })
]

-- `kill` reports one error and sends nothing, or it has two arguments and sends one signal, with
-- a number from 1 to 32, to the job that the list has under the second; nothing else of the shell
-- changes.
pub kill_job-Sent :
    (args : List Bytes) (s : Shell) → Refused s (kill_job args s) ⊎ Sent args s (kill_job args s)
unfolding kill_job Refused
kill_job-Sent [] s = inl (_, refl)
kill_job-Sent (signal ∷ []) s = inl (_, refl)
kill_job-Sent (signal ∷ job_id ∷ []) s = elim (Bool-cases (are_kill_params_valid signal job_id)) [
  | inl valid ↦ rw valid (kill_valid signal job_id s valid)
  | inr invalid ↦ rw invalid (inl (lit "smash error: kill: invalid arguments" ∷ [], refl))
]
kill_job-Sent (signal ∷ job_id ∷ x ∷ rest) s = inl (_, refl)

-- The processes that get a signal, with its number.
unfoldable pub signals_of : List Event → List (ℕ × ℕ)
signals_of [] = []
signals_of (kill pid signal ∷ events) = (pid, signal) ∷ signals_of events
signals_of (_ ∷ events) = signals_of events

unfoldable pub killed : List JobEntry → List (ℕ × ℕ)
killed [] = []
killed (job ∷ jobs) = (job.pid, 9) ∷ killed jobs

kill_loop-killed :
    (can_kill : ℕ → ℕ → Bool) (jobs : List JobEntry)
    → signals_of (kill_loop can_kill jobs) ≡ killed jobs
unfolding kill_loop signals_of killed
kill_loop-killed can_kill [] = refl
kill_loop-killed can_kill (job ∷ jobs) = elim (Bool-cases (can_kill job.pid 9)) [
  | inl e ↦ rw e (ap (λ ps. (job.pid, 9) ∷ ps) (kill_loop-killed can_kill jobs))
  | inr e ↦ rw e (ap (λ ps. (job.pid, 9) ∷ ps) (kill_loop-killed can_kill jobs))
]

-- `quit kill` sends SIGKILL to every job of the list, once and in order, also after one of the
-- calls has failed, and the list stays as it was.
pub quit-Killed :
    (sys : System) (args : List Bytes) (s : Shell)
    → (events : List Event) × (quit sys (codes "kill" ∷ args) s ≡ emit_all events s)
      × (signals_of events ≡ killed s.jobs_list.jobs)
unfolding quit kill_all_jobs signals_of
quit-Killed sys args s = (
  kill_all_jobs (λ pid signal. sys.works (kill pid signal)) s.jobs_list,
  refl,
  kill_loop-killed (λ pid signal. sys.works (kill pid signal)) s.jobs_list.jobs,
)
