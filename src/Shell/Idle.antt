-- ===== src/Shell/Idle.antt =====
-- HW1/SmallShell.cpp: the process in the foreground, between two commands.
pub mod Commands
pub mod Processes
pub mod Lines
pub mod Prompt
use Prim.Native.String.{String}
use operating_system_whw.Common.{
  ℕ, ◌≡◌, refl, arith, Bool, true, false, some, none, Option, List, [], ◌∷◌, Bool-cases, inl, inr,
  ◌∙◌,
}
use operating_system_whw.Shell.Trace.{Bytes, Event, perror, wait}
use operating_system_whw.Shell.Jobs.{JobEntry}
use operating_system_whw.Shell.State.{
  System, Shell, Signal, interrupt, stop, Fork, failed, child, parent, emit, emit_all, attempt,
  handle_int_signal, handle_stp_signal, deliver, serve_waits, wait_for, wait_checked, next_fork,
  end_with, unless_over,
}

-- No process, and no job, is in the foreground.
abbrev pub Idle : Shell → Type 0
Idle s = (s.foreground_pid ≡ 0) × (s.foreground_job_id ≡ 0)

-- The same process and job are in the foreground.
abbrev pub SameFront : Shell → Shell → Type 0
SameFront s t = (t.foreground_pid ≡ s.foreground_pid) × (t.foreground_job_id ≡ s.foreground_job_id)

int-SameFront : (sys : System) (s : Shell) → SameFront s (handle_int_signal sys s)
unfolding handle_int_signal
int-SameFront sys s = ground arith

stp-SameFront : (sys : System) (s : Shell) → SameFront s (handle_stp_signal sys s)
unfolding handle_stp_signal
stp-SameFront sys s = ground arith

pub deliver-SameFront :
    (sys : System) (signals : List Signal) (s : Shell) → SameFront s (deliver sys signals s)
unfolding deliver
deliver-SameFront sys [] s = (refl, refl)
deliver-SameFront sys (interrupt ∷ signals) s =
    let (a, b) = int-SameFront sys s in
    let (c, d) = deliver-SameFront sys signals (handle_int_signal sys s) in (c ∙ a, d ∙ b)
deliver-SameFront sys (stop ∷ signals) s =
    let (a, b) = stp-SameFront sys s in
    let (c, d) = deliver-SameFront sys signals (handle_stp_signal sys s) in (c ∙ a, d ∙ b)

serve-SameFront :
    (sys : System) (waits : List (List Signal)) (s : Shell) → SameFront s (serve_waits sys waits s)
unfolding serve_waits
serve-SameFront sys [] s = (refl, refl)
serve-SameFront sys (signals ∷ waits) s = deliver-SameFront sys signals (record s { waits = waits })

pub wait_for-SameFront : (sys : System) (pid : ℕ) (s : Shell) → SameFront s (wait_for sys pid s)
unfolding wait_for
wait_for-SameFront sys pid s = serve-SameFront sys s.waits (emit (wait pid) s)

pub wait_checked-SameFront :
    (sys : System) (pid : ℕ) (s : Shell) → SameFront s (wait_checked sys pid s)
unfolding wait_checked
wait_checked-SameFront sys pid s = elim (Bool-cases (sys.works (wait pid))) [
  | inl e ↦ rw e (wait_for-SameFront sys pid s)
  | inr e ↦ rw e (wait_for-SameFront sys pid s)
]

pub attempt-Idle :
    (sys : System) (e : Event) (message : String) (s : Shell)
    → Idle s
    → Idle (attempt sys e message s)
unfolding attempt
attempt-Idle sys e message s idle = elim (Bool-cases (sys.works e)) [
  | inl e1 ↦ rw e1 idle
  | inr e1 ↦ rw e1 idle
]

pub next_fork-Idle : (forks : List Fork) (s : Shell) → Idle s → Idle (next_fork forks s).1
unfolding next_fork
next_fork-Idle [] s idle = idle
next_fork-Idle (f ∷ forks) s idle = idle

pub unless_over-Idle :
    (rest : Shell → Shell) (s : Shell)
    → Idle s
    → ((t : Shell) → Idle t → Idle (rest t))
    → Idle (unless_over rest s)
unless_over-Idle rest s idle keeps = elim (Bool-cases s.is_over) [
  | inl e ↦ simp e idle
  | inr e ↦ simp e (keeps s idle)
]

pub same-Idle : (s t : Shell) → SameFront s t → Idle s → Idle t
same-Idle s t (a, b) (c, d) = (a ∙ c, b ∙ d)
