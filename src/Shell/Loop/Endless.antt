-- ===== src/Shell/Loop/Endless.antt =====
-- HW1/smash.cpp: the loop after the end of the input, where `getline` leaves an empty line.
use operating_system_whw.Shell.Loop.Ends.{main_loop-go}
use mathlib.Core.Path.{subst}
use operating_system_whw.Shell.Trace.{kill, Bytes}
use operating_system_whw.Shell.Text.{
  words_loop, trim, rtrim, parse_command_line, ltrim, find_last_not_of, find_first_not_of,
}
use operating_system_whw.Shell.Loop.{
  prompt, run_line, main_round, main_loop, execute_command, collect, Round,
}
use operating_system_whw.Common.{
  sym, Bool, ◌≡◌, ◌∷◌, ◌∙◌, ◌==◌, ◌&&◌, true, refl, not, inr, inl, false, ap, [], List, Bool-cases,
}
use operating_system_whw.Shell.State.{
  stop, interrupt, handle_stp_signal, handle_int_signal, deliver, Signal, System, Shell,
}

-- Each line is empty.
abbrev pub AtEnd : List Round → Type 0
AtEnd [] = Unit
AtEnd (r ∷ rounds) = (r.line ≡ []) × AtEnd rounds

handle_int_signal-is_over :
    (sys : System) (s : Shell) → (handle_int_signal sys s).is_over ≡ s.is_over
unfolding handle_int_signal
handle_int_signal-is_over sys s = elim (Bool-cases (s.foreground_pid == 0)) [
  | inl e ↦ rw e refl
  | inr e ↦ rw e (elim (Bool-cases (sys.works (kill s.foreground_pid 9))) [
    | inl f ↦ rw f refl
    | inr f ↦ rw f refl
  ])
]

handle_stp_signal-is_over :
    (sys : System) (s : Shell) → (handle_stp_signal sys s).is_over ≡ s.is_over
unfolding handle_stp_signal
handle_stp_signal-is_over sys s = elim (Bool-cases (s.foreground_pid == 0)) [
  | inl e ↦ rw e refl
  | inr e ↦ rw e (elim (Bool-cases (sys.works (kill s.foreground_pid 19))) [
    | inl f ↦ rw f refl
    | inr f ↦ rw f refl
  ])
]

pub deliver-is_over :
    (sys : System) (signals : List Signal) (s : Shell) → (deliver sys signals s).is_over ≡ s.is_over
unfolding deliver
deliver-is_over sys [] s = refl
deliver-is_over sys (interrupt ∷ signals) s =
    deliver-is_over sys signals (handle_int_signal sys s) ∙ handle_int_signal-is_over sys s
deliver-is_over sys (stop ∷ signals) s =
    deliver-is_over sys signals (handle_stp_signal sys s) ∙ handle_stp_signal-is_over sys s

parse-empty : parse_command_line [] ≡ []
unfolding parse_command_line words_loop trim ltrim rtrim find_first_not_of find_last_not_of
parse-empty = refl

execute_command-empty :
    (sys : System) (line : Bytes) (s : Shell)
    → line ≡ []
    → execute_command sys line s ≡ (true, record s { current_command = line })
unfolding execute_command run_line
execute_command-empty sys line s e =
    ap (λ (ws : List Bytes). run_line sys line ws (record s { current_command = line }))
      (ap parse_command_line e ∙ parse-empty)

main_round-empty :
    (r : Round) (s : Shell)
    → r.line ≡ []
    → s.is_over ≡ false
    → (main_round r s).0 && not (main_round r s).1.is_over ≡ true
unfolding main_round collect
main_round-empty r s e alive =
    let t : Shell = collect r.sys (deliver r.sys r.signals (prompt s)) in
    let over : t.is_over ≡ false = deliver-is_over r.sys r.signals (prompt s) ∙ alive in
    subst (λ (x : Bool × Shell). x.0 && not x.1.is_over ≡ true)
      (sym (execute_command-empty r.sys r.line t e)) (ap not over)

main_round-empty_alive :
    (r : Round) (s : Shell) → r.line ≡ [] → s.is_over ≡ false → (main_round r s).1.is_over ≡ false
unfolding main_round collect
main_round-empty_alive r s e alive =
    let t : Shell = collect r.sys (deliver r.sys r.signals (prompt s)) in
    ap (λ (x : Bool × Shell). x.1.is_over) (execute_command-empty r.sys r.line t e)
    ∙ (deliver-is_over r.sys r.signals (prompt s) ∙ alive)

-- After the end of the input no round ends the loop, however many there are: the shell goes on
-- printing its prompt.
pub main_loop-endless :
    (rounds : List Round) (s : Shell)
    → AtEnd rounds
    → s.is_over ≡ false
    → (main_loop rounds s).0 ≡ true
unfolding main_loop
main_loop-endless [] s h alive = refl
main_loop-endless (r ∷ rounds) s h alive =
    let go = main_round-empty r s h.0 alive in
    ap (λ (t : Bool × Shell). t.0) (main_loop-go r rounds s go)
    ∙ main_loop-endless rounds (main_round r s).1 h.1 (main_round-empty_alive r s h.0 alive)
