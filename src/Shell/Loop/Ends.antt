-- ===== src/Shell/Loop/Ends.antt =====
-- HW1/smash.cpp: when the loop over the lines ends.
use operating_system_whw.Shell.Trace.{Bytes}
use operating_system_whw.Shell.Text.{same, parse_command_line, codes}
use operating_system_whw.Shell.Loop.{run_line, main_round, main_loop, execute_command, Round}
use operating_system_whw.Common.{
  ◌≡◌, ◌∷◌, ◌∙◌, ◌++◌, ◌&&◌, true, refl, not, inr, inl, false, ap, [], List, Bool-cases, Bool,
}
use operating_system_whw.Shell.State.{Shell}

-- The first word is `quit`.
unfoldable pub IsQuit : Bytes → Type 0
IsQuit line =
    (word : Bytes) × (args : List Bytes) × (parse_command_line line ≡ word ∷ args)
    × (same word (codes "quit") ≡ true)

main_round-quit : (r : Round) (s : Shell) → IsQuit r.line → (main_round r s).0 ≡ false
unfolding main_round execute_command run_line IsQuit
main_round-quit r s (word, args, parsed, quits) = rw parsed (rw quits refl)

-- The step of the loop, by its test.
main_loop-stop :
    (r : Round) (rounds : List Round) (s : Shell)
    → (main_round r s).0 && not (main_round r s).1.is_over ≡ false
    → (main_loop (r ∷ rounds) s).0 ≡ false
unfolding main_loop
main_loop-stop r rounds s e = λ i.
    (elim (e i) as (λ _. Bool × Shell) [
      | true ↦ main_loop rounds (main_round r s).1
      | false ↦ (false, (main_round r s).1)
    ]).0

pub main_loop-go :
    (r : Round) (rounds : List Round) (s : Shell)
    → (main_round r s).0 && not (main_round r s).1.is_over ≡ true
    → main_loop (r ∷ rounds) s ≡ main_loop rounds (main_round r s).1
unfolding main_loop
main_loop-go r rounds s e = λ i. elim (e i) as (λ _. Bool × Shell) [
  | true ↦ main_loop rounds (main_round r s).1
  | false ↦ (false, (main_round r s).1)
]

false-and : {a : Bool} (b : Bool) → a ≡ false → a && b ≡ false
false-and b e = rw e refl

-- The loop has ended when a line of which the first word is `quit` has been read, whatever the
-- lines before it did, what signals came and what the system answered.
pub main_loop-Quits :
    (before after : List Round) (r : Round) (s : Shell)
    → IsQuit r.line
    → (main_loop (before ++ (r ∷ after)) s).0 ≡ false
main_loop-Quits [] after r s quits =
    main_loop-stop r after s
      (false-and (not (main_round r s).1.is_over) (main_round-quit r s quits))
main_loop-Quits (q ∷ before) after r s quits =
    elim (Bool-cases ((main_round q s).0 && not (main_round q s).1.is_over)) [
      | inl e ↦
          ap (λ (t : Bool × Shell). t.0) (main_loop-go q (before ++ (r ∷ after)) s e)
          ∙ main_loop-Quits before after r (main_round q s).1 quits
      | inr e ↦ main_loop-stop q (before ++ (r ∷ after)) s e
    ]
