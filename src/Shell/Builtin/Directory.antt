-- ===== src/Shell/Builtin/Directory.antt =====
-- HW1/ChangeDirCommand.cpp: going to a directory and back.
use mathlib.Core.Path.{subst}
use operating_system_whw.Shell.Trace.{chdir, Bytes}
use operating_system_whw.Shell.Text.{same, codes}
use operating_system_whw.Shell.Builtin.{go_back, go_to, change_dir}
use operating_system_whw.Common.{◌∙◌, sym, ap, ℕ, arith, ◌≡◌, ◌∷◌, ◌++◌, some, refl, false, []}
use operating_system_whw.Shell.State.{System, Shell}

-- The shell in the directory that `path` led to.
there_state : System → (path there name : Bytes) → Shell → Shell
there_state sys path there name s = record s {
  log = s.log ++ (chdir path ∷ []);
  working_directory = there;
  current_directory = name;
  previous_directory = s.current_directory;
}

go_to-there :
    (sys : System) (path there name : Bytes) (s : Shell)
    → sys.resolve s.working_directory path ≡ some there
    → sys.name_of there ≡ some name
    → go_to sys path s ≡ there_state sys path there name s
unfolding go_to there_state
go_to-there sys path there name s leads named = ground arith

go_back-full :
    (sys : System) (previous : Bytes) (first : ℕ) (rest : Bytes) (s : Shell)
    → previous ≡ first ∷ rest
    → go_back sys previous s ≡ go_to sys previous s
unfolding go_back
go_back-full sys previous first rest s e =
    subst (λ (d : Bytes). go_back sys d s ≡ go_to sys d s) (sym e) refl

change_dir-dash :
    (sys : System) (s : Shell)
    → change_dir sys (codes "-" ∷ []) s ≡ go_back sys s.previous_directory s
unfolding change_dir
change_dir-dash sys s = refl

-- `cd path`, of a path that leads to a directory, and `cd -` after it, where the shell knew the
-- name of the directory that it was in and that name leads back: the shell is in the directory
-- that it was in, and the next `cd -` goes to the other.
pub change_dir-back :
    (sys : System) (path there name : Bytes) (first : ℕ) (rest : Bytes) (s : Shell)
    → same path (codes "-") ≡ false
    → sys.resolve s.working_directory path ≡ some there
    → sys.name_of there ≡ some name
    → s.current_directory ≡ first ∷ rest
    → sys.resolve there s.current_directory ≡ some s.working_directory
    → sys.name_of s.working_directory ≡ some s.current_directory
    → change_dir sys (codes "-" ∷ []) (change_dir sys (path ∷ []) s) ≡ record s {
      log = (s.log ++ (chdir path ∷ [])) ++ (chdir s.current_directory ∷ []);
      previous_directory = name;
    }
unfolding change_dir there_state
change_dir-back sys path there name first rest s other leads named e back here =
    let away : change_dir sys (path ∷ []) s ≡ there_state sys path there name s =
      rw other (go_to-there sys path there name s leads named) in
    let t : Shell = there_state sys path there name s in
    ap (change_dir sys (codes "-" ∷ [])) away
    ∙ (change_dir-dash sys t
        ∙ (go_back-full sys s.current_directory first rest t e
            ∙ go_to-there sys s.current_directory s.working_directory s.current_directory t back
                here))
