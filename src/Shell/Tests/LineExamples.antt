-- ===== src/Shell/Tests/LineExamples.antt =====
-- Examples of command lines and of the loop of HW1.
use operating_system_whw.Shell.Trace.{Bytes}
use operating_system_whw.Shell.Text.Join.{unmark}
use operating_system_whw.Shell.Text.{
  words_loop, trim, tokenize_redirection_command, split_loop, split_command, rtrim,
  parse_command_line, ltrim, is_white, remove_trailing_background_char, find_last_not_of,
  find_first_not_of, find, codes,
}
use operating_system_whw.Shell.State.{stop, interrupt, parent, deliver, init_environment, Shell}
use operating_system_whw.Shell.Jobs.{empty_list}
use operating_system_whw.Shell.Idle.Prompt.{main_loop-heard, only_heard}
use operating_system_whw.Shell.Loop.Ends.{main_loop-Quits, IsQuit}
use operating_system_whw.Shell.Loop.Endless.{main_loop-endless}
use operating_system_whw.Shell.Loop.{main_loop, Round}
use operating_system_whw.Common.{◌≡◌, ◌∷◌, ◌++◌, true, some, refl, false, []}
use operating_system_whw.Shell.Tests.{two_jobs, shell_with, system}

abbrev round_of : Bytes → Round
round_of line = record { sys = system; signals = stop ∷ []; line = line }

parse-words : parse_command_line (codes "  ls\t-l  & ") ≡ codes "ls" ∷ codes "-l" ∷ codes "&" ∷ []
unfolding parse_command_line trim ltrim rtrim find_first_not_of find_last_not_of words_loop is_white
parse-words = refl

split-parts : split_command (codes " ls | wc|") b'|' ≡ codes "ls " ∷ codes " wc" ∷ []
unfolding split_command split_loop trim ltrim rtrim find_first_not_of find_last_not_of is_white
split-parts = refl

tokenize-parts :
    tokenize_redirection_command (codes "ls -l >> out ") ≡ (codes "ls -l", codes ">>", codes "out")
unfolding tokenize_redirection_command find trim ltrim rtrim find_first_not_of find_last_not_of
    is_white
tokenize-parts = refl

unmarked_words : unmark (parse_command_line (codes " sleep  5& ")) ≡ codes "sleep" ∷ codes "5" ∷ []
unfolding unmark parse_command_line trim ltrim rtrim find_first_not_of find_last_not_of words_loop
    is_white remove_trailing_background_char
unmarked_words = refl

codes-IsQuit : IsQuit (codes "quit kill")
unfolding IsQuit parse_command_line trim ltrim rtrim find_first_not_of find_last_not_of words_loop
    is_white
codes-IsQuit = (codes "quit", codes "kill" ∷ [], refl, refl)

main_loop-Quits_example :
    (main_loop
      ((round_of (codes "pwd") ∷ []) ++ (round_of (codes "quit kill") ∷ round_of [] ∷ []))
      (shell_with two_jobs)).0
    ≡ false
main_loop-Quits_example =
    main_loop-Quits (round_of (codes "pwd") ∷ []) (round_of [] ∷ []) (round_of (codes "quit kill"))
      (shell_with two_jobs) codes-IsQuit

main_loop-endless_example :
    (main_loop (round_of [] ∷ round_of [] ∷ []) (shell_with two_jobs)).0 ≡ true
main_loop-endless_example =
    main_loop-endless (round_of [] ∷ round_of [] ∷ []) (shell_with two_jobs) (refl, (refl, _)) refl

abbrev new_shell : Shell
new_shell = record (shell_with empty_list) { forks = parent 40 ∷ [] }

made : init_environment system (codes "/home") (parent 40 ∷ []) ((stop ∷ []) ∷ []) ≡ some new_shell
unfolding init_environment
made = refl

main_loop-heard_example :
    deliver system (interrupt ∷ stop ∷ []) (main_loop (round_of (codes "vi") ∷ []) new_shell).1
    ≡ only_heard (interrupt ∷ stop ∷ []) (main_loop (round_of (codes "vi") ∷ []) new_shell).1
main_loop-heard_example =
    main_loop-heard system (codes "/home") (parent 40 ∷ []) ((stop ∷ []) ∷ []) new_shell
      (round_of (codes "vi") ∷ []) system (interrupt ∷ stop ∷ []) made
