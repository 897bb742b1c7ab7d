-- ===== src/Shell/Text.antt =====
-- HW1/SmallShell.cpp and HW1/CommandExecutor.cpp: command lines as bytes.
pub mod Words
pub mod Join
use Prim.Native.Char.{code}
use Prim.Native.String.{String}
use mathlib.Core.Option.{Option, none, some}
use operating_system_whw.Common.{
  ℕ, ◌+◌, ◌-◌, zero, suc, Bool, true, false, ◌&&◌, ◌||◌, List, [], ◌∷◌, ◌++◌, ◌==◌, if◌then◌else◌,
  length, take, get_elem?,
}
use operating_system_whw.Shell.Trace.{Bytes}

-- The bytes of a literal. `String` has its own `[]` and `∷`.
abbrev pub codes : String → Bytes
codes String.[] = []
codes (String.◌∷◌ c s) = code c ∷ codes s

-- `==` of strings
abbrev pub same : Bytes → Bytes → Bool
same [] [] = true
same (a ∷ s) (b ∷ t) = (a == b) && same s t
same _ _ = false

abbrev pub is_empty {ℓ} : {A : Type ℓ} → List A → Bool
is_empty [] = true
is_empty (_ ∷ _) = false

-- WHITESPACE, which is also what `>>` skips.
unfoldable pub is_white : ℕ → Bool
is_white c = (c == 32) || ((c == 10) || ((c == 13) || ((c == 9) || ((c == 12) || (c == 11)))))

abbrev pub drop {ℓ} : {A : Type ℓ} → ℕ → List A → List A
drop zero xs = xs
drop (suc n) [] = []
drop (suc n) (_ ∷ xs) = drop n xs

-- `find_first_not_of`, of the bytes that pass the test; `none` is `npos`.
unfoldable pub find_first_not_of : (ℕ → Bool) → Bytes → Option ℕ
find_first_not_of test [] = none
find_first_not_of test (c ∷ s) =
    if test c
    then elim (find_first_not_of test s) [ none ↦ none | some i ↦ some (suc i) ]
    else some 0

-- `find_last_not_of`
unfoldable pub find_last_not_of : (ℕ → Bool) → Bytes → Option ℕ
find_last_not_of test [] = none
find_last_not_of test (c ∷ s) = elim (find_last_not_of test s) [
  | none ↦ if test c then none else some 0
  | some i ↦ some (suc i)
]

unfoldable pub ltrim : Bytes → Bytes
ltrim s = elim (find_first_not_of is_white s) [ none ↦ [] | some start ↦ drop start s ]

unfoldable pub rtrim : Bytes → Bytes
rtrim s = elim (find_last_not_of is_white s) [ none ↦ [] | some last ↦ take (suc last) s ]

unfoldable pub trim : Bytes → Bytes
trim s = rtrim (ltrim s)

-- A word that has ended, unless it has no byte.
abbrev pub end_word : Bytes → List Bytes → List Bytes
end_word [] rest = rest
end_word (c ∷ word) rest = (c ∷ word) ∷ rest

-- The loop of `iss >> s`, with the word read so far.
unfoldable pub words_loop : Bytes → Bytes → List Bytes
words_loop word [] = end_word word []
words_loop word (c ∷ s) =
    if is_white c then end_word word (words_loop [] s) else words_loop (word ++ (c ∷ [])) s

unfoldable pub parse_command_line : Bytes → List Bytes
parse_command_line line = words_loop [] (trim line)

-- The loop of `getline`, with the part read so far: nothing after the last delimiter is no part.
unfoldable pub split_loop : (delimiter : ℕ) → Bytes → Bytes → List Bytes
split_loop delimiter part [] = end_word part []
split_loop delimiter part (c ∷ s) =
    if c == delimiter
    then part ∷ split_loop delimiter [] s
    else split_loop delimiter (part ++ (c ∷ [])) s

unfoldable pub split_command : Bytes → (delimiter : ℕ) → List Bytes
split_command line delimiter = split_loop delimiter [] (trim line)

-- Whether the text begins with the part.
abbrev pub begins : (part text : Bytes) → Bool
begins [] s = true
begins (a ∷ part) [] = false
begins (a ∷ part) (c ∷ s) = (a == c) && begins part s

-- `find` of a part that is not empty; `none` is `npos`.
unfoldable pub find : (part text : Bytes) → Option ℕ
find part [] = none
find part (c ∷ s) =
    if begins part (c ∷ s)
    then some 0
    else elim (find part s) [ none ↦ none | some i ↦ some (suc i) ]

abbrev pub contains : (part text : Bytes) → Bool
contains part s = elim (find part s) [ none ↦ false | some _ ↦ true ]

unfoldable pub is_pipe_command : Bytes → Bool
is_pipe_command line = length (split_command line b'|') == 2

unfoldable pub is_redirection_command : Bytes → Bool
is_redirection_command line = contains (codes ">>") line || contains (codes ">") line

-- The command, the sign and the file. With no sign `index` is -1, and both texts are the line.
unfoldable pub tokenize_redirection_command : Bytes → Bytes × Bytes × Bytes
tokenize_redirection_command line =
    let sign = if contains (codes ">>") line then codes ">>" else codes ">" in
    elim (find sign line) [
      | none ↦ (trim line, sign, trim (drop (length sign - 1) line))
      | some index ↦ (trim (take index line), sign, trim (drop (index + length sign) line))
    ]

abbrev pub byte_at : Bytes → ℕ → ℕ
byte_at s i = elim (get_elem? s i) [ none ↦ 0 | some c ↦ c ]

-- The last byte that is not white is `&`. No caller has a line with white bytes only, where the
-- code reads out of bounds.
unfoldable pub is_background_command : Bytes → Bool
is_background_command line = elim (find_last_not_of is_white line) [
  | none ↦ false
  | some last ↦ byte_at line last == b'&'
]

-- Without a last byte `&`. No caller has an empty text, where the code reads out of bounds.
unfoldable pub remove_trailing_background_char : Bytes → Bytes
remove_trailing_background_char s =
    if byte_at s (length s - 1) == b'&' then take (length s - 1) s else s

-- `getBashCommand`: each argument with a blank behind it, less the last blank.
unfoldable pub join_loop : List Bytes → Bytes
join_loop [] = []
join_loop (arg ∷ args) = arg ++ (32 ∷ join_loop args)

unfoldable pub get_bash_command : List Bytes → Bytes
get_bash_command args = take (length (join_loop args) - 1) (join_loop args)
