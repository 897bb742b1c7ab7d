-- ===== src/Shell/Text/Words.antt =====
-- HW1/SmallShell.cpp: the words of a command line.
use operating_system_whw.Shell.Text.{
  trim, parse_command_line, find_last_not_of, words_loop, rtrim, ltrim, is_white, is_empty,
  find_first_not_of, end_word,
}
use operating_system_whw.Common.{
  ◌⊎◌, true, sym, some, none, Option, ◌≡◌, ◌∷◌, ◌∙◌, ◌++◌, ℕ, refl, inr, inl, false, arith, ap, [],
  List, Bool-cases,
}
use operating_system_whw.Shell.Trace.{Bytes}

unfoldable pub NoWhite : Bytes → Type 0
NoWhite [] = Unit
NoWhite (c ∷ s) = (is_white c ≡ false) × NoWhite s

-- Each is a word: not empty, and without white bytes.
unfoldable pub AllWords : List Bytes → Type 0
AllWords [] = Unit
AllWords (word ∷ words) = (is_empty word ≡ false) × NoWhite word × AllWords words

NoWhite-append : (s : Bytes) (c : ℕ) → NoWhite s → is_white c ≡ false → NoWhite (s ++ (c ∷ []))
unfolding NoWhite
NoWhite-append [] c h e = (e, _)
NoWhite-append (d ∷ s) c h e = (h.0, NoWhite-append s c h.1 e)

AllWords-end_word :
    (word : Bytes) (rest : List Bytes)
    → NoWhite word
    → AllWords rest
    → AllWords (end_word word rest)
unfolding AllWords
AllWords-end_word [] rest h hs = hs
AllWords-end_word (c ∷ word) rest h hs = (refl, h, hs)

pub AllWords-words_loop : (word s : Bytes) → NoWhite word → AllWords (words_loop word s)
unfolding words_loop AllWords NoWhite
AllWords-words_loop word [] h = AllWords-end_word word [] h _
AllWords-words_loop word (c ∷ s) h = elim (Bool-cases (is_white c)) [
  | inl e ↦ rw e (AllWords-end_word word (words_loop [] s) h (AllWords-words_loop [] s _))
  | inr e ↦ rw e (AllWords-words_loop (word ++ (c ∷ [])) s (NoWhite-append word c h e))
]

words_loop-end : (word : Bytes) → words_loop word [] ≡ end_word word []
unfolding words_loop
words_loop-end word = refl

pub words_loop-white :
    (word : Bytes) (c : ℕ) (s : Bytes)
    → is_white c ≡ true
    → words_loop word (c ∷ s) ≡ end_word word (words_loop [] s)
unfolding words_loop
words_loop-white word c s e = rw e refl

pub words_loop-black :
    (word : Bytes) (c : ℕ) (s : Bytes)
    → is_white c ≡ false
    → words_loop word (c ∷ s) ≡ words_loop (word ++ (c ∷ [])) s
unfolding words_loop
words_loop-black word c s e = rw e refl

ltrim-white : (c : ℕ) (s : Bytes) → is_white c ≡ true → ltrim (c ∷ s) ≡ ltrim s
unfolding ltrim find_first_not_of
ltrim-white c s e = ground arith

ltrim-kept : (c : ℕ) (s : Bytes) → is_white c ≡ false → ltrim (c ∷ s) ≡ c ∷ s
unfolding ltrim find_first_not_of
ltrim-kept c s e = ground arith

words_loop-ltrim : (s : Bytes) → words_loop [] (ltrim s) ≡ words_loop [] s
unfolding ltrim find_first_not_of
words_loop-ltrim [] = refl
words_loop-ltrim (c ∷ s) = elim (Bool-cases (is_white c)) [
  | inl e ↦
      ap (words_loop []) (ltrim-white c s e)
      ∙ (words_loop-ltrim s ∙ sym (words_loop-white [] c s e))
  | inr e ↦ ap (words_loop []) (ltrim-kept c s e)
]

last_cases : (o : Option ℕ) → (o ≡ none) ⊎ ((i : ℕ) × (o ≡ some i))
last_cases none = inl refl
last_cases (some i) = inr (i, refl)

rtrim-some :
    (c : ℕ) (s : Bytes) (i : ℕ) → find_last_not_of is_white s ≡ some i → rtrim (c ∷ s) ≡ c ∷ rtrim s
unfolding rtrim find_last_not_of
rtrim-some c s i e = ground arith

rtrim-none : (s : Bytes) → find_last_not_of is_white s ≡ none → rtrim s ≡ []
unfolding rtrim
rtrim-none s e = ground arith

rtrim-white :
    (c : ℕ) (s : Bytes)
    → find_last_not_of is_white s ≡ none
    → is_white c ≡ true
    → rtrim (c ∷ s) ≡ []
unfolding rtrim find_last_not_of
rtrim-white c s e white = ground arith

rtrim-kept :
    (c : ℕ) (s : Bytes)
    → find_last_not_of is_white s ≡ none
    → is_white c ≡ false
    → rtrim (c ∷ s) ≡ c ∷ []
unfolding rtrim find_last_not_of
rtrim-kept c s e black = ground arith

-- By the last byte of `s` that is not white.
words_loop-rtrim : (word s : Bytes) → words_loop word (rtrim s) ≡ words_loop word s
unfolding rtrim find_last_not_of
words_loop-rtrim word [] = refl
words_loop-rtrim word (c ∷ s) = elim (Bool-cases (is_white c)) [
  | inl white ↦ elim (last_cases (find_last_not_of is_white s)) [
    | inl e ↦
        ap (words_loop word) (rtrim-white c s e white)
        ∙ (words_loop-end word
            ∙ (ap (end_word word) (
                  sym (words_loop-end [])
                  ∙ (ap (words_loop []) (sym (rtrim-none s e)) ∙ words_loop-rtrim [] s))
                ∙ sym (words_loop-white word c s white)))
    | inr (i, e) ↦
        ap (words_loop word) (rtrim-some c s i e)
        ∙ (words_loop-white word c (rtrim s) white
            ∙ (ap (end_word word) (words_loop-rtrim [] s) ∙ sym (words_loop-white word c s white)))
  ]
  | inr black ↦ elim (last_cases (find_last_not_of is_white s)) [
    | inl e ↦
        ap (words_loop word) (rtrim-kept c s e black)
        ∙ (words_loop-black word c [] black
            ∙ (ap (words_loop (word ++ (c ∷ []))) (sym (rtrim-none s e))
                ∙ (words_loop-rtrim (word ++ (c ∷ [])) s ∙ sym (words_loop-black word c s black))))
    | inr (i, e) ↦
        ap (words_loop word) (rtrim-some c s i e)
        ∙ (words_loop-black word c (rtrim s) black
            ∙ (words_loop-rtrim (word ++ (c ∷ [])) s ∙ sym (words_loop-black word c s black)))
  ]
]

-- Trimming a line changes none of its words.
pub parse_command_line-words : (line : Bytes) → parse_command_line line ≡ words_loop [] line
unfolding parse_command_line trim
parse_command_line-words line = words_loop-rtrim [] (ltrim line) ∙ words_loop-ltrim line

pub AllWords-parse_command_line : (line : Bytes) → AllWords (parse_command_line line)
unfolding parse_command_line NoWhite
AllWords-parse_command_line line = AllWords-words_loop [] (trim line) _
