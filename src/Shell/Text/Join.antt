-- ===== src/Shell/Text/Join.antt =====
-- HW1/ExternalCommand.cpp: the command that bash is given.
use operating_system_whw.Shell.Text.{end_word, remove_trailing_background_char}
use operating_system_whw.Common.{◌∷◌, ◌++◌, [], List}
use operating_system_whw.Shell.Trace.{Bytes}

-- The words with one blank between two of them.
spaced : List Bytes → Bytes
spaced [] = []
spaced (word ∷ []) = word
spaced (word ∷ (other ∷ words)) = word ++ (32 ∷ spaced (other ∷ words))

-- The words less a last byte `&` of the last one, which is no word if nothing is left of it.
unfoldable pub unmark : List Bytes → List Bytes
unmark [] = []
unmark (word ∷ []) = end_word (remove_trailing_background_char word) []
unmark (word ∷ (other ∷ words)) = word ∷ unmark (other ∷ words)
