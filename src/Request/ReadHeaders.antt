-- ===== src/Request/ReadHeaders.antt =====
-- HW3/request.c: when the loop of `requestReadhdrs` ends.
use Prim.Native.String.{String}
use text.Mathlib.Text.{◌==◌ as str_eq}
use operating_system_whw.Common.{
  ℕ, zero, suc, ◌<◌, ◌≡◌, refl, false, none, some, List, [], ◌∷◌, ◌++◌, length, arith,
}
use operating_system_whw.Request.{headers_loop, request_read_headers}

-- None of the lines is the empty line that ends the headers.
abbrev pub NoBlank : List String → Type 0
NoBlank [] = Unit
NoBlank (line ∷ lines) = (str_eq line "\r\n" ≡ false) × NoBlank lines

loop-blank : (fuel : ℕ) (lines : List String) → headers_loop (suc fuel) "\r\n" lines ≡ some lines
unfolding headers_loop
loop-blank fuel lines = refl

loop-ends :
    (fuel : ℕ) (line : String) (before after : List String)
    → str_eq line "\r\n" ≡ false
    → NoBlank before
    → length before < fuel
    → headers_loop (suc fuel) line (before ++ ("\r\n" ∷ after)) ≡ some after
unfolding headers_loop
loop-ends zero line before after e h lt = absurd (omega (arith, lt))
loop-ends (suc fuel) line [] after e h lt = rw e (loop-blank fuel after)
loop-ends (suc fuel) line (first ∷ before) after e h lt =
    rw e (loop-ends fuel first before after h.0 h.1 (omega (arith, lt)))

loop-never :
    (fuel : ℕ) (line : String) (lines : List String)
    → str_eq line "\r\n" ≡ false
    → NoBlank lines
    → headers_loop fuel line lines ≡ none
unfolding headers_loop
loop-never zero line lines e h = refl
loop-never (suc fuel) line [] e h = rw e (loop-never fuel line [] e _)
loop-never (suc fuel) line (first ∷ lines) e h = rw e (loop-never fuel first lines h.0 h.1)

-- `requestReadhdrs` ends, with one test for each line before the empty line and one more, and
-- leaves the lines after it.
pub request_read_headers-ends :
    (fuel : ℕ) (garbage : String) (before after : List String)
    → NoBlank before
    → length before < fuel
    → request_read_headers fuel garbage (before ++ ("\r\n" ∷ after)) ≡ some after
unfolding request_read_headers
request_read_headers-ends zero garbage before after h lt = absurd (omega (arith, lt))
request_read_headers-ends (suc fuel) garbage [] after h lt = loop-blank fuel after
request_read_headers-ends (suc fuel) garbage (first ∷ before) after h lt =
    loop-ends fuel first before after h.0 h.1 (omega (arith, lt))

-- Where the client's lines end with no empty line, and the buffer does not hold one by chance,
-- `requestReadhdrs` never ends: after the last line it tests that line again and again.
pub request_read_headers-never :
    (fuel : ℕ) (garbage : String) (lines : List String)
    → str_eq garbage "\r\n" ≡ false
    → NoBlank lines
    → request_read_headers fuel garbage lines ≡ none
unfolding request_read_headers
request_read_headers-never fuel garbage [] e h = loop-never fuel garbage [] e _
request_read_headers-never fuel garbage (first ∷ lines) e h = loop-never fuel first lines h.0 h.1
