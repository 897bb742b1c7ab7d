-- ===== src/Client/Prints.antt =====
-- HW3/client.c: what the loops of `clientPrint` print.
use Prim.Native.String.{String}
use text.Mathlib.Text.{◌==◌ as str_eq}
use operating_system_whw.Common.{
  ℕ, zero, suc, ◌<◌, ◌+◌, ◌≡◌, refl, ap, ◌∙◌, Bool-cases, inl, inr, true, ℤ, Option, none, some,
  List, [], ◌∷◌, ◌++◌, length, arith, if◌then◌else◌,
}
use mathlib.Core.List.{append-nil}
use operating_system_whw.Request.{read_line}
use operating_system_whw.Client.{
  has_line, Shown, header_line, content_length, body_line, show_length, print_headers, print_body,
  client_print,
}

-- The lines before the first empty one.
unfoldable pub before_blank : List String → List String
before_blank [] = []
before_blank (line ∷ lines) = if str_eq line "\r\n" then [] else line ∷ before_blank lines

-- The lines behind the first empty one.
unfoldable pub after_blank : List String → List String
after_blank [] = []
after_blank (line ∷ lines) = if str_eq line "\r\n" then lines else after_blank lines

-- The lines that were printed as the header's.
abbrev pub headers_shown : List Shown → List String
headers_shown [] = []
headers_shown (header_line line ∷ shown) = line ∷ headers_shown shown
headers_shown (content_length n ∷ shown) = headers_shown shown
headers_shown (body_line line ∷ shown) = headers_shown shown

-- The lines that were printed as the body's.
abbrev pub body_shown : List Shown → List String
body_shown [] = []
body_shown (header_line line ∷ shown) = body_shown shown
body_shown (content_length n ∷ shown) = body_shown shown
body_shown (body_line line ∷ shown) = line ∷ body_shown shown

headers-append :
    (xs ys : List Shown) → headers_shown (xs ++ ys) ≡ headers_shown xs ++ headers_shown ys
headers-append [] ys = refl
headers-append (header_line line ∷ xs) ys = ap (λ zs. line ∷ zs) (headers-append xs ys)
headers-append (content_length n ∷ xs) ys = headers-append xs ys
headers-append (body_line line ∷ xs) ys = headers-append xs ys

body-append : (xs ys : List Shown) → body_shown (xs ++ ys) ≡ body_shown xs ++ body_shown ys
body-append [] ys = refl
body-append (header_line line ∷ xs) ys = body-append xs ys
body-append (content_length n ∷ xs) ys = body-append xs ys
body-append (body_line line ∷ xs) ys = ap (λ zs. line ∷ zs) (body-append xs ys)

-- What the first loop does with the lines of a response, the first of which is in the buffer.
Heads : List String → Option (List Shown × String × List String) → Type 0
Heads lines result =
    (shown : List Shown) × (last : String) × (left : List String) × (result
      ≡ some (shown, last, left))
    × (headers_shown shown ≡ before_blank lines)
    × (body_shown shown ≡ [])
    × (left ≡ after_blank lines)
    × (length left < length lines + 1)

headers-length :
    (found : Option ℤ) (shown : List Shown)
    → headers_shown (show_length found ++ shown) ≡ headers_shown shown
unfolding show_length
headers-length none shown = refl
headers-length (some n) shown = refl

body-length :
    (found : Option ℤ) (shown : List Shown)
    → body_shown (show_length found ++ shown) ≡ body_shown shown
unfolding show_length
body-length none shown = refl
body-length (some n) shown = refl

print_headers-Heads :
    (scan : String → Option ℤ) (fuel : ℕ) (line : String) (lines : List String)
    → length lines < fuel
    → Heads (line ∷ lines) (print_headers scan (suc fuel) line true lines)
unfolding print_headers before_blank after_blank Heads
print_headers-Heads scan zero line lines lt = absurd (omega (arith, lt))
print_headers-Heads scan (suc fuel) line [] lt = elim (Bool-cases (str_eq line "\r\n")) [
  | inl e ↦ rw e ([], line, [], refl, refl, refl, refl, omega arith)
  | inr e ↦ rw e (
    header_line line ∷ (show_length (scan line) ++ []),
    line,
    [],
    refl,
    ap (λ zs. line ∷ zs) (headers-length (scan line) []),
    body-length (scan line) [],
    refl,
    omega arith,
  )
]
print_headers-Heads scan (suc fuel) line (first ∷ lines) lt =
    elim (Bool-cases (str_eq line "\r\n")) [
      | inl e ↦ rw e ([], line, first ∷ lines, refl, refl, refl, refl, omega arith)
      | inr e ↦
          let (shown, last, left, run, headers, none_yet, rest, less) =
            print_headers-Heads scan fuel first lines (omega (arith, lt)) in
          rw (e, run)
            (
              header_line line ∷ (show_length (scan first) ++ shown),
              last,
              left,
              refl,
              ap (λ zs. line ∷ zs) (headers-length (scan first) shown ∙ headers),
              body-length (scan first) shown ∙ none_yet,
              rest,
              omega (arith, less),
            )
    ]

-- The second loop, with the first line in the buffer.
print_body-all :
    (fuel : ℕ) (line : String) (lines : List String)
    → length lines < fuel
    → (shown : List Shown) × (print_body (suc fuel) line true lines ≡ some shown)
      × (headers_shown shown ≡ [])
      × (body_shown shown ≡ line ∷ lines)
unfolding print_body
print_body-all zero line lines lt = absurd (omega (arith, lt))
print_body-all (suc fuel) line [] lt = (body_line line ∷ [], refl, refl, refl)
print_body-all (suc fuel) line (first ∷ lines) lt =
    let (shown, run, none_of_header, all) = print_body-all fuel first lines (omega (arith, lt)) in
    (body_line line ∷ shown, rw run refl, none_of_header, ap (λ zs. line ∷ zs) all)

-- From the line that the first loop left on.
body-Shown :
    (fuel : ℕ) (last : String) (left : List String)
    → length left < fuel
    → (shown : List Shown) × (print_body fuel
          (read_line left last).0
          (has_line left)
          (read_line left last).1
        ≡ some shown)
      × (headers_shown shown ≡ [])
      × (body_shown shown ≡ left)
unfolding print_body
body-Shown zero last left lt = absurd (omega (arith, lt))
body-Shown (suc fuel) last [] lt = ([], refl, refl, refl)
body-Shown (suc fuel) last (line ∷ left) lt = print_body-all fuel line left (omega (arith, lt))

-- With more tests than there are lines both loops of `clientPrint` end, also when the response has
-- no empty line; what was printed as the header's lines are those before the first empty line, and
-- what was printed as the body's are those behind it, each once and in order.
pub client_print-shows :
    (scan : String → Option ℤ) (fuel : ℕ) (garbage : String) (lines : List String)
    → length lines < fuel
    → (shown : List Shown) × (client_print scan fuel garbage lines ≡ some shown)
      × (headers_shown shown ≡ before_blank lines)
      × (body_shown shown ≡ after_blank lines)
unfolding client_print print_headers before_blank after_blank Heads print_body
client_print-shows scan zero garbage lines lt = absurd (omega (arith, lt))
client_print-shows scan (suc fuel) garbage [] lt = elim (Bool-cases (str_eq garbage "\r\n")) [
  | inl e ↦ rw e ([], refl, refl, refl)
  | inr e ↦ rw e ([], refl, refl, refl)
]
client_print-shows scan (suc fuel) garbage (line ∷ lines) lt =
    let (headers, last, left, run, heads, no_body, rest, less) =
      print_headers-Heads scan fuel line lines (omega (arith, lt)) in
    let (shown, body_run, no_heads, all) =
      body-Shown (suc fuel) last left (omega (arith, less, lt)) in
    (
      headers ++ shown,
      rw (run, body_run) refl,
      headers-append headers shown
          ∙ ap (λ zs. headers_shown headers ++ zs) no_heads
          ∙ append-nil (headers_shown headers)
          ∙ heads,
      body-append headers shown ∙ ap (λ zs. zs ++ body_shown shown) no_body ∙ all ∙ rest,
    )
