-- ===== src/Client.antt =====
-- HW3/client.c: the request that the client sends, and how it prints the response. `scan` is what
-- `sscanf` reads of a line by "Content-Length: %d "; the lengths of the buffers are not modelled.
pub mod Prints
mod Tests
use Prim.Native.String.{String, ◌++◌ as join}
use text.Mathlib.Text.{◌==◌ as str_eq}
use operating_system_whw.Common.{
  ℕ, zero, suc, Bool, true, false, ◌&&◌, not, ℤ, Option, none, some, List, [], ◌∷◌, ◌++◌,
  if◌then◌else◌, ◌>>=◌,
}
use operating_system_whw.Request.{read_line}

-- The text that goes to the server.
unfoldable pub client_send : (hostname filename : String) → String
client_send hostname filename =
    join (join "GET " (join filename " HTTP/1.1\n")) (join "host: " (join hostname "\n\r\n"))

-- What is printed: a line of the header, the length, and a line of the body.
pub data Shown : Type 0 where
  header_line : String → Shown
  content_length : ℤ → Shown
  body_line : String → Shown

-- Whether `Rio_readlineb` answers a number above 0.
abbrev pub has_line : List String → Bool
has_line [] = false
has_line (_ ∷ _) = true

unfoldable pub show_length : Option ℤ → List Shown
show_length none = []
show_length (some n) = content_length n ∷ []

-- The first loop, with `fuel` tests left: what it prints, the buffer and the lines that are left.
unfoldable pub print_headers :
    (scan : String → Option ℤ)
    → (fuel : ℕ) → (buf : String) → (got : Bool) → List String
    → Option (List Shown × String × List String)
print_headers scan zero buf got lines = none
print_headers scan (suc fuel) buf got lines =
    let r = read_line lines buf in
    let rest = print_headers scan fuel r.0 (has_line lines) r.1 in
    if not (str_eq buf "\r\n") && got
    then (do
      (shown, last, left) ← rest
      some (header_line buf ∷ (show_length (scan r.0) ++ shown), last, left))
    else some ([], buf, lines)

-- The second loop.
unfoldable pub print_body :
    (fuel : ℕ) → (buf : String) → (got : Bool) → List String → Option (List Shown)
print_body zero buf got lines = none
print_body (suc fuel) buf got lines =
    let rest = print_body fuel (read_line lines buf).0 (has_line lines) (read_line lines buf).1 in
    if got then (do shown ← rest; some (body_line buf ∷ shown)) else some []

-- `garbage` is what the buffer holds before.
unfoldable pub client_print :
    (scan : String → Option ℤ) → (fuel : ℕ) → (garbage : String) → List String → Option (List Shown)
client_print scan fuel garbage lines = do
  (headers, last, left) ←
      print_headers scan fuel (read_line lines garbage).0 (has_line lines)
        (read_line lines garbage).1
  body ← print_body fuel (read_line left last).0 (has_line left) (read_line left last).1
  some (headers ++ body)
