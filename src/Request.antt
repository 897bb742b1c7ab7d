-- ===== src/Request.antt =====
-- HW3/request.c: what the server decides on a request. Texts are bounded in the code by MAXLINE,
-- which is not modelled; the socket and the file system are arguments.
pub mod Ended
pub mod Cases
pub mod Wire
pub mod ReadHeaders
pub mod Dots
pub mod Inside
mod Tests
use Prim.Native.String.{String, len, slice, ◌++◌}
use text.Mathlib.Text.{find?, ◌==◌ as str_eq}
use operating_system_whw.Common.{
  zero, suc, List, [], ◌∷◌, ◌>>=◌, ℕ, ◌+◌, ◌-◌, ◌*◌, ◌/◌, Bool, true, false, ◌&&◌, ◌||◌, Option,
  none, some, if◌then◌else◌, ℤ, pos, negsuc,
}
use operating_system_whw.Heap.{TimeVal, MetaData}

-- `convertTimeValToMSULong`
unfoldable pub convert_time_val : TimeVal → ℕ
convert_time_val t = t.tv_sec * 1000 + t.tv_usec / 1000

-- `strstr(text, part)` as a test
abbrev pub contains : String → String → Bool
contains text part = elim (find? text part) [ none ↦ false | some _ ↦ true ]

-- Whether the last byte is a slash.
abbrev pub ends_with_slash : String → Bool
ends_with_slash text = str_eq (slice text (len text - 1) (len text)) "/"

-- The result of `requestParseURI` and what it writes.
pub record Parsed : Type 0 where
  pub is_static : Bool
  pub filename : String
  pub cgiargs : String

-- `garbage` is what the buffer of the arguments holds before.
unfoldable pub request_parse_uri : (uri garbage : String) → Parsed
request_parse_uri uri garbage =
    if contains uri ".."
    then record { is_static = true; filename = "./public/home.html"; cgiargs = garbage }
    else if contains uri "cgi"
    then elim (find? uri "?") [
      | some i ↦ record {
        is_static = false;
        filename = "./public/" ++ slice uri 0 i;
        cgiargs = slice uri (i + 1) (len uri);
      }
      | none ↦ record { is_static = false; filename = "./public/" ++ uri; cgiargs = "" }
    ]
    else record {
      is_static = true;
      filename =
          if ends_with_slash uri then "./public/" ++ (uri ++ "home.html") else "./public/" ++ uri;
      cgiargs = "";
    }

unfoldable pub request_get_filetype : (filename : String) → String
request_get_filetype filename =
    if contains filename ".html"
    then "text/html"
    else if contains filename ".gif"
    then "image/gif"
    else if contains filename ".jpg"
    then "image/jpeg"
    else "text/plain"

-- `S_ISREG`, the owner's rights to read and to execute, and the size, as `stat` finds them.
pub record FileStat : Type 0 where
  pub regular : Bool
  pub readable : Bool
  pub executable : Bool
  pub size : ℕ

-- The lines `Stat-…` of a response.
pub record Headers : Type 0 where
  pub arrival : ℕ
  pub dispatch : ℕ
  pub thread_id : ℕ
  pub thread_count : ℕ
  pub thread_static : ℕ
  pub thread_dynamic : ℕ

unfoldable pub headers_of : MetaData → Headers
headers_of m = record {
  arrival = convert_time_val m.arrival_time;
  dispatch = convert_time_val m.dispatch_time;
  thread_id = m.thread_id;
  thread_count = m.requests_count;
  thread_static = m.num_static_requests;
  thread_dynamic = m.num_dynamic_requests;
}

-- What goes to the client: the call of `requestError`, `requestServeStatic` or
-- `requestServeDynamic`, with the meta data that it prints.
pub data Response : Type 0 where
  error : (cause errnum shortmsg longmsg : String) → Response
  serve_static : (filename filetype : String) → ℕ → Headers → Response
  serve_dynamic : (filename cgiargs : String) → Headers → Response

-- `Rio_readlineb`, by its documentation: the next line, or at the end of the input nothing, with
-- the buffer as it was.
abbrev pub read_line : List String → (buf : String) → String × List String
read_line [] buf = (buf, [])
read_line (line ∷ lines) buf = (line, lines)

-- The loop of `requestReadhdrs`, with `fuel` tests left; the lines that it leaves.
unfoldable pub headers_loop : (fuel : ℕ) → (buf : String) → List String → Option (List String)
headers_loop zero buf lines = none
headers_loop (suc fuel) buf lines =
    let rest = headers_loop fuel (read_line lines buf).0 (read_line lines buf).1 in
    if str_eq buf "\r\n" then some lines else rest

unfoldable pub request_read_headers :
    (fuel : ℕ) → (garbage : String) → List String → Option (List String)
request_read_headers fuel garbage lines =
    headers_loop fuel (read_line lines garbage).0 (read_line lines garbage).1

-- What the request and the file system give: the words of the request line, what the buffers of the
-- arguments and of `requestReadhdrs` hold before, the lines that come after, and `stat`.
pub record Request : Type 0 where
  pub method : String
  pub uri : String
  pub garbage : String
  pub buffer : String
  pub lines : List String
  pub stat : String → Option FileStat

-- `strcasecmp(method, "GET")` as a test
abbrev pub is_get : String → Bool
is_get m =
    str_eq m "GET"
    || (str_eq m "GEt"
        || (str_eq m "GeT"
            || (str_eq m "Get"
                || (str_eq m "gET" || (str_eq m "gEt" || (str_eq m "geT" || str_eq m "get"))))))

-- The result, what was sent, and the meta data then.
abbrev pub Outcome : Type 0
Outcome = ℤ × Response × MetaData

abbrev pub refuse : (cause errnum shortmsg longmsg : String) → MetaData → Outcome
refuse cause errnum shortmsg longmsg m = (negsuc 0, error cause errnum shortmsg longmsg, m)

-- What follows a `stat` that found the file.
unfoldable pub serve_file : Parsed → FileStat → MetaData → Outcome
serve_file p f m =
    if p.is_static
    then if f.regular && f.readable
      then (let counted : MetaData = record m { num_static_requests = m.num_static_requests + 1 } in
          (
            pos 1,
            serve_static p.filename (request_get_filetype p.filename) f.size (headers_of counted),
            counted,
          ))
      else refuse p.filename "403" "Forbidden" "OS-HW3 Server could not read this file" m
    else if f.regular && f.executable
    then (let counted : MetaData = record m { num_dynamic_requests = m.num_dynamic_requests + 1 } in
        (pos 0, serve_dynamic p.filename p.cgiargs (headers_of counted), counted))
    else refuse p.filename "403" "Forbidden" "OS-HW3 Server could not run this CGI program" m

unfoldable pub serve : Parsed → (stat : String → Option FileStat) → MetaData → Outcome
serve p stat m = elim (stat p.filename) [
  | none ↦ refuse p.filename "404" "Not found" "OS-HW3 Server could not find this file" m
  | some f ↦ serve_file p f m
]

-- `requestHandle`, whose loop over the headers makes `fuel` tests; `none` where it has not ended.
unfoldable pub request_handle : (fuel : ℕ) → Request → MetaData → Option Outcome
request_handle fuel r m =
    if is_get r.method
    then (do
      left ← request_read_headers fuel r.buffer r.lines
      some (serve (request_parse_uri r.uri r.garbage) r.stat m))
    else some
        (refuse r.method "501" "Not Implemented" "OS-HW3 Server does not implement this method" m)
