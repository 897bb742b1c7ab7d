-- ===== src/Request/Wire.antt =====
-- HW3/request.c: `requestError`, `requestServeStatic` and `requestServeDynamic`, the texts that go to
-- the client. The code builds its texts with
-- `sprintf(buf, "%s…", buf)`, whose result is taken to be the longer text.
use Prim.Native.String.{String, len, ◌++◌ as join}
use operating_system_whw.Common.{ℕ, Option, some, List, [], ◌∷◌, ◌++◌, ◌>>=◌}
use operating_system_whw.Heap.{MetaData}
use operating_system_whw.Request.{
  Headers, Response, error, serve_static, serve_dynamic, Request, Outcome, request_handle,
}

-- What `sprintf` puts together: a text, or a number in decimal.
pub data Piece : Type 0 where
  lit : String → Piece
  number : ℕ → Piece

-- A `Rio_writen` of a text; the program that a child runs with its query, with its output in the
-- socket; and the wait for the child.
pub data Act : Type 0 where
  writes : List Piece → Act
  runs : (filename query : String) → Act
  waits : Act

-- The body of an error's page.
unfoldable pub error_body : (cause errnum shortmsg longmsg : String) → String
error_body cause errnum shortmsg longmsg = join "<html><title>OS-HW3 Error</title>" (
    join "<body bgcolor=fffff>\r\n" (
      join errnum (
        join ": " (
          join shortmsg (
            join "\r\n<p>"
              (join longmsg (join ": " (join cause "\r\n<hr>OS-HW3 Web Server\r\n"))))))))

unfoldable pub request_error : (cause errnum shortmsg longmsg : String) → List Act
request_error cause errnum shortmsg longmsg =
    let body = error_body cause errnum shortmsg longmsg in
    writes (lit "HTTP/1.0 " ∷ lit errnum ∷ lit " " ∷ lit shortmsg ∷ lit "\r\n" ∷ [])
    ∷ writes (lit "Content-Type: text/html\r\n" ∷ [])
    ∷ writes (lit "Content-Length: " ∷ number (len body) ∷ lit "\r\n\r\n" ∷ [])
    ∷ writes (lit body ∷ [])
    ∷ []

-- The lines `Stat-…`, up to the number of dynamic requests.
unfoldable pub stat_lines : Headers → List Piece
stat_lines h =
    lit "Stat-Req-Arrival: "
    ∷ number h.arrival
    ∷ lit "\r\nStat-Req-Dispatch: "
    ∷ number h.dispatch
    ∷ lit "\r\nStat-Thread-Id: "
    ∷ number h.thread_id
    ∷ lit "\r\nStat-Thread-Count: "
    ∷ number h.thread_count
    ∷ lit "\r\nStat-Thread-Static: "
    ∷ number h.thread_static
    ∷ lit "\r\nStat-Thread-Dynamic: "
    ∷ number h.thread_dynamic
    ∷ []

-- `file` is what `mmap` shows of the file: its first `filesize` bytes.
unfoldable pub request_serve_static :
    (file : String → ℕ → String)
    → (filename filetype : String) → (filesize : ℕ) → Headers
    → List Act
request_serve_static file filename filetype filesize h =
    writes (
      lit "HTTP/1.0 200 OK\r\nServer: OS-HW3 Web Server\r\nContent-Length: "
      ∷ number filesize
      ∷ lit "\r\nContent-Type: "
      ∷ lit filetype
      ∷ lit "\r\n"
      ∷ (stat_lines h ++ (lit "\r\n\r\n" ∷ [])))
    ∷ writes (lit (file filename filesize) ∷ [])
    ∷ []

-- The program ends the header.
unfoldable pub request_serve_dynamic : (filename cgiargs : String) → Headers → List Act
request_serve_dynamic filename cgiargs h =
    writes
      (lit "HTTP/1.0 200 OK\r\nServer: OS-HW3 Web Server\r\n" ∷ (stat_lines h ++ (lit "\r\n" ∷ [])))
    ∷ runs filename cgiargs
    ∷ waits
    ∷ []

unfoldable pub respond : (file : String → ℕ → String) → Response → List Act
respond file (error cause errnum shortmsg longmsg) = request_error cause errnum shortmsg longmsg
respond file (serve_static filename filetype filesize h) =
    request_serve_static file filename filetype filesize h
respond file (serve_dynamic filename cgiargs h) = request_serve_dynamic filename cgiargs h

-- `requestHandle` with what it sends, after the request line.
unfoldable pub answer :
    (fuel : ℕ) → (file : String → ℕ → String) → Request → MetaData → Option (List Act × Outcome)
answer fuel file r m = do out ← request_handle fuel r m; some (respond file out.1, out)
