-- ===== src/Request/Tests.antt =====
-- Requests for a page, for a program and for a file outside the public directory.
use operating_system_whw.Common.{◌≡◌, ◌⊎◌, refl, true, false, some}
use operating_system_whw.Heap.{MetaData}
use operating_system_whw.Request.Ended.{HeadersEnd, Answered}
use operating_system_whw.Request.{
  Outcome, refuse, request_read_headers, headers_loop, Request, request_parse_uri, request_handle,
  request_get_filetype,
}
use operating_system_whw.Request.Wire.{
  writes, lit, number, error_body, request_error, respond, answer,
}
use operating_system_whw.Request.Inside.{ServesInside, request_handle-ServesInside}
use operating_system_whw.Request.ReadHeaders.{
  NoBlank, request_read_headers-ends, request_read_headers-never,
}
use operating_system_whw.Request.{serve}
use operating_system_whw.Common.{none, [], ◌∷◌, ◌++◌, arith}
use operating_system_whw.Request.Cases.{Refused, Static, Dynamic, request_handle-cases}

page :
    request_parse_uri "docs/" ""
    ≡ record { is_static = true; filename = "./public/docs/home.html"; cgiargs = "" }
unfolding request_parse_uri
page = refl

program :
    request_parse_uri "output.cgi?5" ""
    ≡ record { is_static = false; filename = "./public/output.cgi"; cgiargs = "5" }
unfolding request_parse_uri
program = refl

outside :
    request_parse_uri "../server.c" "left"
    ≡ record { is_static = true; filename = "./public/home.html"; cgiargs = "left" }
unfolding request_parse_uri
outside = refl

picture : request_get_filetype "./public/a.gif" ≡ "image/gif"
unfolding request_get_filetype
picture = refl

abbrev info : MetaData
info = record {
  arrival_time = record { tv_sec = 7; tv_usec = 0 };
  dispatch_time = record { tv_sec = 0; tv_usec = 0 };
  thread_id = 0;
  requests_count = 1;
  num_static_requests = 0;
  num_dynamic_requests = 0;
}

abbrev request : Request
request = record {
  method = "get";
  uri = "output.cgi?5";
  garbage = "";
  buffer = "";
  lines = "\r\n" ∷ [];
  stat = λ name. some (record { regular = true; readable = true; executable = true; size = 9 });
}

abbrev missing : Request
missing = record {
  method = "GET";
  uri = "a";
  garbage = "";
  buffer = "";
  lines = "\r\n" ∷ [];
  stat = λ name. none;
}

request-HeadersEnd : HeadersEnd 1 request
unfolding request_read_headers headers_loop
request-HeadersEnd = λ get. ([], refl)

request_handle-cases_example :
    (out : Outcome) × (request_handle 1 request info ≡ some out)
    × (Refused info out ⊎ (Static request info out ⊎ Dynamic request info out))
request_handle-cases_example = request_handle-cases request info 1 request-HeadersEnd

lines_NoBlank : NoBlank ("Host: a\r\n" ∷ "Accept: b\r\n" ∷ [])
lines_NoBlank = (refl, (refl, _))

request_read_headers-ends_example :
    request_read_headers 3 "" (("Host: a\r\n" ∷ "Accept: b\r\n" ∷ []) ++ ("\r\n" ∷ "body" ∷ []))
    ≡ some ("body" ∷ [])
request_read_headers-ends_example =
    request_read_headers-ends 3 "" ("Host: a\r\n" ∷ "Accept: b\r\n" ∷ []) ("body" ∷ [])
      lines_NoBlank (omega arith)

request_read_headers-never_example :
    request_read_headers 100 "GET" ("Host: a\r\n" ∷ "Accept: b\r\n" ∷ []) ≡ none
request_read_headers-never_example =
    request_read_headers-never 100 "GET" ("Host: a\r\n" ∷ "Accept: b\r\n" ∷ []) refl lines_NoBlank

-- The page of an error.
not_found :
    (answer 1 (λ name size. "") missing info)
    ≡ some (
      writes (lit "HTTP/1.0 " ∷ lit "404" ∷ lit " " ∷ lit "Not found" ∷ lit "\r\n" ∷ [])
          ∷ writes (lit "Content-Type: text/html\r\n" ∷ [])
          ∷ writes (lit "Content-Length: " ∷ number 149 ∷ lit "\r\n\r\n" ∷ [])
          ∷ writes (
              lit
                (error_body "./public/a" "404" "Not found" "OS-HW3 Server could not find this file")
              ∷ [])
          ∷ [],
      refuse "./public/a" "404" "Not found" "OS-HW3 Server could not find this file" info,
    )
unfolding answer respond request_error error_body request_handle request_read_headers headers_loop
    serve request_parse_uri
not_found = refl

-- A request that is refused by its method is answered though no headers come.
refused_at_once :
    request_handle 0 (record missing { method = "PUT"; lines = [] }) info
    ≡ some
        (refuse "PUT" "501" "Not Implemented" "OS-HW3 Server does not implement this method" info)
unfolding request_handle
refused_at_once = refl

request_handle-ServesInside_example : Answered (λ out. ServesInside out.1) 1 request info
request_handle-ServesInside_example = request_handle-ServesInside 1 request info
