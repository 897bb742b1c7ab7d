-- ===== src/Client/Tests.antt =====
-- A response, and one that breaks off, as HW3/client.c prints them.
use operating_system_whw.Common.{◌≡◌, refl, pos, none, some, List, [], ◌∷◌, arith}
use operating_system_whw.Client.{
  Shown, header_line, content_length, client_send, client_print, print_headers, print_body,
  show_length,
}
use operating_system_whw.Client.Prints.{
  headers_shown, body_shown, before_blank, after_blank, client_print-shows,
}

sent : client_send "here" "/a" ≡ "GET /a HTTP/1.1\nhost: here\n\r\n"
unfolding client_send
sent = refl

-- At the end of the input the buffer still has the last line, of which the length is printed again.
twice :
    client_print (λ line. some (pos 5)) 2 "" ("Content-Length: 5\r\n" ∷ [])
    ≡ some (header_line "Content-Length: 5\r\n" ∷ content_length (pos 5) ∷ [])
unfolding client_print print_headers print_body show_length
twice = refl

client_print-shows_example :
    (shown : List Shown) × (client_print
        (λ line. none)
        4
        ""
        ("HTTP/1.0 200 OK\r\n" ∷ "\r\n" ∷ "text" ∷ [])
      ≡ some shown)
    × (headers_shown shown ≡ before_blank ("HTTP/1.0 200 OK\r\n" ∷ "\r\n" ∷ "text" ∷ []))
    × (body_shown shown ≡ after_blank ("HTTP/1.0 200 OK\r\n" ∷ "\r\n" ∷ "text" ∷ []))
client_print-shows_example =
    client_print-shows (λ line. none) 4 "" ("HTTP/1.0 200 OK\r\n" ∷ "\r\n" ∷ "text" ∷ [])
      (omega arith)
