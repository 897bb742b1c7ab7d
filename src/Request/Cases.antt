-- ===== src/Request/Cases.antt =====
-- The results of `requestHandle`.
use Prim.Native.String.{String}
use mathlib.Core.Path.{subst}
use operating_system_whw.Common.{
  ℕ, ◌+◌, ◌≡◌, refl, ◌⊎◌, inl, inr, Bool, true, false, ◌&&◌, none, some, Option, pos, Bool-cases,
  sym,
}
use operating_system_whw.Heap.{MetaData}
use operating_system_whw.Request.Ended.{request_outcome, HeadersEnd, request_handle-ended}
use operating_system_whw.Request.{
  serve_static, serve_dynamic, request_get_filetype, headers_of, Parsed, FileStat, Request, Outcome,
  refuse, serve_file, serve, request_parse_uri, request_handle, is_get,
}

-- An error was sent, and the meta data is as before.
abbrev pub Refused : MetaData → Outcome → Type 0
Refused m out =
    (cause : String) × (errnum : String) × (shortmsg : String) × (longmsg : String) × (out
      ≡ refuse cause errnum shortmsg longmsg m)

-- A regular file that the server may read was sent, and the static requests count one more.
abbrev pub Static : Request → MetaData → Outcome → Type 0
Static r m out =
    (f : FileStat) × (r.stat (request_parse_uri r.uri r.garbage).filename ≡ some f)
    × (f.regular ≡ true)
    × (f.readable ≡ true)
    × ((request_parse_uri r.uri r.garbage).is_static ≡ true)
    × (out.0 ≡ pos 1)
    × (out.2 ≡ record m { num_static_requests = m.num_static_requests + 1 })
    × (out.1
        ≡ serve_static (request_parse_uri r.uri r.garbage).filename
            (request_get_filetype (request_parse_uri r.uri r.garbage).filename) f.size
            (headers_of out.2))

-- A regular file that the server may execute was run, and the dynamic requests count one more.
abbrev pub Dynamic : Request → MetaData → Outcome → Type 0
Dynamic r m out =
    (f : FileStat) × (r.stat (request_parse_uri r.uri r.garbage).filename ≡ some f)
    × (f.regular ≡ true)
    × (f.executable ≡ true)
    × ((request_parse_uri r.uri r.garbage).is_static ≡ false)
    × (out.0 ≡ pos 0)
    × (out.2 ≡ record m { num_dynamic_requests = m.num_dynamic_requests + 1 })
    × (out.1
        ≡ serve_dynamic (request_parse_uri r.uri r.garbage).filename
            (request_parse_uri r.uri r.garbage).cgiargs (headers_of out.2))

both : (a b : Bool) → (a && b) ≡ true → (a ≡ true) × (b ≡ true)
both true true e = (refl, refl)
both true false e = cc
both false b e = cc

module _ (r : Request) (m : MetaData) where
  abbrev parsed : Parsed
  parsed = request_parse_uri r.uri r.garbage

  file-cases :
      (f : FileStat)
      → r.stat parsed.filename ≡ some f
      → Refused m (serve_file parsed f m)
        ⊎ (Static r m (serve_file parsed f m) ⊎ Dynamic r m (serve_file parsed f m))
  unfolding serve_file
  file-cases f found = elim (Bool-cases parsed.is_static) [
    | inl st ↦ elim (Bool-cases (f.regular && f.readable)) [
      | inl ok ↦
          let (reg, may) = both f.regular f.readable ok in
          inr (inl (f, found, reg, may, st, rw (st, ok), rw (st, ok), rw (st, ok)))
      | inr bad ↦ inl (
        parsed.filename,
        "403",
        "Forbidden",
        "OS-HW3 Server could not read this file",
        rw (st, bad),
      )
    ]
    | inr dy ↦ elim (Bool-cases (f.regular && f.executable)) [
      | inl ok ↦
          let (reg, may) = both f.regular f.executable ok in
          inr (inr (f, found, reg, may, dy, rw (dy, ok), rw (dy, ok), rw (dy, ok)))
      | inr bad ↦ inl (
        parsed.filename,
        "403",
        "Forbidden",
        "OS-HW3 Server could not run this CGI program",
        rw (dy, bad),
      )
    ]
  ]

  serve-cases :
      (found : Option FileStat)
      → r.stat parsed.filename ≡ found
      → Refused m (serve parsed r.stat m)
        ⊎ (Static r m (serve parsed r.stat m) ⊎ Dynamic r m (serve parsed r.stat m))
  unfolding serve
  serve-cases none e =
      inl (
        parsed.filename,
        "404",
        "Not found",
        "OS-HW3 Server could not find this file",
        rw (serve, e),
      )
  serve-cases (some f) e =
      let step : serve parsed r.stat m ≡ serve_file parsed f m = rw (serve, e) in
      subst (λ o. Refused m o ⊎ (Static r m o ⊎ Dynamic r m o)) (sym step) (file-cases f e)

  pub request_outcome-cases :
      Refused m (request_outcome r m)
      ⊎ (Static r m (request_outcome r m) ⊎ Dynamic r m (request_outcome r m))
  unfolding request_outcome
  request_outcome-cases = elim (Bool-cases (is_get r.method)) [
    | inl get ↦ rw get (serve-cases (r.stat parsed.filename) refl)
    | inr other ↦ inl (
      r.method,
      "501",
      "Not Implemented",
      "OS-HW3 Server does not implement this method",
      rw other,
    )
  ]

  -- A request whose headers end, or whose method is not GET, is answered. Either an error is sent,
  -- the result is -1 and the meta data is as before; or the response is a regular file that the
  -- server may read, the result is 1 and a static request is counted; or it is a run of a regular
  -- file that the server may execute, the result is 0 and a dynamic request is counted. The file is
  -- the one that the URI names, and the response shows the meta data with the count.
  pub request_handle-cases :
      (fuel : ℕ)
      → HeadersEnd fuel r
      → (out : Outcome) × (request_handle fuel r m ≡ some out)
        × (Refused m out ⊎ (Static r m out ⊎ Dynamic r m out))
  request_handle-cases fuel ends =
      (request_outcome r m, request_handle-ended fuel r m ends, request_outcome-cases)
