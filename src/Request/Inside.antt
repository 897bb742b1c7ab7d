-- ===== src/Request/Inside.antt =====
-- HW3/request.c: where the files lie that `requestParseURI` names.
use Prim.Native.Nat.{Ordering, compare as compare_ℕ}
use Prim.Native.String.{String, ◌++◌, len, slice, find}
use text.Mathlib.Text.{find?, when, is_le}
use text.Mathlib.TextBridge.{IsPrefix}
use text.Mathlib.TextFind.{find_cases}
use text.Mathlib.TextPositions.{NotGt, not-gt-add, len-append}
use mathlib.Core.Path.{Path, subst}
use operating_system_whw.Common.{
  ℕ, ◌+◌, ◌≡◌, inl, inr, refl, sym, ap, ◌∙◌, arith, Bool, ◌&&◌, true, false, none, some, Option,
  Bool-cases,
}
use operating_system_whw.Heap.{MetaData}
use operating_system_whw.Request.Ended.{request_outcome, Answered, request_handle-Answered}
use operating_system_whw.Request.{
  Parsed, contains, ends_with_slash, request_parse_uri, FileStat, Response, error, serve_static,
  serve_dynamic, Request, serve_file, serve, is_get,
}
use operating_system_whw.Request.Dots.{
  NoDots, find-NoDots, NoDots-apart, NoDots-append, NoDots-slice,
}

-- The name starts with the public directory, and ".." stands nowhere in it.
abbrev pub Inside : String → Type 0
Inside name = IsPrefix "./public/" name × ((u v : String) → ¬ Path String name (u ++ (".." ++ v)))

missed :
    (o : Ordering) (n : ℕ)
    → Path Bool (elim (when (is_le o) n) [ none ↦ false | some _ ↦ true ]) false
    → o ≡ Ordering.gt
missed Ordering.lt n e = absurd (cc)
missed Ordering.eq n e = absurd (cc)
missed Ordering.gt n e = refl

contains-NoDots : (s : String) → contains s ".." ≡ false → NoDots s
contains-NoDots s e = elim (find_cases s "..") [
  | inr miss ↦ find-NoDots s miss
  | inl (u, v, parts, at) ↦
      let gt : compare_ℕ (find s "..") (len s) ≡ Ordering.gt =
        missed (compare_ℕ (find s "..") (len s)) (find s "..") e in
      let length : len s ≡ len u + len (".." ++ v) = ap len parts ∙ len-append u (".." ++ v) in
      absurd (
        subst NotGt
          (ap (λ n. compare_ℕ n (len u + len (".." ++ v))) (sym at)
            ∙ ap (compare_ℕ (find s "..")) (sym length)
            ∙ gt)
          (not-gt-add (len u) (len (".." ++ v))))
]

public-Inside : (w : String) → NoDots w → Inside ("./public/" ++ w)
public-Inside w h = (
  (w, refl),
  λ u v.
      NoDots-apart ("./public/" ++ w) u v (
        NoDots-append "./public/" w (find-NoDots "./public/" refl) h (inl (λ e. omega (arith, e)))),
)

home-NoDots : (uri : String) → NoDots uri → NoDots (uri ++ "home.html")
home-NoDots uri h =
    NoDots-append uri "home.html" h (find-NoDots "home.html" refl) (inr (λ e. omega (arith, e)))

module _ (uri garbage : String) where
  pub request_parse_uri-Inside : Inside (request_parse_uri uri garbage).filename
  unfolding request_parse_uri
  request_parse_uri-Inside = elim (Bool-cases (contains uri "..")) [
    | inl e ↦ rw e (public-Inside "home.html" (find-NoDots "home.html" refl))
    | inr e ↦
        let clean = contains-NoDots uri e in
        elim (Bool-cases (contains uri "cgi")) [
          | inl cgi ↦
              rw (e, cgi)
                (elim (find? uri "?")
                  as (λ o.
                    Inside
                      (elim o as (λ _. Parsed) [
                        | some i ↦ record {
                          is_static = false;
                          filename = "./public/" ++ slice uri 0 i;
                          cgiargs = slice uri (i + 1) (len uri);
                        }
                        | none ↦ record {
                          is_static = false;
                          filename = "./public/" ++ uri;
                          cgiargs = "";
                        }
                      ]).filename) [
                        | some i ↦ public-Inside (slice uri 0 i) (NoDots-slice uri i clean)
                        | none ↦ public-Inside uri clean
                      ])
          | inr static ↦ elim (Bool-cases (ends_with_slash uri)) [
            | inl slash ↦
                rw (e, static, slash) (public-Inside (uri ++ "home.html") (home-NoDots uri clean))
            | inr other ↦ rw (e, static, other) (public-Inside uri clean)
          ]
        ]
  ]

-- The file that is sent or run is inside.
abbrev pub ServesInside : Response → Type 0
ServesInside (error cause errnum shortmsg longmsg) = Unit {0}
ServesInside (serve_static filename filetype filesize h) = Inside filename
ServesInside (serve_dynamic filename cgiargs h) = Inside filename

serve_file-ServesInside :
    (p : Parsed) (f : FileStat) (m : MetaData)
    → Inside p.filename
    → ServesInside (serve_file p f m).1
unfolding serve_file
serve_file-ServesInside p f m h = elim (Bool-cases p.is_static) [
  | inl st ↦ elim (Bool-cases (f.regular && f.readable)) [
    | inl ok ↦ rw (st, ok) h
    | inr bad ↦ rw (st, bad) tt
  ]
  | inr dy ↦ elim (Bool-cases (f.regular && f.executable)) [
    | inl ok ↦ rw (dy, ok) h
    | inr bad ↦ rw (dy, bad) tt
  ]
]

serve-ServesInside :
    (p : Parsed) (found : Option FileStat) (stat : String → Option FileStat) (m : MetaData)
    → stat p.filename ≡ found
    → Inside p.filename
    → ServesInside (serve p stat m).1
unfolding serve
serve-ServesInside p none stat m e h = rw (e, serve) tt
serve-ServesInside p (some f) stat m e h = rw (e, serve) (serve_file-ServesInside p f m h)

outcome-ServesInside : (r : Request) (m : MetaData) → ServesInside (request_outcome r m).1
unfolding request_outcome
outcome-ServesInside r m = elim (Bool-cases (is_get r.method)) [
  | inl e ↦
      let p : Parsed = request_parse_uri r.uri r.garbage in
      rw e (
        serve-ServesInside p (r.stat p.filename) r.stat m refl
          (request_parse_uri-Inside r.uri r.garbage))
  | inr e ↦ rw e tt
]

-- Whatever the request and the files, the name of a file that `requestHandle` sends or runs starts
-- with "./public/" and has no ".." in it. It answers unless the method is GET and the headers have
-- not ended within the tests made.
pub request_handle-ServesInside :
    (fuel : ℕ) (r : Request) (m : MetaData) → Answered (λ out. ServesInside out.1) fuel r m
request_handle-ServesInside fuel r m =
    request_handle-Answered (λ out. ServesInside out.1) fuel r m (outcome-ServesInside r m)
