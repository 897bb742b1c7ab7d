-- ===== src/Request/Dots.antt =====
-- Texts in which no two dots stand side by side, for HW3/request.c.
use Prim.Native.Nat.{Ordering, compare as compare_ℕ}
use Prim.Native.Char.{Char, code, len_utf8}
use Prim.Native.String.{String, [], ◌∷◌, ◌++◌, len, slice, find, fits}
use Prim.Native.String.append
use Prim.Native.String.find
use Prim.Native.String.len
use Prim.Native.String.slice
use text.Mathlib.TextBridge.{IsPrefix}
use text.Mathlib.TextFind.{begins_cases}
use text.Mathlib.TextLemmas.{nil≢cons, head-eq_of_cons-eq, tail-eq_of_cons-eq}
use mathlib.Core.Path.{Path, subst}
use operating_system_whw.Common.{ℕ, suc, ◌+◌, ◌-◌, ◌≡◌, ◌≢◌, ◌⊎◌, inl, inr, sym, ap, ◌∙◌, arith}

abbrev pub dot : Char
dot = "."

abbrev pub StartsWithDots : String → Type 0
StartsWithDots s = (v : String) × Path String s (dot ∷ (dot ∷ v))

abbrev pub NoDots : String → Type 0
NoDots [] = Unit {0}
NoDots (c ∷ s) = (¬ StartsWithDots (c ∷ s)) × NoDots s

begins-dots : (v : String) → find (dot ∷ (dot ∷ v)) ".." ≡ 0
begins-dots v = find.cons dot (dot ∷ v) ".."

append-dots : (v : String) → Path String (".." ++ v) (dot ∷ (dot ∷ v))
append-dots v =
    append.cons dot "." v
    ∙ ap (λ t. dot ∷ t) (append.cons dot [] v ∙ ap (λ t. dot ∷ t) (append.nil v))

-- What `strstr` does not find is not there.
pub find-NoDots : (s : String) → find s ".." ≡ suc (len s) → NoDots s
find-NoDots [] e = _
find-NoDots (c ∷ s) e = elim (begins_cases (c ∷ s) ".." 0 (len_utf8 c + find s "..")) [
  | inl (hit, _) ↦ absurd (omega (arith, sym (find.cons c s "..") ∙ e, hit))
  | inr on ↦ (
    λ starts.
        absurd
          (omega (arith, sym (begins-dots starts.0) ∙ ap (λ t. find t "..") (sym starts.1) ∙ e)),
    find-NoDots s (omega (arith, sym on ∙ sym (find.cons c s "..") ∙ e ∙ ap suc (len.cons c s))),
  )
]

-- No two dots stand anywhere in such a text.
pub NoDots-apart : (s u v : String) → NoDots s → ¬ Path String s (u ++ (".." ++ v))
NoDots-apart [] [] v h e = nil≢cons (e ∙ append.nil (".." ++ v) ∙ append-dots v)
NoDots-apart (c ∷ s) [] v h e = h.0 (v, e ∙ append.nil (".." ++ v) ∙ append-dots v)
NoDots-apart [] (d ∷ u) v h e = nil≢cons (e ∙ append.cons d u (".." ++ v))
NoDots-apart (c ∷ s) (d ∷ u) v h e =
    NoDots-apart s u v h.1 (tail-eq_of_cons-eq (e ∙ append.cons d u (".." ++ v)))

-- The text does not end with a dot.
abbrev pub NoDotLast : String → Type 0
NoDotLast [] = Unit {0}
NoDotLast (c ∷ []) = code c ≢ code dot
NoDotLast (c ∷ (d ∷ s)) = NoDotLast (d ∷ s)

-- The text does not start with a dot.
abbrev pub NoDotFirst : String → Type 0
NoDotFirst [] = Unit {0}
NoDotFirst (c ∷ s) = code c ≢ code dot

seam :
    (c : Char) (s t : String)
    → ¬ StartsWithDots (c ∷ s)
    → NoDotLast (c ∷ s) ⊎ NoDotFirst t
    → ¬ StartsWithDots (c ∷ (s ++ t))
seam c [] t h (inl last) (v, e) = last (ap code (head-eq_of_cons-eq e))
seam c [] [] h (inr first) (v, e) = nil≢cons (sym (append.nil []) ∙ tail-eq_of_cons-eq e)
seam c [] (d ∷ t) h (inr first) (v, e) =
    first (ap code (head-eq_of_cons-eq (sym (append.nil (d ∷ t)) ∙ tail-eq_of_cons-eq e)))
seam c (d ∷ s) t h ends (v, e) = h (
  s,
  ap (λ x. x ∷ (d ∷ s)) (head-eq_of_cons-eq e)
      ∙ ap (λ x. dot ∷ (x ∷ s))
          (head-eq_of_cons-eq (sym (append.cons d s t) ∙ tail-eq_of_cons-eq e)),
)

shorter : (c : Char) (s t : String) → NoDotLast (c ∷ s) ⊎ NoDotFirst t → NoDotLast s ⊎ NoDotFirst t
shorter c [] t ends = inl tt
shorter c (d ∷ s) t ends = ends

pub NoDots-append :
    (s t : String) → NoDots s → NoDots t → NoDotLast s ⊎ NoDotFirst t → NoDots (s ++ t)
NoDots-append [] t hs ht ends = subst NoDots (sym (append.nil t)) ht
NoDots-append (c ∷ s) t hs ht ends =
    subst NoDots (sym (append.cons c s t))
      (seam c s t hs.0 ends, NoDots-append s t hs.1 ht (shorter c s t ends))

NoDots-front : (s t : String) → NoDots (s ++ t) → NoDots s
NoDots-front [] t h = _
NoDots-front (c ∷ s) t h =
    let whole : NoDots (c ∷ (s ++ t)) = subst NoDots (append.cons c s t) h in
    (
      λ starts. whole.0 (
        starts.0 ++ t,
        sym (append.cons c s t)
            ∙ ap (λ x. x ++ t) starts.1
            ∙ append.cons dot (dot ∷ starts.0) t
            ∙ ap (λ x. dot ∷ x) (append.cons dot starts.0 t),
      ),
      NoDots-front s t whole.1,
    )

fits-prefix :
    (o : Ordering) (c : Char) (s t : String) → IsPrefix t s → IsPrefix (fits o c t) (c ∷ s)
fits-prefix Ordering.lt c s t (u, e) = (u, append.cons c t u ∙ ap (λ x. c ∷ x) e)
fits-prefix Ordering.eq c s t (u, e) = (u, append.cons c t u ∙ ap (λ x. c ∷ x) e)
fits-prefix Ordering.gt c s t h = (c ∷ s, append.nil (c ∷ s))

slice-prefix : (s : String) (b : ℕ) → IsPrefix (slice s 0 b) s
slice-prefix [] b = ([], ap (λ x. x ++ []) (slice.nil 0 b) ∙ append.nil [])
slice-prefix (c ∷ s) b =
    subst (λ (x : String). IsPrefix x (c ∷ s)) (sym (slice.cons-zero c s b))
      (fits-prefix (compare_ℕ (len_utf8 c) b) c s (slice s 0 (b - len_utf8 c))
        (slice-prefix s (b - len_utf8 c)))

pub NoDots-slice : (s : String) (b : ℕ) → NoDots s → NoDots (slice s 0 b)
NoDots-slice s b h =
    let front = slice-prefix s b in
    NoDots-front (slice s 0 b) front.0 (subst NoDots (sym front.1) h)
