-- ===== src/MessageQueue/Drop/Marks.antt =====
-- What an array of marks means for a list of messages, and for the caller's array.
use operating_system_whw.Common.{
  ◌++◌, take, length-set, ◌≤◌, ◌∙◌, ◌<◌, ℕ, suc, ◌+◌, ◌≡◌, refl, Bool, true, false, List, [], ◌∷◌,
  map, arith, ap, length, set,
}
use native.Mathlib.Nat.{add-zero}
use native.Mathlib.Numerals.{add-one}
use mathlib.Core.List.{append-nil, append_assoc}
use operating_system_whw.Common.{zero}
use operating_system_whw.Heap.{Heap, Ptr, Content}
use operating_system_whw.Heap.Cells.{◌∈◌, Seg, nil, cons, not-mem_of_holds, Cell, Cells, ◌∉◌, Apart}

module _ {ℓ} {A : Type ℓ} where
  -- The items that are marked, in order.
  unfoldable pub marked : List Bool → List A → List A
  marked [] xs = []
  marked (b ∷ bs) [] = []
  marked (true ∷ bs) (x ∷ xs) = x ∷ marked bs xs
  marked (false ∷ bs) (x ∷ xs) = marked bs xs

  -- The items that are not.
  unfoldable pub kept : List Bool → List A → List A
  kept [] xs = xs
  kept (b ∷ bs) [] = []
  kept (true ∷ bs) (x ∷ xs) = kept bs xs
  kept (false ∷ bs) (x ∷ xs) = x ∷ kept bs xs

unfoldable pub marks : List Bool → ℕ
marks [] = 0
marks (true ∷ bs) = suc (marks bs)
marks (false ∷ bs) = marks bs

pub length-marked {ℓ} :
    {A : Type ℓ} (bs : List Bool) (xs : List A)
    → length bs ≡ length xs
    → length (marked bs xs) ≡ marks bs
unfolding marked marks
length-marked [] xs e = refl
length-marked (b ∷ bs) [] e = absurd (omega arith)
length-marked (true ∷ bs) (x ∷ xs) e = ap suc (length-marked bs xs (omega arith))
length-marked (false ∷ bs) (x ∷ xs) e = length-marked bs xs (omega arith)

pub length-kept {ℓ} :
    {A : Type ℓ} (bs : List Bool) (xs : List A)
    → length bs ≡ length xs
    → length (kept bs xs) + marks bs ≡ length xs
unfolding kept marks
length-kept [] xs e = omega arith
length-kept (b ∷ bs) [] e = absurd (omega arith)
length-kept (true ∷ bs) (x ∷ xs) e = omega (arith, length-kept bs xs)
length-kept (false ∷ bs) (x ∷ xs) e = omega (arith, length-kept bs xs)

pub not-mem-kept : (a : Ptr) (bs : List Bool) (xs : Cells) → a ∉ xs → a ∉ kept bs xs
unfolding kept
not-mem-kept a [] xs out = out
not-mem-kept a (b ∷ bs) [] out = refl
not-mem-kept a (true ∷ bs) (x ∷ xs) out = ground (arith, not-mem-kept a bs xs)
not-mem-kept a (false ∷ bs) (x ∷ xs) out = ground (arith, not-mem-kept a bs xs)

pub Apart-kept : (c : Cell) (bs : List Bool) (xs : Cells) → Apart c xs → Apart c (kept bs xs)
Apart-kept c bs xs (p, q, r) = (
  not-mem-kept c.node_at bs xs p,
  not-mem-kept c.message_at bs xs q,
  not-mem-kept c.meta_at bs xs r,
)

mem_of_mem-marked : (a : Ptr) (bs : List Bool) (xs : Cells) → a ∈ marked bs xs → a ∈ xs
unfolding marked
mem_of_mem-marked a [] xs i = cc
mem_of_mem-marked a (b ∷ bs) [] i = cc
mem_of_mem-marked a (true ∷ bs) (x ∷ xs) i = ground (arith, mem_of_mem-marked a bs xs)
mem_of_mem-marked a (false ∷ bs) (x ∷ xs) i = ground (arith, mem_of_mem-marked a bs xs)

-- The cells of a segment are distinct, so no address is both of a marked cell and of a kept one.
pub marked-not-kept :
    {h : Heap} {stop p : Ptr} {xs : Cells} (a : Ptr) (bs : List Bool)
    → Seg h stop p xs
    → a ∈ marked bs xs
    → a ∉ kept bs xs
unfolding marked kept
marked-not-kept a [] s i = cc
marked-not-kept a (b ∷ bs) nil i = refl
marked-not-kept a (true ∷ bs) (cons {c} {xs} e o out s) i =
    ground (arith, marked-not-kept a bs s, not-mem_of_holds a c xs out, not-mem-kept a bs xs)
marked-not-kept a (false ∷ bs) (cons {c} {xs} e o out s) i =
    ground (arith, marked-not-kept a bs s, not-mem_of_holds a c xs out, mem_of_mem-marked a bs xs)

-- `array[i] = v₀; array[i + 1] = v₁; …`
unfoldable pub write_from : List Content → ℕ → List Content → List Content
write_from a i [] = a
write_from a i (v ∷ vs) = write_from (set a i v) (i + 1) vs

abbrev pub contents_of : Cells → List Content
contents_of xs = map (λ c. c.content) xs

take-set :
    (a : List Content) (n : ℕ) (v : Content)
    → n < length a
    → take (n + 1) (set a n v) ≡ take n a ++ (v ∷ [])
take-set [] n v lt = absurd (omega arith)
take-set (x ∷ a) zero v lt = refl
take-set (x ∷ a) (suc n) v lt =
    rw add-one (ap (λ t. x ∷ t) (rw add-one at (take-set a n v (omega arith))))

length-write_from :
    (a : List Content) (i : ℕ) (vs : List Content) → length (write_from a i vs) ≡ length a
unfolding write_from
length-write_from a i [] = refl
length-write_from a i (v ∷ vs) = length-write_from (set a i v) (i + 1) vs ∙ length-set a i v

-- The places from `i` on then hold what was written, and those before it what they held.
pub take-write_from :
    (a : List Content) (i : ℕ) (vs : List Content)
    → i + length vs ≤ length a
    → take (i + length vs) (write_from a i vs) ≡ take i a ++ vs
unfolding write_from
take-write_from a i [] fits = rw (add-zero, append-nil)
take-write_from a i (v ∷ vs) fits =
    let shift : i + suc (length vs) ≡ i + 1 + length vs = omega arith in
    rw (
      shift,
      take-write_from (set a i v) (i + 1) vs (omega (arith, length-set a i v, fits)),
      take-set a i v (omega arith),
      append_assoc,
    )
