-- ===== src/Heap/Release.antt =====
-- The objects of a cell given back.
use operating_system_whw.Common.{◌≡◌, true, none, [], ◌∷◌, arith, if◌then◌else◌}
use operating_system_whw.Heap.{Ptr, Heap}
use operating_system_whw.Heap.Cells.{
  Cell, Cells, SameOutside, holds, ◌∈◌, Apart, Owns, Owns-frame, not-mem_of_holds, Seg, Seg-frame,
}

-- `h` less the objects of `c`
unfoldable pub without : Cell → Heap → Heap
without c h a = if holds a c then none else h a

pub without-other :
    (a : Ptr) (c : Cell) (h : Heap) (xs : Cells) → Apart c xs → a ∈ xs → without c h a ≡ h a
unfolding without
without-other a c h xs out i = ground (arith, not-mem_of_holds a c xs out)

module _ {h : Heap} (c : Cell) where
  pub Seg-without :
      {stop p : Ptr} (xs : Cells) → Seg h stop p xs → Apart c xs → Seg (without c h) stop p xs
  Seg-without xs s out = Seg-frame s (λ a i. without-other a c h xs out i)

  pub Owns-without :
      {next : Ptr} (d : Cell) → Owns h next d → Apart c (d ∷ []) → Owns (without c h) next d
  Owns-without d o out = Owns-frame o (λ a i. without-other a c h (d ∷ []) out (ground arith))

-- The objects of `c` are gone.
abbrev pub Gone : Cell → Heap → Type 0
Gone c g = (a : Ptr) → holds a c ≡ true → g a ≡ none

pub without-Gone : (c : Cell) (h : Heap) → Gone c (without c h)
unfolding without
without-Gone c h a i = rw i

pub without-outside : (c : Cell) (h : Heap) (xs : Cells) → SameOutside (c ∷ xs) h (without c h)
unfolding without
without-outside c h xs a out = ground arith
