-- ===== src/Heap/Segments.antt =====
-- Segments that grow at their end.
use operating_system_whw.Common.{◌≡◌, refl, ◌||◌, some, [], ◌∷◌, ◌++◌, arith}
use operating_system_whw.Heap.{Ptr, null, node, Heap, write, set_next}
use operating_system_whw.Heap.Points.{Points, set_next-ok, Points-write_ne, Points-write_self}
use operating_system_whw.Heap.Returns
use operating_system_whw.Heap.Returns.{Returns, returns}
use mathlib.Core.Path.{subst}
use operating_system_whw.Heap.Cells.{
  eq_of_nil, Cell, Cells, has, Apart, SameOutside, Owns, Owns-distinct, Owns-frame,
  not-mem_of_holds, Seg, nil, cons,
}

-- The address of the last node, `p` if there is none.
abbrev pub last_from : Ptr → Cells → Ptr
last_from p [] = p
last_from p (c ∷ xs) = last_from c.node_at xs

pub has-append : (a : Ptr) (xs ys : Cells) → has a (xs ++ ys) ≡ (has a xs || has a ys)
has-append a [] ys = refl
has-append a (x ∷ xs) ys = ground (arith, has-append a xs ys)

Apart-snoc : (c d : Cell) (xs : Cells) → Apart c xs → Apart d (c ∷ xs) → Apart c (xs ++ (d ∷ []))
Apart-snoc c d xs out new = ground (
  arith,
  has-append c.node_at xs (d ∷ []),
  has-append c.message_at xs (d ∷ []),
  has-append c.meta_at xs (d ∷ []),
)

pub Seg-snoc :
    {h : Heap} {stop r p : Ptr} {d : Cell} {xs : Cells}
    → Seg h r p xs
    → r ≡ d.node_at
    → Owns h stop d
    → Apart d xs
    → Seg h stop p (xs ++ (d ∷ []))
Seg-snoc nil e o new = cons e o (refl, refl, refl) nil
Seg-snoc {d} (cons {c} {xs} e' o' out s) e o new =
    cons e' o' (Apart-snoc c d xs out new) (Seg-snoc s e o (ground arith))

pub Owns-relink :
    {h : Heap} {q : Ptr} {c : Cell} (r : Ptr)
    → Owns h q c
    → Owns (write h c.node_at (some (node (record { next = r; message = c.message_at })))) r c
Owns-relink {h} {c} r o = record {
  node_live = Points-write_self h c.node_at _ o.node_live.ne_null;
  message_live = Points-write_ne _ o.message_live (ground (arith, Owns-distinct o));
  meta_live = Points-write_ne _ o.meta_live (ground (arith, Owns-distinct o));
}

-- A write of the last `next` makes the segment end there. The first cell comes in its parts.
pub set_next-Seg :
    {h : Heap} {q : Ptr} {c : Cell} {xs : Cells} (r : Ptr)
    → Owns h q c
    → Apart c xs
    → Seg h null q xs
    → Returns
        (λ _ g. Seg g r c.node_at (c ∷ xs) × SameOutside (c ∷ xs) h g)
        (set_next (last_from c.node_at xs) r h)
unfolding write
set_next-Seg r o out nil =
    rw (set_next-ok r o.node_live)
      (returns (cons refl (Owns-relink r o) (refl, refl, refl) nil, λ a i. ground arith))
set_next-Seg {h} {c} r o out (cons {c = c'} {xs} e o' out' s) =
    Returns.mono (set_next-Seg r o' out' s) λ _ g (chain, same). (
      cons refl (Owns-frame (rw e at o) λ a i. same a (not-mem_of_holds a c (c' ∷ xs) out i)) out
          chain,
      λ a i. same a (ground arith),
    )

-- The node at the end of a segment to NULL.
pub last-Points :
    {h : Heap} {q : Ptr} {c : Cell} (xs : Cells)
    → Owns h q c
    → Seg h null q xs
    → (m : Ptr) × Points h (last_from c.node_at xs) (node (record { next = null; message = m }))
last-Points {h} {c} [] o s = (
  c.message_at,
  subst (λ q. Points h c.node_at (node (record { next = q; message = c.message_at }))) (eq_of_nil s)
      o.node_live,
)
last-Points (c' ∷ xs) o (cons e o' out s) = last-Points xs o' s
