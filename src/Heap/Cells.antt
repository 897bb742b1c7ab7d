-- ===== src/Heap/Cells.antt =====
-- List segments of queue nodes, each with the message and the meta data that it leads to.
use operating_system_whw.Common.{
  ◌≡◌, refl, ◌≢◌, Bool, true, false, ◌||◌, Option, none, List, [], ◌∷◌, arith, ◌==◌,
}
use operating_system_whw.Heap.{
  Ptr, Content, MetaData, Object, node, message, meta_data, Heap, write,
}
use operating_system_whw.Heap.Points.{Points}

-- One queued message: its three addresses, and what the objects there say.
pub record Cell : Type 0 where
  pub node_at : Ptr
  pub message_at : Ptr
  pub meta_at : Ptr
  pub content : Content
  pub info : MetaData

abbrev pub Cells : Type 0
Cells = List Cell

abbrev pub holds : Ptr → Cell → Bool
holds a c = a == c.node_at || (a == c.message_at || a == c.meta_at)

abbrev pub has : Ptr → Cells → Bool
has a [] = false
has a (c ∷ xs) = holds a c || has a xs

infix 40 ◌∈◌ ◌∉◌
abbrev pub ◌∈◌ : Ptr → Cells → Type 0
a ∈ xs = has a xs ≡ true

abbrev pub ◌∉◌ : Ptr → Cells → Type 0
a ∉ xs = has a xs ≡ false

-- No address of `c` is one of `xs`.
abbrev pub Apart : Cell → Cells → Type 0
Apart c xs = (c.node_at ∉ xs) × (c.message_at ∉ xs) × (c.meta_at ∉ xs)

pub Apart-tail : (d c : Cell) (xs : Cells) → Apart d (c ∷ xs) → Apart d xs
Apart-tail d c xs out = ground arith

pub Apart-flip : (d c : Cell) (xs : Cells) → Apart d (c ∷ xs) → Apart c (d ∷ [])
Apart-flip d c xs out = ground arith

pub not-mem-tail : (a : Ptr) (c : Cell) (xs : Cells) → a ∉ (c ∷ xs) → a ∉ xs
not-mem-tail a c xs out = ground arith

pub not-mem_of_holds : (a : Ptr) (c : Cell) (xs : Cells) → Apart c xs → holds a c ≡ true → a ∉ xs
not-mem_of_holds a c xs out i = ground arith

-- `g` differs from `h` at most at the addresses of `xs`.
abbrev pub SameOutside : Cells → Heap → Heap → Type 0
SameOutside xs h g = (a : Ptr) → a ∉ xs → g a ≡ h a

-- The three objects of `c` are live, and its node leads to `next`.
pub record Owns (h : Heap) (next : Ptr) (c : Cell) : Type 0 where
  pub node_live : Points h c.node_at (node (record { next = next; message = c.message_at }))
  pub message_live :
      Points h c.message_at (message (record { content = c.content; meta_data = c.meta_at }))
  pub meta_live : Points h c.meta_at (meta_data c.info)

-- From `p` the `next` pointers lead through the distinct cells `xs` to `stop`.
pub data Seg (h : Heap) (stop : Ptr) : Ptr → Cells → Type 0 where
  nil : Seg h stop stop []
  cons :
      {p q : Ptr} {c : Cell} {xs : Cells}
      → p ≡ c.node_at
      → Owns h q c
      → Apart c xs
      → Seg h stop q xs
      → Seg h stop p (c ∷ xs)

module _ {h : Heap} where
  -- The addresses of one cell are three.
  pub Owns-distinct :
      {next : Ptr} {c : Cell}
      → Owns h next c
      → (c.node_at ≢ c.message_at) × (c.node_at ≢ c.meta_at) × (c.message_at ≢ c.meta_at)
  Owns-distinct {c} o = ground arith

  pub Owns-frame :
      {g : Heap} {next : Ptr} {c : Cell}
      → Owns h next c
      → ((a : Ptr) → holds a c ≡ true → g a ≡ h a)
      → Owns g next c
  Owns-frame {c} o same = ground (arith, same c.node_at, same c.message_at, same c.meta_at)

module _ {h : Heap} {stop : Ptr} where
  pub eq_of_nil : {p : Ptr} → Seg h stop p [] → p ≡ stop
  eq_of_nil nil = refl

  -- A segment survives any change that spares its own addresses.
  pub Seg-frame :
      {g : Heap} {p : Ptr} {xs : Cells}
      → Seg h stop p xs
      → ((a : Ptr) → a ∈ xs → g a ≡ h a)
      → Seg g stop p xs
  Seg-frame nil same = nil
  Seg-frame (cons e o out s) same =
      cons e (Owns-frame o λ a i. same a (ground arith)) out
        (Seg-frame s λ a i. same a (ground arith))

  pub Seg-write :
      {p : Ptr} {xs : Cells} (a : Ptr) (o : Option Object)
      → Seg h stop p xs
      → a ∉ xs
      → Seg (write h a o) stop p xs
  unfolding write
  Seg-write a o s out = Seg-frame s (λ b i. ground arith)

  -- An address that holds nothing belongs to no cell.
  pub not-mem_of_none : {p : Ptr} {xs : Cells} (a : Ptr) → Seg h stop p xs → h a ≡ none → a ∉ xs
  not-mem_of_none a nil unused = refl
  not-mem_of_none a (cons e o out s) unused = ground (arith, not-mem_of_none a s unused)
