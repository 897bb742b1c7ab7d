-- ===== src/MessageQueue/Drop/Front.antt =====
-- The first loop of `putHandleDropRandom`.
use operating_system_whw.Common.{
  ◌+◌, ◌-◌, ◌≤◌, ◌<◌, ◌≡◌, refl, Bool, true, false, List, [], ◌∷◌, arith, ◌∙◌, length, set, none,
  sym, length-set, Bool-cases, ◌⊎◌, inl, inr,
}
use mathlib.Core.Path.{subst}
use operating_system_whw.Heap.{load_node, Ptr, null, Heap, ok}
use operating_system_whw.Heap.Points.{load_node-ok, load_message-ok, write_at-ok}
use operating_system_whw.Heap.Returns
use operating_system_whw.Heap.Returns.{Returns, returns}
use operating_system_whw.Heap.Cells.{
  Cell, Cells, holds, ◌∈◌, ◌∉◌, SameOutside, not-mem_of_holds, Seg, not-mem-tail,
}
use operating_system_whw.Heap.Release.{without, without-Gone, without-outside, Seg-without}
use operating_system_whw.MessageQueue.Holds.{Uncons-live, Seg-Uncons}
use operating_system_whw.MessageQueue.Drop.{Sweep, drop_front, release_node}
use operating_system_whw.MessageQueue.Drop.Single.{release_node-without}
use operating_system_whw.MessageQueue.Drop.Marks.{marked, kept, marks, write_from, contents_of}

-- What the loop has before it: `xs` from `head`, which is `iterator` too, and a mark that is 0.
pub record Ahead (flags : List Bool) (xs : Cells) (s : Sweep) (h : Heap) : Type 0 where
  pub chain : Seg h null s.queue.head xs
  pub iterator : s.iterator ≡ s.queue.head
  pub fits : length flags ≡ length xs
  pub count : s.queue.size ≡ length xs
  pub room : s.dropped_index + marks flags ≤ length s.contents
  pub some_kept : marks flags < length flags

-- The loop has stopped at the first message that is kept, `y`; the marks of those behind it, `ys`,
-- are `flags'`.
pub record Front (flags : List Bool) (xs : Cells) (s : Sweep) (h : Heap) (out : List Bool × Sweep)
    (g : Heap) : Type 0 where
  pub y : Cell
  pub ys : Cells
  pub flags' : List Bool
  pub left : out.0 ≡ false ∷ flags'
  pub rest : Ahead (false ∷ flags') (y ∷ ys) out.1 g
  pub kept_eq : kept flags xs ≡ y ∷ kept flags' ys
  pub contents :
      write_from out.1.contents out.1.dropped_index (contents_of (marked flags' ys))
      ≡ write_from s.contents s.dropped_index (contents_of (marked flags xs))
  pub queue : out.1.queue ≡ record s.queue { size = out.1.queue.size; head = out.1.queue.head }
  pub same : SameOutside xs h g
  pub behind : (a : Ptr) → a ∉ xs → a ∉ (y ∷ ys)
  pub gone :
      (a : Ptr) → a ∈ marked flags xs → (a ∈ marked flags' ys) ⊎ ((g a ≡ none) × (a ∉ (y ∷ ys)))

Front-stop :
    {flags : List Bool} {y : Cell} {ys : Cells} {s : Sweep} {h : Heap}
    → Ahead (false ∷ flags) (y ∷ ys) s h
    → Front (false ∷ flags) (y ∷ ys) s h (false ∷ flags, s) h
unfolding marked kept
Front-stop {flags} {y} {ys} b = record {
  y = y;
  ys = ys;
  flags' = flags;
  left = refl;
  rest = b;
  kept_eq = refl;
  contents = refl;
  queue = refl;
  same = λ a o. refl;
  behind = λ a o. o;
  gone = λ a i. inl i;
}

-- A round that drops the head `x`.
module _ {flags : List Bool} {x : Cell} {xs : Cells} {s : Sweep} {h : Heap}
    (b : Ahead (true ∷ flags) (x ∷ xs) s h) where
  step : Sweep
  step = record {
    queue = record s.queue { head = (Seg-Uncons b.chain).next; size = s.queue.size - 1 };
    contents = set s.contents s.dropped_index x.content;
    dropped_index = s.dropped_index + 1;
    iterator = (Seg-Uncons b.chain).next;
  }

  Ahead-step : Ahead flags xs step (without x h)
  unfolding step marks
  Ahead-step =
      let u = Seg-Uncons b.chain in
      record {
        chain = Seg-without x xs u.rest u.apart;
        iterator = refl;
        fits = omega (arith, b.fits);
        count = omega (arith, b.count);
        room = omega (arith, length-set s.contents s.dropped_index x.content, b.room);
        some_kept = omega (arith, b.some_kept);
      }

  Front-step :
      {out : List Bool × Sweep} {g : Heap}
      → Front flags xs step (without x h) out g
      → Front (true ∷ flags) (x ∷ xs) s h out g
  unfolding step marked kept write_from
  Front-step {g} f =
      let u = Seg-Uncons b.chain in
      record {
        y = f.y;
        ys = f.ys;
        flags' = f.flags';
        left = f.left;
        rest = f.rest;
        kept_eq = f.kept_eq;
        contents = f.contents;
        queue = f.queue;
        same = λ a o. f.same a (not-mem-tail a x xs o) ∙ without-outside x h xs a o;
        behind = λ a o. f.behind a (not-mem-tail a x xs o);
        gone = λ a i. elim (Bool-cases (holds a x)) [
          | inl hit ↦
              let out = not-mem_of_holds a x xs u.apart hit in
              inr (f.same a out ∙ without-Gone x h a hit, f.behind a out)
          | inr miss ↦ f.gone a (ground arith)
        ];
      }

pub drop_front-Front :
    (flags : List Bool) (xs : Cells) {s : Sweep} {h : Heap}
    → Ahead flags xs s h
    → Returns (Front flags xs s h) (drop_front flags s h)
unfolding drop_front step marks
drop_front-Front [] xs b = absurd (omega (arith, b.some_kept))
drop_front-Front (f ∷ flags) [] b = absurd (omega (arith, b.fits))
drop_front-Front (false ∷ flags) (y ∷ ys) b = returns (Front-stop b)
drop_front-Front (true ∷ flags) (x ∷ xs) {s} {h} b =
    let u = Seg-Uncons b.chain in
    let released : release_node s.queue.head h ≡ ok tt (without x h) =
      subst (λ p. release_node p h ≡ ok tt (without x h)) (sym u.head_at)
        (release_node-without u.owned) in
    let at_iterator : load_node s.iterator h
        ≡ ok (record { next = u.next; message = x.message_at }) h =
      subst (λ p. load_node p h ≡ ok (record { next = u.next; message = x.message_at }) h)
        (sym b.iterator) (load_node-ok (Uncons-live u)) in
    rw
      (
        load_node-ok (Uncons-live u),
        load_message-ok u.owned.message_live,
        write_at-ok s.contents s.dropped_index x.content h (omega (arith, b.room)),
        at_iterator,
        released,
      )
      (Returns.mono (drop_front-Front flags xs (Ahead-step b)) λ out g r. Front-step b r)
