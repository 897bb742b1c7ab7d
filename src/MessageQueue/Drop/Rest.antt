-- ===== src/MessageQueue/Drop/Rest.antt =====
-- The second loop of `putHandleDropRandom`.
use operating_system_whw.Common.{
  none, ℕ, ◌+◌, ◌-◌, ◌≤◌, ◌≡◌, refl, Bool, true, false, some, List, [], ◌∷◌, arith, ap, ◌∙◌, length,
  set,
}
use operating_system_whw.Heap.{Ptr, null, Heap, node, write, ok}
use operating_system_whw.Heap.Points.{load_node-ok, load_message-ok, set_next-ok, write_at-ok}
use operating_system_whw.Heap.Returns
use operating_system_whw.Heap.Returns.{Returns, returns}
use operating_system_whw.Heap.Cells.{
  Cell, Cells, holds, ◌∈◌, ◌∉◌, Apart, Apart-tail, Apart-flip, SameOutside, Owns, Owns-frame,
  not-mem_of_holds, Seg, Seg-write, cons,
}
use operating_system_whw.Heap.Release.{
  without, without-Gone, without-outside, Owns-without, Seg-without,
}
use operating_system_whw.Heap.Segments.{last_from, Owns-relink}
use operating_system_whw.MessageQueue.Holds.{Uncons-live, Seg-Uncons}
use mathlib.Core.Path.{subst}
use operating_system_whw.Common.{sym, length-set, Bool-cases, inl, inr}
use operating_system_whw.Heap.Cells.{not-mem-tail}
use operating_system_whw.MessageQueue.Drop.{release_node}
use operating_system_whw.MessageQueue.Drop.{Sweep, drop_rest}
use operating_system_whw.MessageQueue.Drop.Single.{release_node-without}
use operating_system_whw.MessageQueue.Drop.Marks.{
  marked, kept, marks, Apart-kept, write_from, contents_of,
}

-- From the cell `z` on, the marked cells of `ys` are gone and the others are chained.
pub record Rest (flags : List Bool) (n : ℕ) (z : Cell) (ys : Cells) (s : Sweep) (h : Heap)
    (out : Ptr × Sweep) (g : Heap) : Type 0 where
  pub chain : Seg g null z.node_at (z ∷ kept flags ys)
  pub prev : out.0 ≡ last_from z.node_at (kept flags ys)
  pub contents :
      out.1.contents ≡ write_from s.contents s.dropped_index (contents_of (marked flags ys))
  pub queue : out.1.queue ≡ record s.queue { size = n + length (kept flags ys) }
  pub same : SameOutside (z ∷ ys) h g
  pub gone : (a : Ptr) → a ∈ marked flags ys → g a ≡ none

-- What the loop has before it: `n` nodes done, and `ys` from `iterator` on.
pub record Before (flags : List Bool) (n : ℕ) (z : Cell) (ys : Cells) (s : Sweep) (h : Heap)
    : Type 0 where
  pub owned : Owns h s.iterator z
  pub apart : Apart z ys
  pub ahead : Seg h null s.iterator ys
  pub fits : length flags ≡ length ys
  pub count : s.queue.size ≡ n + length ys
  pub room : s.dropped_index + marks flags ≤ length s.contents

Rest-nil :
    {n : ℕ} {z : Cell} {s : Sweep} {h : Heap}
    → Before [] n z [] s h
    → Rest [] n z [] s h (z.node_at, s) h
unfolding marked kept write_from
Rest-nil {s} b = record {
  chain = cons refl b.owned (refl, refl, refl) b.ahead;
  prev = refl;
  contents = refl;
  queue = ap (λ k. record s.queue { size = k }) b.count;
  same = λ a i. refl;
  gone = λ a i. cc;
}

-- A round that keeps `y`.
module _ {flags : List Bool} {n : ℕ} {z y : Cell} {ys : Cells} {s : Sweep} {h : Heap}
    (b : Before (false ∷ flags) n z (y ∷ ys) s h) where
  step-keep : Sweep
  step-keep = record s { iterator = (Seg-Uncons b.ahead).next }

  Before-keep : Before flags (n + 1) y ys step-keep h
  unfolding step-keep marks
  Before-keep =
      let u = Seg-Uncons b.ahead in
      record {
        owned = u.owned;
        apart = u.apart;
        ahead = u.rest;
        fits = omega (arith, b.fits);
        count = omega (arith, b.count);
        room = b.room;
      }

  Rest-keep :
      {out : Ptr × Sweep} {g : Heap}
      → Rest flags (n + 1) y ys step-keep h out g
      → Rest (false ∷ flags) n z (y ∷ ys) s h out g
  unfolding step-keep marked kept
  Rest-keep {g} r = record {
    chain =
        cons refl (Owns-frame b.owned λ a i. r.same a (not-mem_of_holds a z (y ∷ ys) b.apart i))
          (Apart-kept z (false ∷ flags) (y ∷ ys) b.apart)
          (subst (λ p. Seg g null p (y ∷ kept flags ys)) (sym (Seg-Uncons b.ahead).head_at)
            r.chain);
    prev = r.prev;
    contents = r.contents;
    queue = r.queue ∙ ap (λ k. record s.queue { size = k }) (omega arith);
    same = λ a o. r.same a (not-mem-tail a z (y ∷ ys) o);
    gone = r.gone;
  }

-- A round that drops `y`.
module _ {flags : List Bool} {n : ℕ} {z y : Cell} {ys : Cells} {s : Sweep} {h : Heap}
    (b : Before (true ∷ flags) n z (y ∷ ys) s h) where
  relinked : Heap
  relinked =
      write h z.node_at
        (some (node (record { next = (Seg-Uncons b.ahead).next; message = z.message_at })))

  step-drop : Sweep
  step-drop = record {
    queue = record s.queue { size = s.queue.size - 1 };
    contents = set s.contents s.dropped_index y.content;
    dropped_index = s.dropped_index + 1;
    iterator = (Seg-Uncons b.ahead).next;
  }

  relinked-Owns : Owns relinked (Seg-Uncons b.ahead).next y
  unfolding relinked write
  relinked-Owns = Owns-frame (Seg-Uncons b.ahead).owned (λ a i. ground (arith, b.apart))

  Before-drop : Before flags n z ys step-drop (without y relinked)
  unfolding step-drop relinked marks
  Before-drop =
      let u = Seg-Uncons b.ahead in
      record {
        owned = Owns-without y z (Owns-relink u.next b.owned) (Apart-flip z y ys b.apart);
        apart = Apart-tail z y ys b.apart;
        ahead =
            Seg-without y ys (Seg-write z.node_at _ u.rest (Apart-tail z y ys b.apart).0) u.apart;
        fits = omega (arith, b.fits);
        count = omega (arith, b.count);
        room = omega (arith, length-set s.contents s.dropped_index y.content, b.room);
      }

  gone_outside : (a : Ptr) → holds a y ≡ true → a ∉ (z ∷ ys)
  gone_outside a i = ground (arith, b.apart, (Seg-Uncons b.ahead).apart)

  Rest-drop :
      {out : Ptr × Sweep} {g : Heap}
      → Rest flags n z ys step-drop (without y relinked) out g
      → Rest (true ∷ flags) n z (y ∷ ys) s h out g
  unfolding step-drop relinked marked kept write_from write
  Rest-drop r = record {
    chain = r.chain;
    prev = r.prev;
    contents = r.contents;
    queue = r.queue;
    same = λ a o.
        r.same a (ground arith) ∙ without-outside y relinked ys a (ground arith) ∙ ground arith;
    gone = λ a i. elim (Bool-cases (holds a y)) [
      | inl hit ↦ r.same a (gone_outside a hit) ∙ without-Gone y relinked a hit
      | inr miss ↦ r.gone a (ground arith)
    ];
  }

pub drop_rest-Rest :
    (flags : List Bool) (n : ℕ) {z : Cell} (ys : Cells) {s : Sweep} {h : Heap}
    → Before flags n z ys s h
    → Returns (Rest flags n z ys s h) (drop_rest flags z.node_at s h)
unfolding drop_rest step-keep step-drop relinked marks
drop_rest-Rest [] n [] b = returns (Rest-nil b)
drop_rest-Rest [] n (y ∷ ys) b = absurd (omega (arith, b.fits))
drop_rest-Rest (f ∷ flags) n [] b = absurd (omega (arith, b.fits))
drop_rest-Rest (true ∷ flags) n {z} (y ∷ ys) {s} {h} b =
    let u = Seg-Uncons b.ahead in
    let released : release_node s.iterator (relinked b) ≡ ok tt (without y (relinked b)) =
      subst (λ p. release_node p (relinked b) ≡ ok tt (without y (relinked b))) (sym u.head_at)
        (release_node-without (relinked-Owns b)) in
    rw
      (
        load_node-ok (Uncons-live u),
        load_message-ok u.owned.message_live,
        write_at-ok s.contents s.dropped_index y.content h (omega (arith, b.room)),
        set_next-ok u.next b.owned.node_live,
        released,
      )
      (Returns.mono (drop_rest-Rest flags n ys (Before-drop b)) λ out g r. Rest-drop b r)
drop_rest-Rest (false ∷ flags) n {z} (y ∷ ys) {s} {h} b =
    let u = Seg-Uncons b.ahead in
    rw (load_node-ok (Uncons-live u)) (
      subst
        (λ p. Returns (Rest (false ∷ flags) n z (y ∷ ys) s h) (drop_rest flags p (step-keep b) h))
        (sym u.head_at)
        (Returns.mono (drop_rest-Rest flags (n + 1) ys (Before-keep b)) λ out g r. Rest-keep b r))
