-- ===== src/MessageQueue/Drop/Removal.antt =====
-- Both loops of `putHandleDropRandom`, one after the other.
use operating_system_whw.Common.{
  ◌≤◌, ◌<◌, ◌≡◌, refl, Bool, false, List, ◌∷◌, arith, ap, ◌∙◌, length, none, sym, inl, inr,
}
use mathlib.Core.Path.{subst}
use operating_system_whw.Heap.{and_then, Ptr, null, Heap, ok}
use operating_system_whw.Heap.Returns
use operating_system_whw.Heap.Returns.{Returns, returns}
use operating_system_whw.Heap.Cells.{Cell, Cells, ◌∈◌, SameOutside, Seg}
use operating_system_whw.Heap.Segments.{last-Points}
use operating_system_whw.Heap.Points.{load_node-ok}
use operating_system_whw.Heap.{Content, load_node}
use operating_system_whw.MessageQueue.Types.{MessageQueue}
use operating_system_whw.MessageQueue.Holds.{IsQueue, Uncons-live, Seg-Uncons, Uncons}
use operating_system_whw.MessageQueue.Drop.{Sweep, drop_rest, drop_marked, drop_behind, update_tail}
use operating_system_whw.MessageQueue.Drop.Marks.{marked, kept, marks, write_from, contents_of}
use operating_system_whw.MessageQueue.Drop.Rest.{Rest, Before, drop_rest-Rest}
use operating_system_whw.MessageQueue.Drop.Front.{Ahead, Front, drop_front-Front}

-- The marked messages are gone and reported in order; the queue holds the others.
pub record Removed (flags : List Bool) (xs : Cells) (mq : MessageQueue) (contents : List Content)
    (h : Heap) (out : MessageQueue × List Content) (g : Heap) : Type 0 where
  pub holds : IsQueue g out.0 (kept flags xs)
  pub setup : out.0 ≡ record mq { size = out.0.size; head = out.0.head; tail = out.0.tail }
  pub reported : out.1 ≡ write_from contents 0 (contents_of (marked flags xs))
  pub same : SameOutside xs h g
  pub gone : (a : Ptr) → a ∈ marked flags xs → g a ≡ none

-- What follows the first loop, at the first kept message `y`.
record Behind (flags : List Bool) (y : Cell) (ys : Cells) (s : Sweep) (h : Heap)
    (out : MessageQueue × List Content) (g : Heap) : Type 0 where
  holds : IsQueue g out.0 (y ∷ kept flags ys)
  setup : out.0 ≡ record s.queue { size = out.0.size; tail = out.0.tail }
  reported : out.1 ≡ write_from s.contents s.dropped_index (contents_of (marked flags ys))
  same : SameOutside (y ∷ ys) h g
  gone : (a : Ptr) → a ∈ marked flags ys → g a ≡ none

module _ {flags : List Bool} {y : Cell} {ys : Cells} {s : Sweep} {h : Heap}
    (b : Ahead (false ∷ flags) (y ∷ ys) s h) where
  first : Uncons h s.iterator y ys
  first = Seg-Uncons (subst (λ p. Seg h null p (y ∷ ys)) (sym b.iterator) b.chain)

  Before-first : Before flags 1 y ys (record s { iterator = first.next }) h
  unfolding first marks
  Before-first = record {
    owned = first.owned;
    apart = first.apart;
    ahead = first.rest;
    fits = omega (arith, b.fits);
    count = omega (arith, b.count);
    room = b.room;
  }

  Behind-Rest :
      {out : Ptr × Sweep} {g : Heap}
      → Rest flags 1 y ys (record s { iterator = first.next }) h out g
      → Behind flags y ys s h (record out.1.queue { tail = out.0 }, out.1.contents) g
  unfolding first
  Behind-Rest {out} {g} r = record {
    holds = record {
      chain =
          subst (λ p. Seg g null p (y ∷ kept flags ys))
            (sym (ap (λ (q : MessageQueue). q.head) r.queue ∙ (Seg-Uncons b.chain).head_at))
            r.chain;
      count = ap (λ (q : MessageQueue). q.size) r.queue ∙ omega arith;
      tail_last = r.prev;
    };
    setup = rw r.queue;
    reported = r.contents;
    same = r.same;
    gone = r.gone;
  }

  update_tail-Behind :
      {out : Ptr × Sweep} {g : Heap}
      → Rest flags 1 y ys (record s { iterator = first.next }) h out g
      → Returns (Behind flags y ys s h) (update_tail out g)
  unfolding update_tail
  update_tail-Behind {out} {g} r =
      let u = Seg-Uncons r.chain in
      let (m, live) = last-Points (kept flags ys) u.owned u.rest in
      let at_prev : load_node out.0 g ≡ ok (record { next = null; message = m }) g =
        subst (λ p. load_node p g ≡ ok (record { next = null; message = m }) g) (sym r.prev)
          (load_node-ok live) in
      rw at_prev (returns (Behind-Rest r))

  drop_behind-Behind : Returns (Behind flags y ys s h) (drop_behind (false ∷ flags) s h)
  unfolding drop_behind
  drop_behind-Behind =
      let it : Sweep = record s { iterator = first.next } in
      rw (load_node-ok (Uncons-live first)) (
        subst (λ p. Returns (Behind flags y ys s h) (and_then (drop_rest flags p it h) update_tail))
          (sym first.head_at)
          (Returns.bind (drop_rest-Rest flags 1 ys Before-first) λ out g r. update_tail-Behind r))

Removed-Behind :
    {flags : List Bool} {xs : Cells} {mq : MessageQueue} {h : Heap} {contents : List Content}
    {mid : List Bool × Sweep} {g : Heap} {out : MessageQueue × List Content} {g' : Heap}
    (f : Front flags xs
      (record { queue = mq; contents = contents; dropped_index = 0; iterator = mq.head })
      h
      mid
      g)
    → Behind f.flags' f.y f.ys mid.1 g out g'
    → Removed flags xs mq contents h out g'
Removed-Behind {out} {g'} f r = record {
  holds = subst (λ ks. IsQueue g' out.0 ks) (sym f.kept_eq) r.holds;
  setup = rw (r.setup, f.queue);
  reported = r.reported ∙ f.contents;
  same = λ a o. r.same a (f.behind a o) ∙ f.same a o;
  gone = λ a i. elim (f.gone a i) [
    | inl later ↦ r.gone a later
    | inr (none_there, out) ↦ r.same a out ∙ none_there
  ];
}

-- Both loops of `putHandleDropRandom`, at a queue of `xs` with one mark for each message, some
-- message unmarked, and room for the marked ones in the caller's array: the queue is left with the
-- unmarked messages in order, with its size and its tail right; the marked contents are reported
-- in order, their objects given back, and nothing outside the queue has changed.
pub drop_marked-Removed :
    {flags : List Bool} {xs : Cells} {mq : MessageQueue} {h : Heap} (contents : List Content)
    → IsQueue h mq xs
    → length flags ≡ length xs
    → marks flags < length flags
    → marks flags ≤ length contents
    → Returns (Removed flags xs mq contents h) (drop_marked flags mq contents h)
unfolding drop_marked
drop_marked-Removed {flags} {xs} {mq} {h} contents is fits some_kept room =
    Returns.bind
      (drop_front-Front flags xs (record {
        chain = is.chain;
        iterator = refl;
        fits = fits;
        count = is.count;
        room = omega arith;
        some_kept = some_kept;
      }))
      λ out g f.
        subst (λ left. Returns (Removed flags xs mq contents h) (drop_behind left out.1 g))
          (sym f.left) (Returns.mono (drop_behind-Behind f.rest) λ out' g' r. Removed-Behind f r)
