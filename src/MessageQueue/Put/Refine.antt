-- ===== src/MessageQueue/Put/Refine.antt =====
-- `MQPut` against its specification, under every policy.
use operating_system_whw.Common.{
  ◌<◌, ◌≡◌, refl, ◌≢◌, some, List, Bool, [], ◌∷◌, ◌++◌, arith, ap, ◌∙◌, sym, length,
}
use native.Mathlib.Decide.{dec_lt, ℕ_discrete}
use mathlib.Core.Path.{subst}
use operating_system_whw.Heap.{Run, Ptr, Content, MetaData, Heap}
use operating_system_whw.Heap.Returns
use operating_system_whw.Heap.Returns.{Returns, returns}
use operating_system_whw.Heap.Cells.{not-mem-tail, Cell, Cells, ◌∉◌}
use operating_system_whw.MessageQueue.Types.{
  success, SchedPolicy, invalid, block, drop_tail, drop_head, drop_random, MessageQueue, lock,
}
use operating_system_whw.MessageQueue.Holds.{IsQueue, IsBounded}
use operating_system_whw.MessageQueue.Drop.{Dropped}
use operating_system_whw.MessageQueue.Drop.Marks.{kept}
use operating_system_whw.MessageQueue.Spec.{entries, put_full, put}
use operating_system_whw.MessageQueue.Put.{Supply, put_loop, loop_fuel, PutTurn, mq_put}
use operating_system_whw.MessageQueue.Put.Prepare.{
  IsMessage, Allocates, new_cell, prepared, prepared-Owns, prepared-Apart, prepared-IsQueue,
}
use operating_system_whw.MessageQueue.Put.Loop.{mq_put-loop}
use operating_system_whw.MessageQueue.Put.Policies.{
  Pending, turn-room, turn-block, turn-drop_tail, turn-drop_head,
}
use operating_system_whw.MessageQueue.Put.Random.{turn-random, turn-random_small}
use operating_system_whw.MessageQueue.Put.Meets.{
  length-reported, Covers-append, Covers-kept, Meets, Finished-Meets, entries-append, entries-kept,
  contents-marked, AreMarks, take-reported, put_full-small, put_full-large, take-set_first,
  Provides, Refines, put-room, put-put_full,
}

module _ {h : Heap} {mq : MessageQueue} {xs : Cells} {c : Cell} (s : Supply) (d : Dropped)
    (b : IsBounded mq) (given : Provides mq s d) (p : Pending h (lock mq) xs c) where
  abbrev turn : Run PutTurn
  turn = put_loop loop_fuel s c.node_at success (lock mq) d h

  pub Refines-room : mq.size ≢ mq.capacity → Returns (Refines mq xs c h) turn
  Refines-room ne =
      let ne' : length xs ≢ mq.capacity = omega (arith, p.queue.count) in
      Returns.mono (turn-room s success d p ne) λ t g f. (
        [],
        λ random large full. absurd (ne' full),
        subst (λ a. Meets a mq xs c h t g)
            (sym (put-room mq.capacity [] (c.content, c.info) mq.sched_policy xs ne'))
            (Finished-Meets xs c f (Covers-append xs c) (λ a. not-mem-tail a c xs)
              (entries-append xs (c ∷ [])) (rw given.none_yet) given.none_yet),
      )

  module _ (full : mq.size ≡ mq.capacity) where
    all_full : length xs ≡ mq.capacity
    all_full = omega (arith, p.queue.count)

    -- The specification at a full queue under the policy `policy`.
    spec_of :
        (flags : List Bool) (policy : SchedPolicy)
        → mq.sched_policy ≡ policy
        → put mq.capacity flags (c.content, c.info) mq.sched_policy (entries xs)
          ≡ put_full mq.capacity flags (c.content, c.info) policy (entries xs)
    spec_of flags policy e =
        put-put_full mq.capacity flags (c.content, c.info) mq.sched_policy xs all_full
        ∙ ap (λ k. put_full mq.capacity flags (c.content, c.info) k (entries xs)) e

    Refines-block : mq.sched_policy ≡ block → Returns (Refines mq xs c h) turn
    unfolding put_full
    Refines-block e = Returns.mono (turn-block s success d full p e) λ t g asleep. (
      [],
      λ random. cc,
      subst (λ a. Meets a mq xs c h t g) (sym (spec_of [] block e)) (d, asleep),
    )

    Refines-drop_tail : mq.sched_policy ≡ drop_tail → Returns (Refines mq xs c h) turn
    unfolding put_full
    Refines-drop_tail e =
        Returns.mono (turn-drop_tail s success d full p e (given.one λ random. cc)) λ t g f. (
          [],
          λ random. cc,
          subst (λ a. Meets a mq xs c h t g) (sym (spec_of [] drop_tail e))
              (Finished-Meets xs c f.0 (λ a. not-mem-tail a c xs) (λ a out. ground arith) refl
                (take-set_first d.contents c.content (given.one λ random. cc)) refl),
        )

    Refines-random : mq.sched_policy ≡ drop_random → Returns (Refines mq xs c h) turn
    Refines-random e = elim (dec_lt mq.capacity 4) [
      | yes small ↦ Returns.mono (turn-random_small s success d p full e small) λ t g asleep. (
        [],
        λ random large. absurd (omega arith),
        subst (λ a. Meets a mq xs c h t g)
            (sym (
              spec_of [] drop_random e
              ∙ put_full-small mq.capacity [] (c.content, c.info) (entries xs) small))
            (record d { amount = 0 }, asleep),
      )
      | no large ↦
          Returns.mono
            (turn-random s success d p full e (omega arith) b.quarter (given.quarter e)
              (given.memory e) (given.draws e))
            λ t g (flags, w).
              let are : AreMarks flags xs mq.capacity = (w.one_each, w.quarter) in
              (
                flags,
                λ random large full. are,
                subst (λ a. Meets a mq xs c h t g)
                    (sym (
                      spec_of flags drop_random e
                      ∙ put_full-large mq.capacity flags (c.content, c.info) (entries xs)
                          (omega arith)))
                    (Finished-Meets xs c w.finished (Covers-kept flags xs c)
                      (λ a. not-mem-tail a c xs)
                      (entries-append (kept flags xs) (c ∷ [])
                        ∙ ap (λ ys. ys ++ ((c.content, c.info) ∷ [])) (entries-kept flags xs))
                      (take-reported d mq flags xs are (given.quarter e) ∙ contents-marked flags xs)
                      (length-reported flags xs mq.capacity are)),
              )
    ]

-- Under `drop_head` a full queue has a head, since its capacity is not 0.
Refines-drop_head :
    {h : Heap} {mq : MessageQueue} (xs : Cells) {c : Cell} (s : Supply) (d : Dropped)
    → IsBounded mq
    → Provides mq s d
    → Pending h (lock mq) xs c
    → mq.size ≡ mq.capacity
    → 0 < mq.capacity
    → mq.sched_policy ≡ drop_head
    → Returns (Refines mq xs c h) (put_loop loop_fuel s c.node_at success (lock mq) d h)
unfolding put_full
Refines-drop_head [] s d b given p full pos e = absurd (omega (arith, p.queue.count))
Refines-drop_head {h} {mq} (x ∷ xs) {c} s d b given p full pos e =
    Returns.mono (turn-drop_head s success d full p e (given.one λ random. cc)) λ t g f. (
      [],
      λ random. cc,
      subst (λ a. Meets a mq (x ∷ xs) c h t g) (sym (spec_of s d b given p full [] drop_head e))
          (Finished-Meets (x ∷ xs) c f.0 (λ a out. Covers-append xs c a (ground arith))
            (λ a. not-mem-tail a c (x ∷ xs)) (entries-append xs (c ∷ []))
            (take-set_first d.contents x.content (given.one λ random. cc)) refl),
    )

pub Refines-full :
    {h : Heap} {mq : MessageQueue} {xs : Cells} {c : Cell} (s : Supply) (d : Dropped)
    (policy : SchedPolicy)
    → mq.sched_policy ≡ policy
    → IsBounded mq
    → Provides mq s d
    → Pending h (lock mq) xs c
    → mq.size ≡ mq.capacity
    → 0 < mq.capacity
    → Returns (Refines mq xs c h) (put_loop loop_fuel s c.node_at success (lock mq) d h)
Refines-full s d invalid e b given p full pos = absurd (b.has_policy e)
Refines-full s d block e b given p full pos = Refines-block s d b given p full e
Refines-full s d drop_tail e b given p full pos = Refines-drop_tail s d b given p full e
Refines-full {xs} s d drop_head e b given p full pos = Refines-drop_head xs s d b given p full pos e
Refines-full s d drop_random e b given p full pos = Refines-random s d b given p full e

-- `MQPut` of a live message, at a queue of a capacity other than 0, with memory for its
-- allocations and, where `random` sweeps, room in the caller's array and draws that come to every
-- index, ends within its rounds and does what the specification says: at a queue with room and at
-- a full one under each policy, for some marks, which are a quarter of the capacity where `random`
-- sweeps.
pub mq_put-Refines :
    {h : Heap} {mq : MessageQueue} {xs : Cells} {at meta : Ptr} {content : Content}
    {info : MetaData} (s : Supply) (d : Dropped)
    → IsQueue h mq xs
    → IsBounded mq
    → 0 < mq.capacity
    → IsMessage h at content meta info
    → meta ∉ xs
    → Allocates h s
    → Provides mq s d
    → Returns
        (Refines mq xs (new_cell s content meta info) (prepared h (new_cell s content meta info)))
        (mq_put s (some mq) at d h)
mq_put-Refines {h} {mq} {xs} {meta} {content} {info} s d is b pos msg out mem given =
    let c : Cell = new_cell s content meta info in
    let here = prepared-IsQueue s msg mem is in
    let p : Pending (prepared h c) (lock mq) xs c = record {
      queue = record { chain = here.chain; count = here.count; tail_last = here.tail_last };
      new = prepared-Owns s msg mem;
      apart = prepared-Apart s msg mem is out;
    } in
    rw (mq_put-loop s msg mem mq d) (elim (ℕ_discrete mq.size mq.capacity) [
      | yes full ↦ Refines-full s d mq.sched_policy refl b given p full pos
      | no ne ↦ Refines-room s d b given p ne
    ])
