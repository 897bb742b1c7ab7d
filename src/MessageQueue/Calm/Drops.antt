-- ===== src/MessageQueue/Calm/Drops.antt =====
-- The condition variables of HW3/message_queue.c under the policies for a full queue.
use operating_system_whw.Common.{
  ℕ, ◌+◌, ◌-◌, ◌≤◌, ◌≡◌, arith, Bool, true, false, none, some, Option, List, [], ◌∷◌, ltb,
  Bool-cases, inl, inr,
}
use operating_system_whw.Heap.{Ptr, Content, Heap, load_node, load_message, set_next, write_at}
use operating_system_whw.Heap.Ends.{Ends, ended, faulty, chain, skip}
use operating_system_whw.MessageQueue.Types.{MessageQueue}
use operating_system_whw.MessageQueue.Random.{get_random_indexes}
use operating_system_whw.MessageQueue.Drop.{
  Dropped, release_node, put_handle_drop_head, Sweep, drop_front, drop_rest, update_tail,
  drop_behind, drop_marked, RandomDrop, blocked, failed, swept, drop_indexes,
  put_handle_drop_random, put_handle_block, after,
}
use operating_system_whw.MessageQueue.Calm.{Calm, Blocked, fewer-Awake}

fewer-Calm :
    (size : ℕ) (mq : MessageQueue) → Calm mq → size ≤ mq.size → Calm (record mq { size = size })
fewer-Calm size mq (awake, quiet) le = (fewer-Awake size mq awake le, quiet)

pub drop_head-Calm :
    (mq : MessageQueue) (d : Dropped) (h : Heap)
    → Calm mq
    → Ends (λ (r : MessageQueue × Dropped). Calm r.0) (put_handle_drop_head mq d h)
unfolding put_handle_drop_head
drop_head-Calm mq d h calm = skip (load_node mq.head h) (λ n h1.
    skip (load_message n.message h1) (λ m h2.
      skip (write_at d.contents 0 m.content h2) (λ contents h3.
        skip (release_node mq.head h3)
          (λ u h4. ended (fewer-Calm (mq.size - 1) mq calm (omega arith))))))

front-Calm :
    (flags : List Bool) (s : Sweep) (h : Heap)
    → Calm s.queue
    → Ends (λ (r : List Bool × Sweep). Calm r.1.queue) (drop_front flags s h)
unfolding drop_front
front-Calm [] s h calm = faulty
front-Calm (false ∷ flags) s h calm = ended calm
front-Calm (true ∷ flags) s h calm = skip (load_node s.queue.head h) (λ n h1.
    skip (load_message n.message h1) (λ m h2.
      skip (write_at s.contents s.dropped_index m.content h2) (λ contents h3.
        skip (load_node s.iterator h3) (λ it h4. skip (release_node s.queue.head h4) (λ u h5.
          front-Calm flags
            (record {
              queue = record s.queue { head = n.next; size = s.queue.size - 1 };
              contents = contents;
              dropped_index = s.dropped_index + 1;
              iterator = it.next;
            })
            h5 (fewer-Calm (s.queue.size - 1) s.queue calm (omega arith)))))))

rest-Calm :
    (flags : List Bool) (prev : Ptr) (s : Sweep) (h : Heap)
    → Calm s.queue
    → Ends (λ (r : Ptr × Sweep). Calm r.1.queue) (drop_rest flags prev s h)
unfolding drop_rest
rest-Calm [] prev s h calm = ended calm
rest-Calm (true ∷ flags) prev s h calm = skip (load_node s.iterator h) (λ n h1.
    skip (load_message n.message h1) (λ m h2.
      skip (write_at s.contents s.dropped_index m.content h2) (λ contents h3.
        skip (set_next prev n.next h3) (λ u h4. skip (release_node s.iterator h4) (λ v h5.
          rest-Calm flags prev
            (record {
              queue = record s.queue { size = s.queue.size - 1 };
              contents = contents;
              dropped_index = s.dropped_index + 1;
              iterator = n.next;
            })
            h5 (fewer-Calm (s.queue.size - 1) s.queue calm (omega arith)))))))
rest-Calm (false ∷ flags) prev s h calm =
    skip (load_node s.iterator h)
      (λ n h1. rest-Calm flags s.iterator (record s { iterator = n.next }) h1 calm)

tail-Calm :
    (prev : Ptr) (s : Sweep) (h : Heap)
    → Calm s.queue
    → Ends (λ (r : MessageQueue × List Content). Calm r.0) (update_tail (prev, s) h)
unfolding update_tail
tail-Calm prev s h calm = skip (load_node prev h) (λ last h1. ended (ground arith))

marked-Calm :
    (flags : List Bool) (mq : MessageQueue) (contents : List Content) (h : Heap)
    → Calm mq
    → Ends (λ (r : MessageQueue × List Content). Calm r.0) (drop_marked flags mq contents h)
unfolding drop_marked drop_behind
marked-Calm flags mq contents h calm =
    chain
      (front-Calm flags
        (record { queue = mq; contents = contents; dropped_index = 0; iterator = mq.head }) h calm)
      (λ r calm1 h1. skip (load_node r.1.iterator h1) (λ n h2.
        chain (rest-Calm (after r.0) r.1.iterator (record r.1 { iterator = n.next }) h2 calm1)
          (λ q calm2 h3. tail-Calm q.0 q.1 h3 calm2)))

-- What `putHandleDropRandom` leaves of a full queue.
abbrev pub Swept : RandomDrop → Type 0
Swept (blocked mq d) = Blocked mq
Swept (failed mq d) = Calm mq
Swept (swept mq d) = Calm mq

indexes-Swept :
    (mq : MessageQueue) (d : Dropped) (flags : Option (List Bool)) (h : Heap)
    → Calm mq
    → Ends Swept (drop_indexes mq d flags h)
unfolding drop_indexes
indexes-Swept mq d none h calm = ended calm
indexes-Swept mq d (some flags) h calm =
    chain (marked-Calm flags mq d.contents h calm) (λ r calm1 h1. ended calm1)

pub block-Blocked :
    (mq : MessageQueue) → Calm mq → mq.size ≡ mq.capacity → Blocked (put_handle_block mq)
unfolding put_handle_block
block-Blocked mq (awake, quiet) full = (awake, omega (arith, quiet.0), quiet.1, full)

pub drop_random-Swept :
    (allocated : Bool) (draws : List ℕ) (mq : MessageQueue) (d : Dropped) (h : Heap)
    → Calm mq
    → mq.size ≡ mq.capacity
    → Ends Swept (put_handle_drop_random allocated draws mq d h)
unfolding put_handle_drop_random
drop_random-Swept allocated draws mq d h calm full = elim (Bool-cases (ltb mq.capacity 4)) [
  | inl e ↦ rw e (ended (block-Blocked mq calm full))
  | inr e ↦ rw e (
      skip (get_random_indexes allocated mq.capacity mq.random_drop_count draws h)
        (λ flags h1. indexes-Swept mq d flags h1 calm))
]
