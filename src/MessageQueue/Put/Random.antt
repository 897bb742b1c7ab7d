-- ===== src/MessageQueue/Put/Random.antt =====
-- A turn of `MQPut` at a full queue under the policy `random`.
use operating_system_whw.Common.{
  ℕ, ◌/◌, ◌≤◌, ◌<◌, ◌≡◌, true, false, none, some, List, Bool, [], ◌∷◌, ◌++◌, arith, ◌∙◌, sym,
  length,
}
use mathlib.Core.Path.{ap₂, subst}
use operating_system_whw.Heap.{Ptr, Content, Heap, ok, ◌>>=◌}
use operating_system_whw.Heap.Returns
use operating_system_whw.Heap.Returns.{Returns, returns}
use operating_system_whw.Heap.Cells.{Cell, Cells, ◌∈◌, Owns-frame, not-mem_of_holds}
use operating_system_whw.MessageQueue.Types.{
  RetCode, drop, err_memory_fail, drop_random, MessageQueue,
}
use operating_system_whw.MessageQueue.Random.{get_random_indexes}
use operating_system_whw.MessageQueue.Random.Fill.{Appears, get_random_indexes-marks}
use operating_system_whw.MessageQueue.Drop.{
  Dropped, put_handle_drop_random, drop_indexes, RandomDrop, blocked, swept, put_handle_block,
}
use operating_system_whw.MessageQueue.Drop.Marks.{
  marked-not-kept, marked, kept, marks, write_from, contents_of, Apart-kept, not-mem-kept,
}
use operating_system_whw.MessageQueue.Drop.Removal.{Removed, drop_marked-Removed}
use operating_system_whw.MessageQueue.Put.{
  put_finish, Supply, insert, put_random, put_loop, loop_fuel, returned, PutTurn,
}
use operating_system_whw.MessageQueue.Put.Finish.{
  Left-resized, Left, Finished, Finished-from, put_finish-with,
}
use operating_system_whw.MessageQueue.Put.Loop.{loop-random}
use operating_system_whw.MessageQueue.Put.Policies.{Pending, Asleep, put_handle_block-Asleep}

random-small :
    (allocated : Bool) (draws : List ℕ) (mq : MessageQueue) (d : Dropped) (h : Heap)
    → mq.capacity < 4
    → put_handle_drop_random allocated draws mq d h
      ≡ ok (blocked (put_handle_block mq) (record d { amount = 0 })) h
unfolding put_handle_drop_random
random-small allocated draws mq d h small = ground arith

random-large :
    (allocated : Bool) (draws : List ℕ) (mq : MessageQueue) (d : Dropped) (h : Heap)
    → 4 ≤ mq.capacity
    → put_handle_drop_random allocated draws mq d h
      ≡ (get_random_indexes allocated mq.capacity mq.random_drop_count draws >>= drop_indexes mq d)
          h
unfolding put_handle_drop_random
random-large allocated draws mq d h large = ground arith

-- The contents of the marked messages, reported in order from index 0 on.
abbrev pub reported : Dropped → MessageQueue → List Bool → Cells → Dropped
reported d mq flags xs = record {
  contents = write_from d.contents 0 (contents_of (marked flags xs));
  amount = mq.capacity / 4;
}

-- What `putHandleDropRandom` gives back for an array of marks.
abbrev Halfway : List Bool → Dropped → Cells → MessageQueue → Heap → RandomDrop → Heap → Type 0
Halfway flags d xs mq h o g =
    (out : MessageQueue × List Content) × (o ≡ swept out.0 (reported d mq flags xs))
    × Removed flags xs mq d.contents h out g

-- The marked messages are gone, and reported in order; the others and the new one are the queue.
pub record Swept (flags : List Bool) (d : Dropped) (xs : Cells) (c : Cell) (mq : MessageQueue)
    (h : Heap) (turn : PutTurn) (g : Heap) : Type 0 where
  pub one_each : length flags ≡ length xs
  pub quarter : marks flags ≡ mq.capacity / 4
  pub finished : Finished drop (reported d mq flags xs) (kept flags xs ++ (c ∷ [])) xs mq h turn g
  pub gone : (a : Ptr) → a ∈ marked flags xs → g a ≡ none

module _ {h : Heap} {mq : MessageQueue} {xs : Cells} {c : Cell} (s : Supply) (result : RetCode)
    (d : Dropped) (p : Pending h mq xs c) (full : mq.size ≡ mq.capacity)
    (random : mq.sched_policy ≡ drop_random) where
  -- A turn that finds the queue full under `random` with a capacity below 4 reports no content and
  -- sleeps on `cond_get`, to go on behind the loop: it will not test the size again.
  pub turn-random_small :
      mq.capacity < 4
      → Returns
          (Asleep insert result (record d { amount = 0 }) xs c mq h)
          (put_loop loop_fuel s c.node_at result mq d h)
  unfolding put_random
  turn-random_small small =
      rw
        (
          loop-random h s c.node_at result d mq full 1 random,
          random-small s.indexes s.draws mq d h small,
        )
        (returns (put_handle_block-Asleep insert result (record d { amount = 0 }) p))

  module _ (large : 4 ≤ mq.capacity) where
    -- Without memory for the array: the mutex stays locked, and the node is in no queue.
    pub turn-random_failed :
        s.indexes ≡ false
        → put_loop loop_fuel s c.node_at result mq d h
          ≡ ok (returned err_memory_fail mq (record d { amount = mq.random_drop_count })) h
    unfolding put_random drop_indexes get_random_indexes
    turn-random_failed e =
        loop-random h s c.node_at result d mq full 1 random
        ∙ rw (random-large s.indexes s.draws mq d h large, e)

    module _ (count : mq.random_drop_count ≡ mq.capacity / 4)
        (room : mq.capacity / 4 ≤ length d.contents) where
      module _ {flags : List Bool} (fits : length flags ≡ length xs)
          (quarter : marks flags ≡ mq.capacity / 4) where
        drop_indexes-Halfway : Returns (Halfway flags d xs mq h) (drop_indexes mq d (some flags) h)
        unfolding drop_indexes
        drop_indexes-Halfway =
            Returns.bind
              (drop_marked-Removed d.contents p.queue fits (omega (arith, p.queue.count))
                (omega arith))
              λ out g r. returns (
                out,
                ap₂ (λ a k. swept out.0 (record { contents = a; amount = k })) r.reported count,
                r,
              )

        finish-Swept :
            {out : MessageQueue × List Content} {g : Heap}
            → Removed flags xs mq d.contents h out g
            → Returns
                (Swept flags d xs c mq h)
                (put_finish true c.node_at drop out.0 (reported d mq flags xs) g)
        finish-Swept {out} {g} r =
            let new = Owns-frame p.new λ a i. r.same a (not-mem_of_holds a c xs p.apart i) in
            Returns.mono
              (put_finish-with drop (reported d mq flags xs) r.holds new
                (Apart-kept c flags xs p.apart))
              λ turn g' f. record {
                one_each = fits;
                quarter = quarter;
                finished =
                    Finished-from xs f (λ q l. Left-resized _ _ _ (subst (λ m. Left m q) r.setup l))
                      (λ a o. f.frame a (not-mem-kept a flags xs o) ∙ r.same a o);
                gone = λ a i. f.frame a (marked-not-kept a flags p.queue.chain i) ∙ r.gone a i;
              }

        put_random-Swept :
            Returns
              (Swept flags d xs c mq h)
              ((drop_indexes mq d (some flags) >>= put_random c.node_at result) h)
        unfolding put_random
        put_random-Swept = Returns.bind drop_indexes-Halfway λ o g (out, e, r).
            subst (λ o. Returns (Swept flags d xs c mq h) (put_random c.node_at result o g)) (sym e)
              (finish-Swept r)

      -- A turn that finds the queue full under `random`, with a capacity of at least 4, memory for
      -- the array of indexes, room for a quarter of the capacity in the caller's array, and
      -- results of `rand()` that come to every index: some marks, a quarter of the capacity in
      -- number, are such that the marked messages are reported in order and given back, and the
      -- queue holds the others in order and then the new one.
      pub turn-random :
          s.indexes ≡ true
          → ((i : ℕ) → i < mq.capacity → Appears mq.capacity i s.draws)
          → Returns
              (λ turn g. (flags : List Bool) × Swept flags d xs c mq h turn g)
              (put_loop loop_fuel s c.node_at result mq d h)
      turn-random memory draws =
          let (flags, e, len, quarter) =
            get_random_indexes-marks mq.capacity mq.random_drop_count s.draws h (omega arith)
              draws in
          rw
            (
              loop-random h s c.node_at result d mq full 1 random,
              random-large s.indexes s.draws mq d h large,
              memory,
              e,
            )
            (Returns.mono (put_random-Swept (omega (arith, p.queue.count)) (quarter ∙ count))
              λ turn g w. (flags, w))
