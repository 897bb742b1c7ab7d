-- ===== src/MessageQueue/Spec.antt =====
-- What HW3/message_queue.h promises of `MQPut`, over the list of queued messages with no heap and
-- no pointers.
pub mod Keeps
pub mod Tested
use operating_system_whw.Common.{
  ℕ, Bool, List, [], ◌∷◌, ◌++◌, map, ◌==◌, ltb, if◌then◌else◌, length,
}
use operating_system_whw.Heap.{Content, MetaData}
use operating_system_whw.Heap.Cells.{Cells}
use operating_system_whw.MessageQueue.Types.{
  RetCode, success, drop, SchedPolicy, invalid, block, drop_tail, drop_head, drop_random,
}
use operating_system_whw.MessageQueue.Drop.Marks.{marked, kept}
use operating_system_whw.MessageQueue.Put.{Resume, recheck, insert}

-- A message: its content and its meta data.
abbrev pub Entry : Type 0
Entry = Content × MetaData

abbrev pub entries : Cells → List Entry
entries [] = []
entries (c ∷ xs) = (c.content, c.info) ∷ entries xs

pub data Answer : Type 0 where
  -- the caller sleeps
  sleeps : Resume → Answer
  -- the code, the messages then in the queue, and the contents that were dropped
  answers : RetCode → List Entry → List Content → Answer

module _ (capacity : ℕ) (marks : List Bool) (x : Entry) where
  -- At a full queue. `marks` says which messages `random` drops.
  unfoldable pub put_full : SchedPolicy → List Entry → Answer
  put_full invalid xs = sleeps recheck
  put_full block xs = sleeps recheck
  put_full drop_tail xs = answers drop xs (x.0 ∷ [])
  put_full drop_head [] = answers drop (x ∷ []) []
  put_full drop_head (y ∷ xs) = answers drop (xs ++ (x ∷ [])) (y.0 ∷ [])
  put_full drop_random xs =
      if ltb capacity 4
      then sleeps insert
      else answers drop (kept marks xs ++ (x ∷ [])) (map (λ y. y.0) (marked marks xs))

  unfoldable pub put : SchedPolicy → List Entry → Answer
  put policy xs =
      if length xs == capacity then put_full policy xs else answers success (xs ++ (x ∷ [])) []
