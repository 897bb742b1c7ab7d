-- ===== src/MessageQueue/Drop.antt =====
-- What `MQPut` of HW3/message_queue.c does at a full queue: `putHandleBlock`, `putHandleDropTail`,
-- `putHandleDropHead` and `putHandleDropRandom`. A function that updates the queue, or the caller's
-- array and count, returns the new value.
pub mod Single
pub mod Marks
pub mod Rest
pub mod Front
pub mod Removal
use operating_system_whw.Common.{
  ℕ, ◌+◌, ◌-◌, Bool, true, false, Option, none, some, List, [], ◌∷◌, ◌==◌, ltb, if◌then◌else◌,
}
use operating_system_whw.Heap.{
  Ptr, null, Content, fault, Cmd, pure, ◌>>=◌, ◌>>◌, load_node, load_message, set_next, free,
  write_at,
}
use operating_system_whw.Message.{message_free}
use operating_system_whw.MessageQueue.Types.{MessageQueue, sleep, unlock}
use operating_system_whw.MessageQueue.Random.{get_random_indexes}

-- `*dropped` and `*droppedAmount`
pub record Dropped : Type 0 where
  pub contents : List Content
  pub amount : ℕ

-- `free(p->message->metaData); MessageFree(p->message); free(p);`
unfoldable pub release_node : Ptr → Cmd (Unit {0})
release_node p = do
  n ← load_node p
  m ← load_message n.message
  free m.meta_data
  message_free n.message
  free p

-- `pthread_cond_wait` as far as it sleeps: the mutex is free until the thread goes on.
unfoldable pub put_handle_block : MessageQueue → MessageQueue
put_handle_block mq = unlock (record mq { cond_get = sleep mq.cond_get })

unfoldable pub put_handle_drop_tail : Dropped → (new_node : Ptr) → Cmd Dropped
put_handle_drop_tail d new_node = do
  n ← load_node new_node
  m ← load_message n.message
  contents ← write_at d.contents 0 m.content
  release_node new_node
  pure (record { contents = contents; amount = 1 })

unfoldable pub put_handle_drop_head : MessageQueue → Dropped → Cmd (MessageQueue × Dropped)
put_handle_drop_head mq d = do
  n ← load_node mq.head
  m ← load_message n.message
  contents ← write_at d.contents 0 m.content
  release_node mq.head
  pure (
    record mq {
      head = n.next;
      size = mq.size - 1;
      tail = if mq.size - 1 == 0 then n.next else mq.tail;
    },
    record { contents = contents; amount = 1 },
  )

-- The variables of the two loops of `putHandleDropRandom`.
pub record Sweep : Type 0 where
  pub queue : MessageQueue
  pub contents : List Content
  pub dropped_index : ℕ
  pub iterator : Ptr

-- The first loop. The list is the array from `droppedIndex` on; what is left of it is returned.
unfoldable pub drop_front : List Bool → Sweep → Cmd (List Bool × Sweep)
drop_front [] s = λ _. fault
drop_front (false ∷ flags) s = pure (false ∷ flags, s)
drop_front (true ∷ flags) s = do
  n ← load_node s.queue.head
  m ← load_message n.message
  contents ← write_at s.contents s.dropped_index m.content
  it ← load_node s.iterator
  release_node s.queue.head
  drop_front flags (record {
    queue = record s.queue { head = n.next; size = s.queue.size - 1 };
    contents = contents;
    dropped_index = s.dropped_index + 1;
    iterator = it.next;
  })

-- The second loop. The list is the array from `i` on; `prev` at the end is returned.
unfoldable pub drop_rest : List Bool → (prev : Ptr) → Sweep → Cmd (Ptr × Sweep)
drop_rest [] prev s = pure (prev, s)
drop_rest (true ∷ flags) prev s = do
  n ← load_node s.iterator
  m ← load_message n.message
  contents ← write_at s.contents s.dropped_index m.content
  set_next prev n.next
  release_node s.iterator
  drop_rest flags prev (record {
    queue = record s.queue { size = s.queue.size - 1 };
    contents = contents;
    dropped_index = s.dropped_index + 1;
    iterator = n.next;
  })
drop_rest (false ∷ flags) prev s = do
  n ← load_node s.iterator
  drop_rest flags s.iterator (record s { iterator = n.next })

-- The array from `droppedIndex + 1` on.
abbrev pub after : List Bool → List Bool
after [] = []
after (_ ∷ flags) = flags

-- `if (prev->next == NULL) messageQueue->tail = prev;`
unfoldable pub update_tail : Ptr × Sweep → Cmd (MessageQueue × List Content)
update_tail (prev, s) = do
  last ← load_node prev
  pure (if last.next == null then record s.queue { tail = prev } else s.queue, s.contents)

-- What follows the first loop: the step to the next node, the second loop and the update of `tail`.
unfoldable pub drop_behind : (left : List Bool) → Sweep → Cmd (MessageQueue × List Content)
drop_behind left s = do
  n ← load_node s.iterator
  drop_rest (after left) s.iterator (record s { iterator = n.next }) >>= update_tail

-- Both loops, for a given array.
unfoldable pub drop_marked :
    List Bool → MessageQueue → List Content → Cmd (MessageQueue × List Content)
drop_marked flags mq contents = do
  (left, s) ←
      drop_front flags
        (record { queue = mq; contents = contents; dropped_index = 0; iterator = mq.head })
  drop_behind left s

-- `blocked`: the thread sleeps. `failed`: `*result` is MQ_ERR_MEMORY_FAIL. `swept`: it is MQ_DROP.
pub data RandomDrop : Type 0 where
  blocked failed swept : MessageQueue → Dropped → RandomDrop

-- What is done with the array of indexes, `none` if it is NULL.
unfoldable pub drop_indexes : MessageQueue → Dropped → Option (List Bool) → Cmd RandomDrop
drop_indexes mq d none = pure (failed mq (record d { amount = mq.random_drop_count }))
drop_indexes mq d (some flags) = do
  (mq', contents) ← drop_marked flags mq d.contents
  pure (swept mq' (record { contents = contents; amount = mq.random_drop_count }))

unfoldable pub put_handle_drop_random :
    (allocated : Bool) → List ℕ → MessageQueue → Dropped → Cmd RandomDrop
put_handle_drop_random allocated draws mq d =
    if ltb mq.capacity 4
    then pure (blocked (put_handle_block mq) (record d { amount = 0 }))
    else get_random_indexes allocated mq.capacity mq.random_drop_count draws >>= drop_indexes mq d
