-- ===== src/MessageQueue/Tests/Calls.antt =====
-- The theorems on calls that do their work, at queues of four messages.
use operating_system_whw.MessageQueue.Put.Outcome.{Slept, Answered, mq_put-outcome}
use operating_system_whw.MessageQueue.Trip.{get_after, mq_get-put}
use operating_system_whw.MessageQueue.Put.Prepare.{IsMessage}
use operating_system_whw.Heap.{◌>>=◌}
use operating_system_whw.Common.{◌⊎◌, refl, ◌≢◌, true, none, some, [], ◌∷◌, arith}
use operating_system_whw.Heap.{write}
use operating_system_whw.Heap.Returns.{Returns}
use operating_system_whw.MessageQueue.Types.{SchedPolicy, drop_random, MessageQueue, new_queue}
use operating_system_whw.MessageQueue.Holds.{IsQueue}
use operating_system_whw.MessageQueue.Put.{mq_put}
use operating_system_whw.MessageQueue.Put.Prepare.{IsMessage, new_cell}
use operating_system_whw.MessageQueue.Put.Meets.{Refines}
use operating_system_whw.MessageQueue.Put.Refine.{mq_put-Refines}
use operating_system_whw.Common.{◌≡◌, false, List, Bool, length}
use operating_system_whw.Heap.{ok}
use operating_system_whw.MessageQueue.Types.{success, block, drop_head, string_to_policy}
use operating_system_whw.MessageQueue.Holds.{new_queue-IsQueue}
use operating_system_whw.MessageQueue.Random.{get_random_indexes}
use operating_system_whw.MessageQueue.Random.Fill.{get_random_indexes-marks}
use operating_system_whw.MessageQueue.Drop.{drop_marked}
use operating_system_whw.MessageQueue.Drop.Marks.{marks}
use operating_system_whw.MessageQueue.Drop.Removal.{Removed, drop_marked-Removed}
use operating_system_whw.MessageQueue.Put.{mq_put_resume, recheck}
use operating_system_whw.MessageQueue.Put.Prepare.{prepared}
use operating_system_whw.MessageQueue.Put.Wake.{mq_put_resume-Refines}
use operating_system_whw.MessageQueue.Get.{GetTurn, mq_get}
use operating_system_whw.MessageQueue.Get.Take.{Taken, mq_get-Taken}
use operating_system_whw.MessageQueue.Free.{mq_free}
use operating_system_whw.MessageQueue.Free.All.{Without, mq_free-Without}
use operating_system_whw.MessageQueue.Tests.Queues.{
  info, cell, four, heap, full, supply, array, full-IsQueue, full-IsBounded, given, allocates,
  draws_cover, provides, unused_50, new, waiting, waiting-Pending,
}

mq_put-outcome_example :
    let c = new_cell supply 9 41 info in
    Returns
      (λ turn g.
        Slept (full drop_head) four c (prepared heap c) turn g
        ⊎ Answered (full drop_head) four c (prepared heap c) turn g)
      (mq_put supply (some (full drop_head)) 40 array heap)
mq_put-outcome_example =
    mq_put-outcome supply array (full-IsQueue drop_head) (full-IsBounded drop_head (ground arith))
      (omega arith) given refl allocates (provides drop_head)

names_policy : string_to_policy "dh" ≢ SchedPolicy.invalid
unfolding string_to_policy
names_policy = ground arith

mq_put-Refines_example :
    Returns
      (Refines
        (full drop_random)
        four
        (new_cell supply 9 41 info)
        (prepared heap (new_cell supply 9 41 info)))
      (mq_put supply (some (full drop_random)) 40 array heap)
mq_put-Refines_example =
    mq_put-Refines supply array (full-IsQueue drop_random)
      (full-IsBounded drop_random (ground arith)) (omega arith) given refl allocates
      (provides drop_random)

mq_put_resume-Refines_example :
    Returns
      (Refines (full drop_head) four new waiting)
      (mq_put_resume supply recheck 60 success (full drop_head) array waiting)
mq_put_resume-Refines_example =
    mq_put_resume-Refines supply array (waiting-Pending drop_head)
      (full-IsBounded drop_head (ground arith)) (omega arith) (provides drop_head)

-- The second and the last message are marked.
abbrev two_marks : List Bool
two_marks = false ∷ true ∷ false ∷ true ∷ []

drop_marked-Removed_example :
    Returns
      (Removed two_marks four (full drop_random) (0 ∷ 0 ∷ []) heap)
      (drop_marked two_marks (full drop_random) (0 ∷ 0 ∷ []) heap)
unfolding marks
drop_marked-Removed_example =
    drop_marked-Removed (0 ∷ 0 ∷ []) (full-IsQueue drop_random) refl (omega arith) (omega arith)

mq_get-Taken_example :
    Returns
      (Taken 50 (cell 10 1) (cell 13 2 ∷ cell 16 3 ∷ cell 19 4 ∷ []) (full block) heap)
      (mq_get 50 (some (full block)) true heap)
mq_get-Taken_example = mq_get-Taken 50 (full-IsQueue block) (ground arith) unused_50

mq_free-Without_example : Returns (λ _ g. Without four heap g) (mq_free (some (full block)) heap)
mq_free-Without_example = mq_free-Without (full-IsQueue block)

get_random_indexes-marks_example :
    (flags : List Bool) × (get_random_indexes true 4 1 supply.draws heap ≡ ok (some flags) heap)
    × (length flags ≡ 4)
    × (marks flags ≡ 1)
get_random_indexes-marks_example =
    get_random_indexes-marks 4 1 supply.draws heap (omega arith) draws_cover

unused_60 : heap 60 ≡ none
unfolding write
unused_60 = refl

mq_get-put_example :
    Returns
      (λ turn g.
        (q : MessageQueue) × (turn ≡ GetTurn.returned success 60 q)
        × IsQueue g q []
        × IsMessage g 60 9 41 info)
      ((mq_put supply (some (new_queue 4 block)) 40 array >>= get_after 60) heap)
mq_get-put_example =
    mq_get-put supply array 60 (new_queue-IsQueue heap 4 block) (ground arith) given allocates
      (ground arith) unused_60 (ground arith) (ground arith)
