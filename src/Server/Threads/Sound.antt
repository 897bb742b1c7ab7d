-- ===== src/Server/Threads/Sound.antt =====
-- What holds of the threads of HW3/server.c between two turns.
use operating_system_whw.Common.{◌+◌, ◌≤◌, ◌<◌, ◌≡◌, List, [], ◌∷◌}
use operating_system_whw.Heap.{Content, Heap, null}
use operating_system_whw.Heap.Cells.{Cells, ◌∉◌, Owns, Apart}
use operating_system_whw.MessageQueue.Types.{drop_random}
use operating_system_whw.MessageQueue.Holds.{IsQueue, IsBounded}
use operating_system_whw.MessageQueue.Spec.Keeps.{count}
use operating_system_whw.MessageQueue.Drop.Marks.{contents_of}
use operating_system_whw.MessageQueue.Put.{recheck}
use operating_system_whw.Server.Accept.After.{MessageOf}
use operating_system_whw.Server.Threads.{Hand, ready, holding, Threads, wake_put, wake_get}

-- The connection that a sleeping accept loop holds.
abbrev pub held : Hand → List Content
held ready = []
held (holding c p resume d) = c.content ∷ []

-- A sleeping accept loop owns its node and its message, and is to test the size again.
abbrev pub Holds : Heap → Cells → Hand → Type 0
Holds h xs ready = Unit {0}
Holds h xs (holding c p resume d) =
    (resume ≡ recheck) × MessageOf h p c × Owns h null c × Apart c xs × (p ∉ (c ∷ xs))

-- Each connection is in one place.
abbrev pub Accounted : Threads → Cells → List Content → Type 0
Accounted t xs hand =
    (v : Content)
    → count v t.arrived
      ≡ (((count v (contents_of xs) + count v t.handled) + count v t.closed) + count v t.busy)
        + count v hand

-- The queue is in order and within its capacity, each connection that was accepted is in the queue,
-- handled, closed, with a busy worker or in the hand of the accept loop, as often as it was
-- accepted, and the accept loop owns what it holds.
pub record IsSound (t : Threads) : Type 0 where
  pub cells : Cells
  pub holds : IsQueue t.heap t.queue cells
  pub bounded : IsBounded t.queue
  pub positive : 0 < t.queue.capacity
  pub sweeps : t.queue.sched_policy ≡ drop_random → 4 ≤ t.queue.capacity
  pub accounted : Accounted t cells (held t.hand)
  pub owned : Holds t.heap cells t.hand

-- A thread that wakes changes none of this.
pub wake_put-IsSound : {t : Threads} → IsSound t → IsSound (wake_put t)
wake_put-IsSound sound = record {
  cells = sound.cells;
  holds = record {
    chain = sound.holds.chain;
    count = sound.holds.count;
    tail_last = sound.holds.tail_last;
  };
  bounded = record {
    within = sound.bounded.within;
    quarter = sound.bounded.quarter;
    has_policy = sound.bounded.has_policy;
  };
  positive = sound.positive;
  sweeps = sound.sweeps;
  accounted = sound.accounted;
  owned = sound.owned;
}

pub wake_get-IsSound : {t : Threads} → IsSound t → IsSound (wake_get t)
wake_get-IsSound sound = record {
  cells = sound.cells;
  holds = record {
    chain = sound.holds.chain;
    count = sound.holds.count;
    tail_last = sound.holds.tail_last;
  };
  bounded = record {
    within = sound.bounded.within;
    quarter = sound.bounded.quarter;
    has_policy = sound.bounded.has_policy;
  };
  positive = sound.positive;
  sweeps = sound.sweeps;
  accounted = sound.accounted;
  owned = sound.owned;
}
