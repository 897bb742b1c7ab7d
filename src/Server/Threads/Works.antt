-- ===== src/Server/Threads/Works.antt =====
-- The turns of the workers of HW3/server.c among those of the accept loop.
use mathlib.Core.Path.{subst}
use operating_system_whw.Common.{
  ℕ, ◌⊎◌, inl, inr, ◌/◌, length, false, ◌≡◌, ◌≢◌, refl, sym, ap, ◌∙◌, [], ◌∷◌, none, arith, true,
}
use operating_system_whw.Heap.{Ptr, TimeVal, Content, Heap, ok, null}
use operating_system_whw.Heap.Returns.{Returns, returns}
use operating_system_whw.Heap.Cells.{Cell, Cells, ◌∉◌, Owns, Owns-frame, Apart-tail, holds}
use operating_system_whw.MessageQueue.Types.{MessageQueue, sleep}
use operating_system_whw.MessageQueue.Holds.{IsQueue}
use operating_system_whw.MessageQueue.Spec.Keeps.{count}
use operating_system_whw.MessageQueue.Drop.Marks.{contents_of}
use operating_system_whw.MessageQueue.Get.Errors.{mq_get-empty}
use operating_system_whw.Request.{Request}
use operating_system_whw.Server.Worker.{Worker, WorkerTurn, worker_round, worker_after}
use operating_system_whw.Server.Worker.Serve.{Served, Held, worker_round-either}
use operating_system_whw.Server.Threads.{Hand, ready, holding, Threads, serve}
use operating_system_whw.Server.Threads.Sound.{Holds, IsSound}
use operating_system_whw.Server.Threads.Accepts.{Returns-ok}

used :
    {h : Heap} {next fresh : Ptr} {c : Cell}
    → Owns h next c
    → h fresh ≡ none
    → (a : Ptr) → holds a c ≡ true
    → a ≢ fresh
used o unused a i =
    ground (arith, o.node_live.holds, o.message_live.holds, o.meta_live.holds, unused, i)

-- The accept loop sleeps through changes at the first cell and at an unused address.
Holds-frame :
    {h g : Heap} (first : Cell) (rest : Cells) (fresh : Ptr) (hand : Hand)
    → ((a : Ptr) → a ∉ (first ∷ []) → a ≢ fresh → g a ≡ h a)
    → h fresh ≡ none
    → Holds h (first ∷ rest) hand
    → Holds g rest hand
Holds-frame first rest fresh ready frame unused owned = _
Holds-frame {h} {g} first rest fresh (holding c p resume d) frame unused owned =
    let (again, live, new, apart, out) = owned in
    let p_used : p ≢ fresh = ground (arith, live.holds, unused) in
    let same : (a : Ptr) → holds a c ≡ true → a ≢ fresh → g a ≡ h a =
      λ a i ne. frame a (ground (arith, apart, i)) ne in
    (
      again,
      record { ne_null = live.ne_null; holds = frame p (ground (arith, out)) p_used ∙ live.holds },
      Owns-frame new (λ a i. same a i (used new unused a i)),
      Apart-tail c first rest apart,
      ground (arith, out),
    )

-- A worker that takes the first message.
serves-IsSound :
    (t : Threads) (w : Worker) (now : TimeVal) (requests : Content → Request) (fresh : Ptr)
    (first : Cell) (rest : Cells) (turn : WorkerTurn) (g : Heap) (sound : IsSound t)
    → sound.cells ≡ first ∷ rest
    → t.heap fresh ≡ none
    → Served w now requests fresh first rest t.queue t.heap turn g
    → IsSound (serve turn g t)
unfolding serve
serves-IsSound t w now requests fresh first rest turn g sound e unused s = rw s.answer (record {
  cells = rest;
  holds = s.rest;
  bounded = record {
    within = omega (
      arith,
      s.rest.count,
      s.capacity,
      sound.bounded.within,
      sound.holds.count,
      ap (λ (ys : Cells). length ys) e,
    );
    quarter = s.quarter ∙ sound.bounded.quarter ∙ ap (λ n. n / 4) (sym s.capacity);
    has_policy = λ invalid. sound.bounded.has_policy (sym s.policy ∙ invalid);
  };
  positive = omega (arith, s.capacity, sound.positive);
  sweeps = λ random. omega (arith, sound.sweeps (sym s.policy ∙ random), s.capacity);
  accounted =
      λ v. omega (arith, sound.accounted v, ap (λ (ys : Cells). count v (contents_of ys)) e);
  owned =
      Holds-frame first rest fresh t.hand s.frame unused
        (subst (λ (ys : Cells). Holds t.heap ys t.hand) e sound.owned);
})

-- A worker that takes the first message and is busy with it.
holds-IsSound :
    (t : Threads) (fresh : Ptr) (first : Cell) (rest : Cells) (turn : WorkerTurn) (g : Heap)
    (sound : IsSound t)
    → sound.cells ≡ first ∷ rest
    → t.heap fresh ≡ none
    → Held fresh first rest t.queue t.heap turn g
    → IsSound (serve turn g t)
unfolding serve
holds-IsSound t fresh first rest turn g sound e unused s = rw s.answer (record {
  cells = rest;
  holds = s.rest;
  bounded = record {
    within = omega (
      arith,
      s.rest.count,
      s.capacity,
      sound.bounded.within,
      sound.holds.count,
      ap (λ (ys : Cells). length ys) e,
    );
    quarter = s.quarter ∙ sound.bounded.quarter ∙ ap (λ n. n / 4) (sym s.capacity);
    has_policy = λ invalid. sound.bounded.has_policy (sym s.policy ∙ invalid);
  };
  positive = omega (arith, s.capacity, sound.positive);
  sweeps = λ random. omega (arith, sound.sweeps (sym s.policy ∙ random), s.capacity);
  accounted =
      λ v. omega (arith, sound.accounted v, ap (λ (ys : Cells). count v (contents_of ys)) e);
  owned =
      Holds-frame first rest fresh t.hand s.frame unused
        (subst (λ (ys : Cells). Holds t.heap ys t.hand) e sound.owned);
})

-- A round at an empty queue.
Waited : MessageQueue → Heap → WorkerTurn → Heap → Type 0
Waited mq h turn g =
    (turn ≡ WorkerTurn.asleep (record mq { locked = false; cond_put = sleep mq.cond_put }))
    × (g ≡ h)

worker_round-empty :
    {h : Heap} {mq : MessageQueue} (fuel : ℕ) (w : Worker) (now : TimeVal)
    (requests : Content → Request) (fresh : Ptr)
    → IsQueue h mq []
    → Returns (Waited mq h) (worker_round fuel w now requests fresh mq h)
unfolding worker_round worker_after Waited
worker_round-empty fuel w now requests fresh is = rw (mq_get-empty fresh is) (returns (refl, refl))

-- A worker at an empty queue sleeps, and nothing else changes.
waits-IsSound :
    (t : Threads) (turn : WorkerTurn) (g : Heap)
    → IsSound t
    → Waited t.queue t.heap turn g
    → IsSound (serve turn g t)
unfolding serve Waited
waits-IsSound t turn g sound (e, same) = rw e (record {
  cells = sound.cells;
  holds =
      subst
        (λ (k : Heap).
          IsQueue k (record t.queue { locked = false; cond_put = sleep t.queue.cond_put })
            sound.cells)
        (sym same)
        (record {
          chain = sound.holds.chain;
          count = sound.holds.count;
          tail_last = sound.holds.tail_last;
        });
  bounded = record {
    within = sound.bounded.within;
    quarter = sound.bounded.quarter;
    has_policy = sound.bounded.has_policy;
  };
  positive = sound.positive;
  sweeps = sound.sweeps;
  accounted = sound.accounted;
  owned = subst (λ (k : Heap). Holds k sound.cells t.hand) (sym same) sound.owned;
})

-- By the messages in the queue.
works-by_cells :
    (t : Threads) (fuel : ℕ) (w : Worker) (now : TimeVal) (requests : Content → Request)
    (fresh : Ptr) (turn : WorkerTurn) (g : Heap) (sound : IsSound t) (xs : Cells)
    → sound.cells ≡ xs
    → fresh ≢ null
    → t.heap fresh ≡ none
    → worker_round fuel w now requests fresh t.queue t.heap ≡ ok turn g
    → IsSound (serve turn g t)
works-by_cells t fuel w now requests fresh turn g sound [] e ne unused run =
    let is = subst (IsQueue t.heap t.queue) e sound.holds in
    waits-IsSound t turn g sound (
      Returns-ok (
        subst (Returns (Waited t.queue t.heap)) run
          (worker_round-empty fuel w now requests fresh is)))
works-by_cells t fuel w now requests fresh turn g sound (first ∷ rest) e ne unused run =
    let is = subst (IsQueue t.heap t.queue) e sound.holds in
    elim (Returns-ok (
      subst
        (Returns (λ turn g.
          Served w now requests fresh first rest t.queue t.heap turn g
          ⊎ Held fresh first rest t.queue t.heap turn g))
        run (worker_round-either fuel w now requests fresh is unused ne))) [
          | inl s ↦ serves-IsSound t w now requests fresh first rest turn g sound e unused s
          | inr s ↦ holds-IsSound t fresh first rest turn g sound e unused s
        ]

-- A turn of a worker.
pub works-IsSound :
    (t : Threads) (fuel : ℕ) (w : Worker) (now : TimeVal) (requests : Content → Request)
    (fresh : Ptr) (turn : WorkerTurn) (g : Heap)
    → IsSound t
    → fresh ≢ null
    → t.heap fresh ≡ none
    → worker_round fuel w now requests fresh t.queue t.heap ≡ ok turn g
    → IsSound (serve turn g t)
works-IsSound t fuel w now requests fresh turn g sound ne unused run =
    works-by_cells t fuel w now requests fresh turn g sound sound.cells refl ne unused run
