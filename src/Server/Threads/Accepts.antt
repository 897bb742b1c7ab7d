-- ===== src/Server/Threads/Accepts.antt =====
-- The turns of the accept loop of HW3/server.c among those of the workers.
use mathlib.Core.Path.{subst}
use operating_system_whw.Common.{◌≤◌, ◌<◌, ◌≡◌, sym, ap, ◌∙◌, ◌⊎◌, inl, inr, List, [], ◌∷◌, arith}
use operating_system_whw.Heap.{Ptr, Content, Heap, ok}
use operating_system_whw.Heap.Returns.{Returns, returns}
use operating_system_whw.Heap.Cells.{Cell, Cells, ◌∉◌, not-mem_of_none}
use operating_system_whw.MessageQueue.Types.{success, drop_random}
use operating_system_whw.MessageQueue.Spec.Keeps.{count, count-append}
use operating_system_whw.MessageQueue.Drop.{Dropped}
use operating_system_whw.MessageQueue.Put.{Supply, Resume, recheck, waits}
use operating_system_whw.MessageQueue.Put.Meets.{Provides}
use operating_system_whw.MessageQueue.Put.Policies.{Pending}
use operating_system_whw.Server.Accept.{Arrival, AcceptTurn, asleep, accept_round, accept_wake}
use operating_system_whw.Server.Accept.After.{Handled, Sleeping}
use operating_system_whw.Server.Accept.Arrive.{Fresh, cell_of}
use operating_system_whw.Server.Accept.Round.{accept_round-Handled, accept_wake-Handled}
use operating_system_whw.Server.Threads.{Hand, ready, holding, Threads, settle}
use operating_system_whw.Server.Threads.Sound.{held, Holds, Accounted, IsSound}

-- A run that has ended ended so.
pub Returns-ok :
    {A : Type 0} {post : A → Heap → Type 0} {value : A} {final : Heap}
    → Returns post (ok value final)
    → post value final
Returns-ok (returns p) = p

module _ (t : Threads) {xs : Cells} {c : Cell} {p : Ptr} {turn : AcceptTurn} {g : Heap}
    (positive : 0 < t.queue.capacity)
    (sweeps : t.queue.sched_policy ≡ drop_random → 4 ≤ t.queue.capacity)
    (total : Accounted t xs (c.content ∷ [])) where
  settle-Handled : Handled t.queue xs c p turn g → IsSound (settle c turn g t)
  unfolding settle
  settle-Handled hd = rw hd.answer (record {
    cells = hd.cells;
    holds = hd.holds;
    bounded = hd.bounded;
    positive = omega (arith, hd.capacity);
    sweeps = λ random. omega (arith, sweeps (sym hd.policy ∙ random), hd.capacity);
    accounted = λ v. omega (arith, total v, hd.conserved v, count-append v hd.closed t.closed);
    owned = _;
  })

  settle-Sleeping : p ∉ (c ∷ xs) → Sleeping t.queue xs c p turn g → IsSound (settle c turn g t)
  unfolding settle
  settle-Sleeping out sl =
      let asleep_at : turn
          ≡ asleep p (waits sl.slept.resume c.node_at success sl.slept.queue sl.slept.out) =
        sl.answer ∙ ap (asleep p) sl.slept.answer in
      let again : sl.slept.resume ≡ recheck = elim sl.slept.tested [
        | inl e ↦ e
        | inr (random, small) ↦ absurd (omega (arith, sweeps random, small))
      ] in
      rw asleep_at (record {
        cells = xs;
        holds = sl.slept.pending.queue;
        bounded = sl.slept.bounded;
        positive = omega (arith, sl.slept.capacity);
        sweeps = λ random. omega (arith, sweeps (sym sl.slept.policy ∙ random), sl.slept.capacity);
        accounted = total;
        owned = (again, sl.live, sl.slept.pending.new, sl.slept.pending.apart, out);
      })

  pub settle-IsSound :
      p ∉ (c ∷ xs)
      → Sleeping t.queue xs c p turn g ⊎ Handled t.queue xs c p turn g
      → IsSound (settle c turn g t)
  settle-IsSound out (inl sl) = settle-Sleeping out sl
  settle-IsSound out (inr hd) = settle-Handled hd

-- A new connection.
pub accepts-IsSound :
    (t : Threads) (a : Arrival) (contents : List Content) (turn : AcceptTurn) (g : Heap)
    → IsSound t
    → t.hand ≡ ready
    → Fresh t.heap a
    → Provides t.queue a.put (record { contents = contents; amount = 0 })
    → accept_round a t.queue contents t.heap ≡ ok turn g
    → IsSound (settle (cell_of a) turn g (record t { arrived = a.conn_fd ∷ t.arrived }))
accepts-IsSound t a contents turn g sound free fresh given run =
    let c : Cell = cell_of a in
    let out : a.message ∉ (c ∷ sound.cells) = ground (
      arith,
      not-mem_of_none a.message sound.holds.chain fresh.message_free,
      fresh.message_node,
      fresh.message_copy,
      fresh.meta_message,
    ) in
    let done =
      accept_round-Handled a fresh t.queue contents sound.holds sound.bounded sound.positive
        given in
    settle-IsSound (record t { arrived = a.conn_fd ∷ t.arrived }) sound.positive sound.sweeps
      (λ v. omega (arith, sound.accounted v, ap (λ (k : Hand). count v (held k)) free)) out
      (Returns-ok (subst (Returns _) run done))

-- A sleep that ends: the loop sleeps again, or the connection in its hand is settled.
module _ (t : Threads) (s : Supply) (c : Cell) (p : Ptr) (resume : Resume) (d : Dropped)
    (turn : AcceptTurn) (g : Heap) (sound : IsSound t) (hand : t.hand ≡ holding c p resume d)
    (given : Provides t.queue s d)
    (run : accept_wake s p resume c.node_at success t.queue d t.heap ≡ ok turn g) where
  abbrev keeps : Holds t.heap sound.cells (holding c p resume d)
  keeps = subst (Holds t.heap sound.cells) hand sound.owned

  pub wakes-Handled :
      Sleeping t.queue sound.cells c p turn g ⊎ Handled t.queue sound.cells c p turn g
  wakes-Handled =
      let (again, live, new, apart, out) = keeps in
      let pending : Pending t.heap t.queue sound.cells c = record {
        queue = sound.holds;
        new = new;
        apart = apart;
      } in
      let done =
        accept_wake-Handled sound.cells c p live out t.queue d s pending sound.bounded
          sound.positive given in
      let run' : accept_wake s p recheck c.node_at success t.queue d t.heap ≡ ok turn g =
        ap (λ (r : Resume). accept_wake s p r c.node_at success t.queue d t.heap) (sym again)
        ∙ run in
      Returns-ok (subst (Returns _) run' done)

  pub wakes-IsSound : IsSound (settle c turn g t)
  wakes-IsSound =
      let (again, live, new, apart, out) = keeps in
      settle-IsSound t sound.positive sound.sweeps
        (λ v. omega (arith, sound.accounted v, ap (λ (k : Hand). count v (held k)) hand)) out
        wakes-Handled
