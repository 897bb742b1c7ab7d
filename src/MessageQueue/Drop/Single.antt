-- ===== src/MessageQueue/Drop/Single.antt =====
-- `putHandleDropTail` and `putHandleDropHead`, which drop one message.
use operating_system_whw.Common.{◌<◌, ◌≡◌, ◌≢◌, none, ◌∷◌, ap, arith, length, set}
use mathlib.Core.Path.{fun_ext}
use operating_system_whw.Heap.{Ptr, null, node, message, Heap, write, ok, free}
use operating_system_whw.Heap.Points.{
  Points, load_node-ok, load_message-ok, free-ok, Points-write_ne, write_at-ok,
}
use operating_system_whw.Heap.Cells.{Cell, Cells, Owns, Owns-distinct}
use operating_system_whw.Heap.Release.{without, Seg-without}
use operating_system_whw.Message.{message_free}
use operating_system_whw.MessageQueue.Types.{MessageQueue}
use operating_system_whw.MessageQueue.Holds.{IsQueue, Seg-Uncons, behead, behead-IsQueue}
use operating_system_whw.MessageQueue.Drop.{
  Dropped, release_node, put_handle_drop_tail, put_handle_drop_head,
}

pub message_free-ok : (p : Ptr) (h : Heap) → p ≢ null → message_free p h ≡ free p h
unfolding message_free
message_free-ok p h ne = ground arith

module _ {h : Heap} {next : Ptr} {c : Cell} (o : Owns h next c) where
  abbrev less_meta : Heap
  less_meta = write h c.meta_at none

  message_left :
      Points less_meta c.message_at
        (message (record { content = c.content; meta_data = c.meta_at }))
  message_left = Points-write_ne none o.message_live (ground (arith, Owns-distinct o))

  node_left :
      Points
        (write less_meta c.message_at none)
        c.node_at
        (node (record { next = next; message = c.message_at }))
  node_left =
      Points-write_ne none (Points-write_ne none o.node_live (ground (arith, Owns-distinct o)))
        (ground (arith, Owns-distinct o))

  three_writes : write (write less_meta c.message_at none) c.node_at none ≡ without c h
  unfolding write without
  three_writes = fun_ext (λ a. ground arith)

  -- The three calls of `free` succeed, and give back the cell's objects and no others.
  pub release_node-without : release_node c.node_at h ≡ ok tt (without c h)
  unfolding release_node
  release_node-without =
      rw
        (
          load_node-ok o.node_live,
          load_message-ok o.message_live,
          free-ok o.meta_live,
          message_free-ok c.message_at less_meta o.message_live.ne_null,
          free-ok message_left,
          free-ok node_left,
        )
        (ap (ok tt) three_writes)

module _ {h : Heap} {c : Cell} (d : Dropped) (room : 0 < length d.contents) where
  -- The new message is dropped: its content is reported, and its objects are given back.
  pub put_handle_drop_tail-without :
      {next : Ptr}
      → Owns h next c
      → put_handle_drop_tail d c.node_at h
        ≡ ok (record { contents = set d.contents 0 c.content; amount = 1 }) (without c h)
  unfolding put_handle_drop_tail
  put_handle_drop_tail-without o = rw (
    load_node-ok o.node_live,
    load_message-ok o.message_live,
    write_at-ok d.contents 0 c.content h room,
    release_node-without o,
  )

  -- The first message is dropped: its content is reported, its objects are given back, and the
  -- queue holds the others.
  pub put_handle_drop_head-behead :
      {mq : MessageQueue} {xs : Cells}
      → IsQueue h mq (c ∷ xs)
      → (q : Ptr) × (put_handle_drop_head mq d h
          ≡ ok
              (behead mq q, record { contents = set d.contents 0 c.content; amount = 1 })
              (without c h))
        × IsQueue (without c h) (behead mq q) xs
  unfolding put_handle_drop_head
  put_handle_drop_head-behead {mq} {xs} is =
      let u = Seg-Uncons is.chain in
      (
        u.next,
        rw (
          u.head_at,
          load_node-ok u.owned.node_live,
          load_message-ok u.owned.message_live,
          write_at-ok d.contents 0 c.content h room,
          release_node-without u.owned,
        ),
        behead-IsQueue is (Seg-without c xs u.rest u.apart),
      )
