-- ===== src/MessageQueue/Put/Prepare.antt =====
-- The start of `MQPut`, before the mutex: the copy of the message and the node for it.
use operating_system_whw.Common.{◌≡◌, ◌≢◌, none, some, arith, eq_false}
use operating_system_whw.Heap.{
  Ptr, null, Content, MetaData, node, message, meta_data, Heap, write, ok,
}
use operating_system_whw.Heap.Points.{Points, load_message-ok, Points-write_ne, Points-write_self}
use operating_system_whw.Heap.Cells.{Cell, Cells, ◌∉◌, Apart, Owns, Seg-write, not-mem_of_none}
use operating_system_whw.Message.{message_copy}
use operating_system_whw.MessageQueue.Holds.{IsQueue}
use operating_system_whw.MessageQueue.Types.{MessageQueue}
use operating_system_whw.MessageQueue.Put.{Supply, put_prepare}

-- The caller's message at `at`, with live meta data.
pub record IsMessage (h : Heap) (at : Ptr) (content : Content) (meta : Ptr) (info : MetaData)
    : Type 0 where
  pub message_live : Points h at (message (record { content = content; meta_data = meta }))
  pub meta_live : Points h meta (meta_data info)

-- `malloc` gives two different addresses that are not in use.
pub record Allocates (h : Heap) (s : Supply) : Type 0 where
  pub copy_ne : s.copy ≢ null
  pub copy_free : h s.copy ≡ none
  pub node_ne : s.node ≢ null
  pub node_free : h s.node ≡ none
  pub differ : s.copy ≢ s.node

-- The cell that the call makes of the message.
abbrev pub new_cell : Supply → Content → Ptr → MetaData → Cell
new_cell s content meta info = record {
  node_at = s.node;
  message_at = s.copy;
  meta_at = meta;
  content = content;
  info = info;
}

-- The heap with that cell in it.
unfoldable pub prepared : Heap → Cell → Heap
prepared h d =
    write
      (write h d.message_at
        (some (message (record { content = d.content; meta_data = d.meta_at }))))
      d.node_at (some (node (record { next = null; message = d.message_at })))

pub message_copy-ok :
    {h : Heap} {at meta : Ptr} {content : Content} (fresh : Ptr)
    → Points h at (message (record { content = content; meta_data = meta }))
    → fresh ≢ null
    → message_copy fresh at h
      ≡ ok fresh (write h fresh (some (message (record { content = content; meta_data = meta }))))
unfolding message_copy
message_copy-ok {h} {at} fresh live ne =
    rw (eq_false live.ne_null, load_message-ok live, eq_false ne, eq_false ne)

pub message_copy-failed :
    {h : Heap} {at meta : Ptr} {content : Content}
    → Points h at (message (record { content = content; meta_data = meta }))
    → message_copy null at h ≡ ok null h
unfolding message_copy
message_copy-failed {h} {at} live = rw (eq_false live.ne_null, load_message-ok live)

module _ {h : Heap} {at meta : Ptr} {content : Content} {info : MetaData} (s : Supply)
    (given : IsMessage h at content meta info) where
  -- Without memory for the copy nothing changes.
  pub prepare-no_copy : s.copy ≡ null → put_prepare s at h ≡ ok null h
  unfolding put_prepare
  prepare-no_copy e = rw (e, message_copy-failed given.message_live)

  module _ (mem : Allocates h s) where
    abbrev d : Cell
    d = new_cell s content meta info

    pub prepare-ok : put_prepare s at h ≡ ok s.node (prepared h d)
    unfolding put_prepare prepared
    prepare-ok = rw (
      message_copy-ok s.copy given.message_live mem.copy_ne,
      eq_false mem.copy_ne,
      eq_false mem.node_ne,
    )

    pub prepared-Owns : Owns (prepared h d) null d
    unfolding prepared
    prepared-Owns = record {
      node_live = Points-write_self _ s.node _ mem.node_ne;
      message_live = Points-write_ne _ (Points-write_self h s.copy _ mem.copy_ne) mem.differ;
      meta_live =
          Points-write_ne _
            (Points-write_ne _ given.meta_live
              (ground (arith, mem.copy_free, given.meta_live.holds)))
            (ground (arith, mem.node_free, given.meta_live.holds));
    }

    pub prepared-same : (a : Ptr) → a ≢ s.node → a ≢ s.copy → prepared h d a ≡ h a
    unfolding prepared write
    prepared-same a p q = ground arith

    pub prepared-Apart : {mq : MessageQueue} {xs : Cells} → IsQueue h mq xs → meta ∉ xs → Apart d xs
    prepared-Apart is out = (
      not-mem_of_none s.node is.chain mem.node_free,
      not-mem_of_none s.copy is.chain mem.copy_free,
      out,
    )

    pub prepared-IsQueue :
        {mq : MessageQueue} {xs : Cells} → IsQueue h mq xs → IsQueue (prepared h d) mq xs
    unfolding prepared
    prepared-IsQueue {xs} is = record {
      chain =
          Seg-write s.node _
            (Seg-write s.copy _ is.chain (not-mem_of_none s.copy is.chain mem.copy_free))
            (not-mem_of_none s.node is.chain mem.node_free);
      count = is.count;
      tail_last = is.tail_last;
    }
