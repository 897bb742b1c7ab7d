-- ===== src/Server/Accept/Arrive.antt =====
-- A round of the accept loop up to `MQPut`: the meta data and the message.
use operating_system_whw.Common.{◌≡◌, ◌≢◌, ◌∙◌, sym, none, some, List, arith, eq_false}
use operating_system_whw.Heap.{Ptr, null, MetaData, Content, message, meta_data, Heap, write}
use operating_system_whw.Heap.Points.{Points-write_ne, Points-write_self}
use operating_system_whw.Heap.Cells.{Cell, Cells, Seg-write, not-mem_of_none}
use operating_system_whw.MessageQueue.Types.{MessageQueue}
use operating_system_whw.MessageQueue.Holds.{IsQueue}
use operating_system_whw.MessageQueue.Drop.{Dropped}
use operating_system_whw.Heap.{◌>>=◌}
use operating_system_whw.Heap.Points.{load_meta-ok}
use operating_system_whw.Message.{build_message_meta_data, message_create}
use operating_system_whw.MessageQueue.Put.{mq_put}
use operating_system_whw.MessageQueue.Put.Prepare.{IsMessage, Allocates, new_cell}
use operating_system_whw.Server.Accept.{set_arrival, Arrival, accept_after, accept_round}

-- What `malloc` returns in a round: four different addresses that are not in use.
pub record Fresh (h : Heap) (a : Arrival) : Type 0 where
  pub meta_ne : a.meta ≢ null
  pub meta_free : h a.meta ≡ none
  pub message_ne : a.message ≢ null
  pub message_free : h a.message ≡ none
  pub copy_ne : a.put.copy ≢ null
  pub copy_free : h a.put.copy ≡ none
  pub node_ne : a.put.node ≢ null
  pub node_free : h a.put.node ≡ none
  pub meta_message : a.meta ≢ a.message
  pub meta_copy : a.meta ≢ a.put.copy
  pub meta_node : a.meta ≢ a.put.node
  pub message_copy : a.message ≢ a.put.copy
  pub message_node : a.message ≢ a.put.node
  pub copy_node : a.put.copy ≢ a.put.node

-- The meta data of the round, and the heap when it comes to `MQPut`.
abbrev pub arrived : Arrival → MetaData
arrived a = record a.garbage { arrival_time = a.now }

pub with_message : Heap → Arrival → Heap
with_message h a =
    write
      (write (write h a.meta (some (meta_data a.garbage))) a.meta (some (meta_data (arrived a))))
      a.message (some (message (record { content = a.conn_fd; meta_data = a.meta })))

abbrev pub cell_of : Arrival → Cell
cell_of a = new_cell a.put a.conn_fd a.meta (arrived a)

module _ {h : Heap} (a : Arrival) (fresh : Fresh h a) (mq : MessageQueue) where
  pub accept_round-put :
      (contents : List Content)
      → let d : Dropped = record { contents = contents; amount = 0 } in
        accept_round a mq contents h
        ≡ (mq_put a.put (some mq) a.message d >>= accept_after a.message mq d) (with_message h a)
  unfolding accept_round build_message_meta_data set_arrival message_create with_message
  accept_round-put contents =
      let made = Points-write_self h a.meta (meta_data a.garbage) fresh.meta_ne in
      rw (
        eq_false fresh.meta_ne,
        eq_false fresh.meta_ne,
        load_meta-ok made,
        eq_false fresh.message_ne,
      )

  pub with_message-same : (p : Ptr) → p ≢ a.meta → p ≢ a.message → with_message h a p ≡ h p
  unfolding with_message write
  with_message-same p q r = ground arith

  pub with_message-IsMessage : IsMessage (with_message h a) a.message a.conn_fd a.meta (arrived a)
  unfolding with_message
  with_message-IsMessage = record {
    message_live = Points-write_self _ a.message _ fresh.message_ne;
    meta_live = Points-write_ne _ (Points-write_self _ a.meta _ fresh.meta_ne) fresh.meta_message;
  }

  pub with_message-Allocates : Allocates (with_message h a) a.put
  with_message-Allocates = record {
    copy_ne = fresh.copy_ne;
    copy_free =
        with_message-same a.put.copy (λ e. fresh.meta_copy (sym e))
          (λ e. fresh.message_copy (sym e))
        ∙ fresh.copy_free;
    node_ne = fresh.node_ne;
    node_free =
        with_message-same a.put.node (λ e. fresh.meta_node (sym e))
          (λ e. fresh.message_node (sym e))
        ∙ fresh.node_free;
    differ = fresh.copy_node;
  }

  pub with_message-IsQueue : {xs : Cells} → IsQueue h mq xs → IsQueue (with_message h a) mq xs
  unfolding with_message
  with_message-IsQueue is =
      let out = not-mem_of_none a.meta is.chain fresh.meta_free in
      record {
        chain =
            Seg-write a.message _ (Seg-write a.meta _ (Seg-write a.meta _ is.chain out) out)
              (not-mem_of_none a.message is.chain fresh.message_free);
        count = is.count;
        tail_last = is.tail_last;
      }
