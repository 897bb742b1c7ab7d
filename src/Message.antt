-- ===== src/Message.antt =====
-- HW3/message.c. Each `malloc` is an argument, `fresh`: the address that it returns, NULL if it
-- fails.
use operating_system_whw.Common.{◌==◌, if◌then◌else◌}
use operating_system_whw.Heap.{
  Ptr, null, Content, MetaData, message, meta_data, Cmd, pure, ◌>>=◌, ◌>>◌, store, load_message,
  free,
}

unfoldable pub message_create : (fresh : Ptr) → Content → Ptr → Cmd Ptr
message_create fresh content meta =
    if fresh == null
    then pure null
    else do store fresh (message (record { content = content; meta_data = meta })); pure fresh

unfoldable pub message_free : Ptr → Cmd (Unit {0})
message_free p = if p == null then pure tt else free p

-- The copy has the same meta data, by its address.
unfoldable pub message_copy : (fresh : Ptr) → Ptr → Cmd Ptr
unfolding message_create
message_copy fresh other = if other == null then pure null else do
  m ← load_message other
  copy ← message_create fresh m.content m.meta_data
  if copy == null then pure null else pure copy

-- `garbage` is what the new memory holds: the members are not set.
unfoldable pub build_message_meta_data : (fresh : Ptr) → (garbage : MetaData) → Cmd Ptr
build_message_meta_data fresh garbage =
    if fresh == null then pure null else do store fresh (meta_data garbage); pure fresh
