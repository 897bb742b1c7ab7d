-- ===== src/Heap.antt =====
-- The heap of the server (HW3/message.h and the nodes of HW3/message_queue.c): objects at addresses,
-- and the commands that read, write, allocate and free them.
pub mod Cells
pub mod Points
pub mod Release
pub mod Returns
pub mod Ends
pub mod Segments
use operating_system_whw.Common.{
  ℕ, Bool, true, Option, none, some, List, ◌==◌, if◌then◌else◌, ltb, length, set,
}

abbrev pub Ptr : Type 0
Ptr = ℕ

abbrev pub null : Ptr
null = 0

-- `struct timeval`
pub record TimeVal : Type 0 where
  pub tv_sec : ℕ
  pub tv_usec : ℕ

-- `Content`, an `int` that holds a connection's file descriptor: it is only moved and compared
abbrev pub Content : Type 0
Content = ℕ

-- `struct t_message_meta_data`
pub record MetaData : Type 0 where
  pub arrival_time : TimeVal
  pub dispatch_time : TimeVal
  pub thread_id : ℕ
  pub requests_count : ℕ
  pub num_static_requests : ℕ
  pub num_dynamic_requests : ℕ

-- `struct t_message`
pub record Message : Type 0 where
  pub content : Content
  pub meta_data : Ptr

-- `struct t_node`
pub record Node : Type 0 where
  pub next : Ptr
  pub message : Ptr

pub data Object : Type 0 where
  node : Node → Object
  message : Message → Object
  meta_data : MetaData → Object

abbrev pub Heap : Type 0
Heap = Ptr → Option Object

unfoldable pub write : Heap → Ptr → Option Object → Heap
write h p o a = if a == p then o else h a

-- `fault` is undefined behaviour: an access through NULL or through a pointer to no live object of
-- its type, a second `free`, an access outside an array.
pub data Run (A : Type 0) : Type 0 where
  fault out_of_fuel : Run A
  ok : A → Heap → Run A

abbrev pub and_then : {A B : Type 0} → Run A → (A → Heap → Run B) → Run B
and_then fault rest = fault
and_then out_of_fuel rest = out_of_fuel
and_then (ok value mid) rest = rest value mid

abbrev pub Cmd : Type 0 → Type 0
Cmd A = Heap → Run A

abbrev pub pure : {A : Type 0} → A → Cmd A
pure = ok

infixl 5 ◌>>=◌
abbrev pub ◌>>=◌ : {A B : Type 0} → Cmd A → (A → Cmd B) → Cmd B
first >>= rest = λ h. and_then (first h) rest

infixl 5 ◌>>◌
abbrev pub ◌>>◌ : {A B : Type 0} → Cmd A → Cmd B → Cmd B
first >> second = first >>= λ _. second

-- The raw write: `malloc` that returned `p`, with the members set, or an update of the object there.
abbrev pub store : Ptr → Object → Cmd (Unit {0})
store p o h = ok tt (write h p (some o))

unfoldable pub load_node : Ptr → Cmd Node
load_node p h = if p == null then fault else elim (h p) [ some (node n) ↦ ok n h | _ ↦ fault ]

unfoldable pub load_message : Ptr → Cmd Message
load_message p h = if p == null then fault else elim (h p) [ some (message m) ↦ ok m h | _ ↦ fault ]

unfoldable pub load_meta : Ptr → Cmd MetaData
load_meta p h = if p == null then fault else elim (h p) [ some (meta_data d) ↦ ok d h | _ ↦ fault ]

-- `p->next = q`
unfoldable pub set_next : Ptr → Ptr → Cmd (Unit {0})
set_next p q = do n ← load_node p; store p (node (record n { next = q }))

-- `free(p)`, which does nothing at NULL
unfoldable pub free : Ptr → Cmd (Unit {0})
free p h =
    if p == null then ok tt h else elim (h p) [ some _ ↦ ok tt (write h p none) | none ↦ fault ]

-- `array[i] = v` on an array of the caller
unfoldable pub write_at : List Content → ℕ → Content → Cmd (List Content)
write_at array i v h = if ltb i (length array) then ok (set array i v) h else fault
