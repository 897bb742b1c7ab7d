-- ===== src/Heap/Points.antt =====
-- What the commands do at an address that holds an object of their type.
use operating_system_whw.Common.{
  ℕ, ◌<◌, ◌≡◌, refl, ◌≢◌, Option, none, some, List, arith, length, set,
}
use operating_system_whw.Heap.{
  Ptr, null, Content, MetaData, Message, Node, Object, node, message, meta_data, Heap, write, ok,
  load_node, load_message, load_meta, set_next, free, write_at,
}

-- `p` is the address of the live object `o`.
pub record Points (h : Heap) (p : Ptr) (o : Object) : Type 0 where
  pub ne_null : p ≢ null
  pub holds : h p ≡ some o

module _ {h : Heap} {p : Ptr} where
  pub load_node-ok : {n : Node} → Points h p (node n) → load_node p h ≡ ok n h
  unfolding load_node
  load_node-ok at = ground arith

  pub load_message-ok : {m : Message} → Points h p (message m) → load_message p h ≡ ok m h
  unfolding load_message
  load_message-ok at = ground arith

  pub load_meta-ok : {d : MetaData} → Points h p (meta_data d) → load_meta p h ≡ ok d h
  unfolding load_meta
  load_meta-ok at = ground arith

  pub set_next-ok :
      (q : Ptr) {n : Node}
      → Points h p (node n)
      → set_next p q h ≡ ok tt (write h p (some (node (record n { next = q }))))
  unfolding set_next
  set_next-ok q at = rw (load_node-ok at)

  pub free-ok : {o : Object} → Points h p o → free p h ≡ ok tt (write h p none)
  unfolding free
  free-ok at = ground arith

  pub Points-write_ne :
      {q : Ptr} {o : Object} (c : Option Object) → Points h p o → p ≢ q → Points (write h q c) p o
  unfolding write
  Points-write_ne c at ne = ground arith

pub Points-write_self :
    (h : Heap) (p : Ptr) (o : Object) → p ≢ null → Points (write h p (some o)) p o
unfolding write
Points-write_self h p o ne = ground arith

pub free-null : (h : Heap) → free null h ≡ ok tt h
unfolding free
free-null h = refl

pub write_at-ok :
    (a : List Content) (i : ℕ) (v : Content) (h : Heap)
    → i < length a
    → write_at a i v h ≡ ok (set a i v) h
unfolding write_at
write_at-ok a i v h lt = ground arith
