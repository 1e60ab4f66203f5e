-- ===== src/NodeList/Heap/Commands.antt =====
-- What the commands do at an address that holds a node or a header.
use dionysus.Prelude.{◌≡◌, ◌≢◌, false, Option, none, some, arith, ◌==◌}
use dionysus.NodeList.Heap.{
  Ptr, Node, Header, Heap, write, ok, load, load_list, set_prev, set_next, set_head, set_tail,
  set_owner, free_node, free_list,
}

pub not_null : (p : Ptr) → p ≢ 0 → p == 0 ≡ false
not_null p ne = ground arith

-- a heap with one node, or one header, written
abbrev pub with_node : Heap → Ptr → Option Node → Heap
with_node h p c = record h { nodes = write h.nodes p c }

abbrev pub with_list : Heap → Ptr → Option Header → Heap
with_list h l c = record h { lists = write h.lists l c }

module _ (h : Heap) (p : Ptr) {n : Node} (ne : p ≢ 0) (e : h.nodes p ≡ some n) where
  pub load-ok : load p h ≡ ok n h
  unfolding load
  load-ok = rw (not_null p ne, e)

  pub set_prev-ok :
      (q : Ptr) → set_prev p q h ≡ ok tt (with_node h p (some (record n { prev = q })))
  unfolding set_prev
  set_prev-ok q = rw load-ok

  pub set_next-ok :
      (q : Ptr) → set_next p q h ≡ ok tt (with_node h p (some (record n { next = q })))
  unfolding set_next
  set_next-ok q = rw load-ok

  pub set_owner-ok :
      (q : Ptr) → set_owner p q h ≡ ok tt (with_node h p (some (record n { owner = q })))
  unfolding set_owner
  set_owner-ok q = rw load-ok

  pub free_node-ok : free_node p h ≡ ok tt (with_node h p none)
  unfolding free_node
  free_node-ok = rw load-ok

module _ (h : Heap) (l : Ptr) {r : Header} (ne : l ≢ 0) (e : h.lists l ≡ some r) where
  pub load_list-ok : load_list l h ≡ ok r h
  unfolding load_list
  load_list-ok = rw (not_null l ne, e)

  pub set_head-ok :
      (q : Ptr) → set_head l q h ≡ ok tt (with_list h l (some (record r { head = q })))
  unfolding set_head
  set_head-ok q = rw load_list-ok

  pub set_tail-ok :
      (q : Ptr) → set_tail l q h ≡ ok tt (with_list h l (some (record r { tail = q })))
  unfolding set_tail
  set_tail-ok q = rw load_list-ok

  pub free_list-ok : free_list l h ≡ ok tt (with_list h l none)
  unfolding free_list
  free_list-ok = rw load_list-ok
