-- ===== src/NodeList.antt =====
-- kernel/structures/list.c. `fresh` is what the `kmalloc` of an operation returns. The loops that
-- follow `next` run on fuel.
pub mod Heap
pub mod Links
pub mod Relink
pub mod Insert
pub mod Dequeue
pub mod Walks
pub mod Lost
mod Examples
use dionysus.Prelude.{
  ℕ, zero, suc, Bool, true, false, Option, none, some, ◌||◌, ◌==◌, if◌then◌else◌,
}
use Heap.{
  Ptr, node, header, Cmd, out_of_fuel, pure, assert, ◌>>=◌, ◌>>◌, load, put, load_list, put_list,
  set_prev, set_next, set_owner, set_head, set_tail, when, when_set, free_node, free_list,
  free_payload,
}

pub list_create : (fresh : Ptr) → Cmd Ptr
list_create fresh = if fresh == 0 then pure 0 else do put_list fresh (some (header 0 0)); pure fresh

destroy_loop : ℕ → Ptr → Cmd (Unit {0})
destroy_loop zero p = λ _. out_of_fuel
destroy_loop (suc fuel) p = if p == 0 then pure tt else do
  n ← load p
  when_set n.payload (free_payload n.payload)
  free_node p
  destroy_loop fuel n.next

pub list_destroy : ℕ → (list : Ptr) → Cmd (Unit {0})
unfolding destroy_loop
list_destroy fuel list =
    if list == 0 then pure tt else do r ← load_list list; destroy_loop fuel r.head; free_list list

-- what `list_insert` does once the node is there
link_last : (list fresh : Ptr) → Cmd Ptr
link_last list fresh = do
  r ← load_list list
  if r.head == 0
      then (do put_list list (some (header fresh fresh)); pure fresh)
      else (do set_next r.tail fresh; set_prev fresh r.tail; set_tail list fresh; pure fresh)

pub list_insert : (fresh list data' : Ptr) → Cmd Ptr
unfolding link_last
list_insert fresh list data' =
    if (list == 0) || (fresh == 0)
    then pure 0
    else put fresh (some (node 0 0 data' list)) >> link_last list fresh

link_first : (list fresh data' : Ptr) → Cmd Ptr
link_first list fresh data' = do
  r ← load_list list
  put fresh (some (node 0 r.head data' list))
  set_head list fresh
  if r.tail == 0
      then (do set_tail list fresh; pure fresh)
      else (do set_prev r.head fresh; pure fresh)

pub list_push : (fresh list data' : Ptr) → Cmd Ptr
unfolding link_first
list_push fresh list data' =
    if (list == 0) || (fresh == 0) then pure 0 else link_first list fresh data'

pub list_insert_after : (fresh list at data' : Ptr) → Cmd Ptr
list_insert_after fresh list at data' = if (list == 0) || (at == 0) then pure 0 else do
  n ← load at
  assert (n.owner == list)
  if fresh == 0 then pure 0 else do
    put fresh (some (node at n.next data' list))
    set_next at fresh
    when (n.next == 0) (set_tail list fresh)
    pure fresh

pub list_insert_before : (fresh list at data' : Ptr) → Cmd Ptr
list_insert_before fresh list at data' = if (list == 0) || (at == 0) then pure 0 else do
  n ← load at
  assert (n.owner == list)
  if fresh == 0 then pure 0 else do
    put fresh (some (node n.prev at data' list))
    set_prev at fresh
    when (n.prev == 0) (set_head list fresh)
    pure fresh

-- the links of `list_dequeue`, from the node as it was
unlink : (list at : Ptr) → Cmd (Unit {0})
unlink list at = do
  n ← load at
  assert (n.owner == list)
  r ← load_list list
  when (r.head == at) (set_head list n.next)
  when (r.tail == at) (set_tail list n.prev)
  when_set n.prev (set_next n.prev n.next)
  when_set n.next (set_prev n.next n.prev)

pub list_dequeue : (list at : Ptr) → Cmd Ptr
unfolding unlink
list_dequeue list at = if (list == 0) || (at == 0) then pure 0 else do
  unlink list at
  n ← load at
  put at (some (record n { prev = 0; next = 0; owner = 0 }))
  pure at

pub list_remove : (list at : Ptr) → Cmd (Unit {0})
list_remove list at = do
  found ← list_dequeue list at
  if found == 0
      then pure tt
      else do n ← load at; when_set n.payload (free_payload n.payload); free_node at

find_loop : ℕ → (key p : Ptr) → Cmd Ptr
find_loop zero key p = λ _. out_of_fuel
find_loop (suc fuel) key p =
    if p == 0
    then pure 0
    else do n ← load p; if n.payload == key then pure p else find_loop fuel key n.next

pub list_find : ℕ → (list key : Ptr) → Cmd Ptr
unfolding find_loop
list_find fuel list key =
    if (list == 0) || (key == 0) then pure 0 else do r ← load_list list; find_loop fuel key r.head

index_loop : ℕ → Ptr → Cmd Ptr
index_loop zero p = pure p
index_loop (suc left) p = if p == 0 then pure 0 else do n ← load p; index_loop left n.next

pub list_get_index : (list : Ptr) (index : ℕ) → Cmd Ptr
unfolding index_loop
list_get_index list index =
    if list == 0 then pure 0 else do r ← load_list list; index_loop index r.head

adopt_loop : ℕ → (dest p : Ptr) → Cmd (Unit {0})
adopt_loop zero dest p = λ _. out_of_fuel
adopt_loop (suc fuel) dest p =
    if p == 0 then pure tt else do set_owner p dest; n ← load p; adopt_loop fuel dest n.next

pub list_merge : ℕ → (dest src : Ptr) → Cmd (Unit {0})
unfolding adopt_loop
list_merge fuel dest src = if (dest == 0) || (src == 0) then pure tt else do
  s ← load_list src
  adopt_loop fuel dest s.head
  if s.head == 0 then pure tt else do
    d ← load_list dest
    (if d.head == 0
        then put_list dest (some (header s.head s.tail))
        else (do set_prev s.head d.tail; set_tail dest s.tail))
    put_list src (some (header 0 0))
