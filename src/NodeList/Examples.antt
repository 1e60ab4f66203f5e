-- ===== src/NodeList/Examples.antt =====
-- The theorems about kernel/structures/list.c at concrete lists, and tests.
use dionysus.Prelude.{◌≡◌, refl, true, Option, none, some, [], ◌∷◌, ◌==◌, if◌then◌else◌, arith}
use dionysus.NodeList.Heap.{Ptr, Node, node, Header, header, Heap, ok}
use dionysus.NodeList.Links.{nil, cons, IsList}
use dionysus.NodeList.Dequeue.{Leaves, list_dequeue-Leaves}
use dionysus.NodeList.{list_dequeue}

-- list 1 holds the nodes 10 and 20, list 2 the node 30
abbrev example_nodes : Ptr → Option Node
example_nodes a =
    if a == 10
    then some (node 0 20 7 1)
    else if a == 20
    then some (node 10 0 8 1)
    else if a == 30
    then some (node 0 0 9 2)
    else none

abbrev example_lists : Ptr → Option Header
example_lists l =
    if l == 1 then some (header 10 20) else if l == 2 then some (header 30 30) else none

abbrev memory : Heap
memory = record { nodes = example_nodes; lists = example_lists; payloads = λ d. true }

two-IsList : IsList memory 1 ((10, 7) ∷ (20, 8) ∷ [])
two-IsList = record {
  ne_null = ground arith;
  ends = refl;
  links = cons refl (ground arith) refl (cons refl (ground arith) refl nil);
}

one-IsList : IsList memory 2 ((30, 9) ∷ [])
one-IsList = record {
  ne_null = ground arith;
  ends = refl;
  links = cons refl (ground arith) refl nil;
}

list_dequeue-Leaves_example :
    (g : Heap) × (list_dequeue 1 10 memory ≡ ok 10 g)
    × Leaves memory 1 10 7 ((10, 7) ∷ (20, 8) ∷ []) ((20, 8) ∷ []) g
list_dequeue-Leaves_example = list_dequeue-Leaves 10 7 [] ((20, 8) ∷ []) two-IsList
