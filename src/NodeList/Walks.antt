-- ===== src/NodeList/Walks.antt =====
-- The walks that follow `next`: `list_find` and `list_get_index`.
use dionysus.Prelude.{
  ℕ, zero, suc, ◌<◌, ◌≡◌, refl, ◌≢◌, Option, some, [], ◌∷◌, arith, ◌==◌, if◌then◌else◌, length, inl,
  inr, Bool-cases,
}
use dionysus.NodeList.Heap.{Ptr, Node, node, header, Heap, ok}
use dionysus.NodeList.Heap.Commands.{not_null, load-ok, load_list-ok}
use dionysus.NodeList.Links.{Cells, first, last, Links, nil, cons, IsList}
use dionysus.NodeList.{find_loop, list_find, index_loop, list_get_index}

-- what a walk along `next` from an address meets
pub data Chain (m : Ptr → Option Node) : Ptr → Cells → Type 0 where
  stop : Chain m 0 []
  step :
      {p v q b o : Ptr} {xs : Cells}
      → m p ≡ some (node b q v o)
      → p ≢ 0
      → Chain m q xs
      → Chain m p ((p, v) ∷ xs)

-- a walk over the list `l` meets `xs`
pub record Forward (h : Heap) (l : Ptr) (xs : Cells) : Type 0 where
  pub ne_null : l ≢ 0
  pub head : Ptr
  pub tail : Ptr
  pub starts : h.lists l ≡ some (header head tail)
  pub chain : Chain h.nodes head xs

pub Links-Chain :
    {m : Ptr → Option Node} {l back : Ptr} {xs : Cells}
    → Links m l 0 back xs
    → Chain m (first xs 0) xs
Links-Chain nil = stop
Links-Chain (cons e ne out s) = step e ne (Links-Chain s)

pub IsList-Forward : {h : Heap} {l : Ptr} {xs : Cells} → IsList h l xs → Forward h l xs
IsList-Forward {xs} is = record {
  ne_null = is.ne_null;
  head = first xs 0;
  tail = last 0 xs;
  starts = is.ends;
  chain = Links-Chain is.links;
}

-- the first address with the payload, or NULL
unfoldable pub find : Ptr → Cells → Ptr
find key [] = 0
find key ((p, v) ∷ xs) = if v == key then p else find key xs

-- the address at the index, or NULL
unfoldable pub get_index : Cells → ℕ → Ptr
get_index [] i = 0
get_index ((p, v) ∷ xs) zero = p
get_index ((p, v) ∷ xs) (suc i) = get_index xs i

find_loop-ok :
    (fuel key : ℕ) (h : Heap) {p : Ptr} {xs : Cells}
    → Chain h.nodes p xs
    → length xs < fuel
    → find_loop fuel key p h ≡ ok (find key xs) h
unfolding find_loop find
find_loop-ok zero key h c enough = absurd (omega arith)
find_loop-ok (suc fuel) key h stop enough = refl
find_loop-ok (suc fuel) key h (step {p} {v} {q} {b} {o} e ne c) enough =
    rw (not_null p ne, load-ok h p {n = node b q v o} ne e)
      (elim (Bool-cases (v == key)) [
        | inl hit ↦ rw hit refl
        | inr miss ↦ rw miss (find_loop-ok fuel key h c (omega arith))
      ])

index_loop-ok :
    (index : ℕ) (h : Heap) {p : Ptr} {xs : Cells}
    → Chain h.nodes p xs
    → index_loop index p h ≡ ok (get_index xs index) h
unfolding index_loop get_index
index_loop-ok zero h stop = refl
index_loop-ok zero h (step e ne c) = refl
index_loop-ok (suc index) h stop = refl
index_loop-ok (suc index) h (step {p} {v} {q} {b} {o} e ne c) =
    rw (not_null p ne, load-ok h p {n = node b q v o} ne e) (index_loop-ok index h c)

-- With more fuel than the walk has nodes, `list_find` returns the first node with the payload, or
-- NULL, and changes nothing.
pub list_find-find :
    (fuel key : ℕ) {h : Heap} {l : Ptr} {xs : Cells}
    → Forward h l xs
    → key ≢ 0
    → length xs < fuel
    → list_find fuel l key h ≡ ok (find key xs) h
unfolding list_find
list_find-find fuel key {h} {l} f ne enough =
    rw
      (
        not_null l f.ne_null,
        not_null key ne,
        load_list-ok h l {r = header f.head f.tail} f.ne_null f.starts,
      )
      (find_loop-ok fuel key h f.chain enough)

-- `list_get_index` returns the node at the index, or NULL past the end, and changes nothing.
pub list_get_index-get_index :
    (index : ℕ) {h : Heap} {l : Ptr} {xs : Cells}
    → Forward h l xs
    → list_get_index l index h ≡ ok (get_index xs index) h
unfolding list_get_index
list_get_index-get_index index {h} {l} f =
    rw (not_null l f.ne_null, load_list-ok h l {r = header f.head f.tail} f.ne_null f.starts)
      (index_loop-ok index h f.chain)
