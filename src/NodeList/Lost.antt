-- ===== src/NodeList/Lost.antt =====
-- `list_insert_before` and `list_merge`, by what a walk along `next` meets afterwards.
use dionysus.Prelude.{
  ℕ, zero, suc, ◌<◌, ◌≡◌, refl, ◌≢◌, inl, inr, true, false, Option, none, some, [], ◌∷◌, arith,
  ◌==◌, length, Bool-cases,
}
use dionysus.NodeList.Heap.{Ptr, Node, node, header, Heap, write, ok}
use dionysus.NodeList.Heap.Commands.{
  not_null, with_node, with_list, load-ok, load_list-ok, set_prev-ok, set_owner-ok, set_head-ok,
  set_tail-ok,
}
use dionysus.NodeList.Links.{Cells, member}
use dionysus.NodeList.Walks.{Chain, stop, step, Forward}
use dionysus.NodeList.{list_insert_before, adopt_loop, list_merge}

-- `next` and the payload of every node are kept
abbrev pub Kept : (m g : Ptr → Option Node) → Type 0
Kept m g =
    (a b q v o : Ptr)
    → m a ≡ some (node b q v o)
    → (b' : Ptr) × (o' : Ptr) × (g a ≡ some (node b' q v o'))

Kept-trans : {m g k : Ptr → Option Node} → Kept m g → Kept g k → Kept m k
Kept-trans first second a b q v o e = let (b', o', e') = first a b q v o e in second a b' q v o' e'

-- writing a node that keeps its `next` and payload
Kept-write :
    (m : Ptr → Option Node) {b q v o : Ptr} (p b' o' : Ptr)
    → m p ≡ some (node b q v o)
    → Kept m (write m p (some (node b' q v o')))
unfolding write
Kept-write m {b} {q} {v} {o} p b' o' at a c r w u e = elim (Bool-cases (a == p)) [
  | inl same ↦ let e' : m p ≡ some (node c r w u) = ground (arith) in (b', o', ground arith)
  | inr other ↦ (c, u, rw (other, e))
]

Kept-fresh : (m : Ptr → Option Node) (p : Ptr) (n : Node) → m p ≡ none → Kept m (write m p (some n))
unfolding write
Kept-fresh m p n unused a b q v o e = (b, o, ground arith)

Chain-Kept :
    {m g : Ptr → Option Node} {p : Ptr} {xs : Cells} → Kept m g → Chain m p xs → Chain g p xs
Chain-Kept kept stop = stop
Chain-Kept kept (step {p} {v} {q} {b} {o} e ne c) =
    let (b', o', e') = kept p b q v o e in step e' ne (Chain-Kept kept c)

Chain-fresh :
    {m : Ptr → Option Node} {p : Ptr} {xs : Cells} (a : Ptr)
    → Chain m p xs
    → m a ≡ none
    → member a xs ≡ false
Chain-fresh a stop e = refl
Chain-fresh a (step f ne c) e = ground (arith, Chain-fresh a c e)

Chain-at_head :
    {m : Ptr → Option Node} {p a v : Ptr} {xs : Cells}
    → Chain m p ((a, v) ∷ xs)
    → Chain m a ((a, v) ∷ xs)
Chain-at_head (step e ne c) = step e ne c

first_cell :
    {m : Ptr → Option Node} {p a v : Ptr} {xs : Cells}
    → Chain m p ((a, v) ∷ xs)
    → (b : Ptr) × (q : Ptr) × (o : Ptr) × (m p ≡ some (node b q v o)) × (p ≢ 0)
first_cell (step {p} {v} {q} {b} {o} e ne c) = (b, q, o, e, ne)

module _ (h : Heap) (l at b q v fresh d : Ptr) (ne : fresh ≢ 0) (unused : h.nodes fresh ≡ none)
    (ne_at : at ≢ 0) (here : h.nodes at ≡ some (node b q v l)) where
  -- the heap after the writes to nodes
  abbrev added : Heap
  added = with_node h fresh (some (node b at d l))

  abbrev linked : Heap
  linked = with_node added at (some (node fresh q v l))

  here_after : added.nodes at ≡ some (node b q v l)
  unfolding write
  here_after = ground arith

  linked-Kept : Kept h.nodes linked.nodes
  linked-Kept =
      Kept-trans (Kept-fresh h.nodes fresh (node b at d l) unused)
        (Kept-write added.nodes at fresh l here_after)

  -- Before a node that member a predecessor, `list_insert_before` returns the new node, but a walk over
  -- the list meets what it met before, and not the new node.
  pub list_insert_before-lost :
      (xs : Cells)
      → Forward h l xs
      → b ≢ 0
      → (g : Heap) × (list_insert_before fresh l at d h ≡ ok fresh g)
        × Forward g l xs
        × (member fresh xs ≡ false)
  unfolding list_insert_before
  list_insert_before-lost xs f inner =
      let owned : l == l ≡ true = ground arith in
      (
        linked,
        rw (
          not_null l f.ne_null,
          not_null at ne_at,
          load-ok h at {n = node b q v l} ne_at here,
          owned,
          not_null fresh ne,
          set_prev-ok added at {n = node b q v l} ne_at here_after fresh,
          not_null b inner,
        ),
        record {
          ne_null = f.ne_null;
          head = f.head;
          tail = f.tail;
          starts = f.starts;
          chain = Chain-Kept linked-Kept f.chain;
        },
        Chain-fresh fresh f.chain unused,
      )

  -- Before the node at the head, a walk over the list meets the new node and then what it met before.
  pub list_insert_before-first :
      (xs : Cells)
      → Forward h l ((at, v) ∷ xs)
      → b ≡ 0
      → (g : Heap) × (list_insert_before fresh l at d h ≡ ok fresh g)
        × Forward g l ((fresh, d) ∷ (at, v) ∷ xs)
  unfolding list_insert_before
  list_insert_before-first xs f outer =
      let owned : l == l ≡ true = ground arith in
      let zero_prev : b == 0 ≡ true = ground arith in
      (
        with_list linked l (some (header fresh f.tail)),
        rw (
          not_null l f.ne_null,
          not_null at ne_at,
          load-ok h at {n = node b q v l} ne_at here,
          owned,
          not_null fresh ne,
          set_prev-ok added at {n = node b q v l} ne_at here_after fresh,
          zero_prev,
          set_head-ok linked l {r = header f.head f.tail} f.ne_null f.starts fresh,
        ),
        record {
          ne_null = f.ne_null;
          head = fresh;
          tail = f.tail;
          starts = unfold write in ground arith;
          chain =
              step {p = fresh} {v = d} {q = at} {b = b} {o = l} (unfold write in ground arith) ne
                (Chain-Kept linked-Kept (Chain-at_head f.chain));
        },
      )

-- the loop of `list_merge` only writes owners
adopt_loop-Kept :
    (fuel dest : ℕ) (h : Heap) {p : Ptr} {xs : Cells}
    → Chain h.nodes p xs
    → length xs < fuel
    → (m : Ptr → Option Node) × (adopt_loop fuel dest p h ≡ ok tt (record h { nodes = m }))
      × Kept h.nodes m
unfolding adopt_loop
adopt_loop-Kept zero dest h c enough = absurd (omega arith)
adopt_loop-Kept (suc fuel) dest h stop enough = (h.nodes, refl, λ a b q v o e. (b, o, e))
adopt_loop-Kept (suc fuel) dest h (step {p} {v} {q} {b} {o} e ne c) enough =
    let h' = with_node h p (some (node b q v dest)) in
    let kept : Kept h.nodes h'.nodes = Kept-write h.nodes p b dest e in
    let (m, run, rest) = adopt_loop-Kept fuel dest h' (Chain-Kept kept c) (omega arith) in
    let now : h'.nodes p ≡ some (node b q v dest) = unfold write in ground arith in
    (
      m,
      rw (
        not_null p ne,
        set_owner-ok h p {n = node b q v o} ne e dest,
        load-ok h' p {n = node b q v dest} ne now,
        run,
      ),
      Kept-trans kept rest,
    )

-- Into a list that holds nodes, `list_merge` puts none: a walk over `dest` meets what it met before,
-- and `src` is empty.
pub list_merge-lost :
    (fuel : ℕ) {h : Heap} (dest src p v q w : Ptr) (xs ys : Cells)
    → Forward h dest ((p, v) ∷ xs)
    → Forward h src ((q, w) ∷ ys)
    → dest ≢ src
    → suc (length ys) < fuel
    → (g : Heap) × (list_merge fuel dest src h ≡ ok tt g)
      × Forward g dest ((p, v) ∷ xs)
      × Forward g src []
unfolding list_merge
list_merge-lost fuel {h} dest src p v q w xs ys d s apart enough =
    let (m, run, kept) = adopt_loop-Kept fuel dest h s.chain enough in
    let (b, n, o, here, ne) = first_cell (Chain-Kept kept s.chain) in
    let (b', n', o', here', ne') = first_cell d.chain in
    let h₁ = record h { nodes = m } in
    let h₂ = with_node h₁ s.head (some (node d.tail n w o)) in
    let h₃ = with_list h₂ dest (some (header d.head s.tail)) in
    (
      with_list h₃ src (some (header 0 0)),
      rw (
        not_null dest d.ne_null,
        not_null src s.ne_null,
        load_list-ok h src {r = header s.head s.tail} s.ne_null s.starts,
        run,
        not_null s.head ne,
        load_list-ok h₁ dest {r = header d.head d.tail} d.ne_null d.starts,
        not_null d.head ne',
        set_prev-ok h₁ s.head {n = node b n w o} ne here d.tail,
        set_tail-ok h₂ dest {r = header d.head d.tail} d.ne_null d.starts s.tail,
      ),
      record {
        ne_null = d.ne_null;
        head = d.head;
        tail = s.tail;
        starts = unfold write in ground arith;
        chain = Chain-Kept (Kept-trans kept (Kept-write m s.head d.tail o here)) d.chain;
      },
      record {
        ne_null = s.ne_null;
        head = 0;
        tail = 0;
        starts = unfold write in ground arith;
        chain = stop;
      },
    )
