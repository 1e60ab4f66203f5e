-- ===== src/NodeList/Dequeue.antt =====
-- `list_dequeue` and `list_remove`.
use dionysus.Prelude.{
  ◌≡◌, refl, ◌≢◌, Bool, true, false, Option, some, [], ◌∷◌, ◌++◌, arith, ◌==◌, if◌then◌else◌, inl,
  inr, Bool-cases, ◌∙◌, ap,
}
use mathlib.Core.Path.{ap₂}
use dionysus.NodeList.Heap.{
  Ptr, Node, node, Header, header, Heap, Run, write, ok, when, when_set, set_prev, set_next,
  set_head, set_tail,
}
use dionysus.NodeList.Heap.Commands.{
  not_null, with_node, with_list, load-ok, set_prev-ok, set_next-ok, load_list-ok, set_head-ok,
  set_tail-ok,
}
use dionysus.NodeList.Links.{
  Cells, member, first, last, Links, nil, cons, Links-frame, IsList, Links-append, Links-left,
  Links-right, Links-Apart, last-append, member-append, Apart,
}
use dionysus.NodeList.Relink.{last-IsLast, relink_first, relink_last}
use dionysus.NodeList.Insert.{SameOutside, first-ne_null, first-holds}
use dionysus.NodeList.{list_dequeue, unlink}

-- the command ends in a heap with the property
abbrev Reaches : Run (Unit {0}) → (Heap → Type 0) → Type 0
Reaches r P = (g : Heap) × (r ≡ ok tt g) × P g

-- `g` is `h` but for the header `l`, which is `r`
record HeaderIs (l : Ptr) (r : Header) (h g : Heap) : Type 0 where
  header_is : g.lists l ≡ some r
  others : (k : Ptr) → k ≢ l → g.lists k ≡ h.lists k
  nodes : g.nodes ≡ h.nodes
  payloads : g.payloads ≡ h.payloads

module _ (h : Heap) (l n q : Ptr) (r : Header) (ne : l ≢ 0) (e : h.lists l ≡ some r) where
  head_step :
      Reaches
        (when (r.head == n) (set_head l q) h)
        (HeaderIs l (header (if r.head == n then q else r.head) r.tail) h)
  unfolding write
  head_step = elim (Bool-cases (r.head == n)) [
    | inl b ↦ (
      with_list h l (some (record r { head = q })),
      rw (b, set_head-ok h l ne e),
      rw b (record {
        header_is = ground arith;
        others = λ k o. ground arith;
        nodes = refl;
        payloads = refl;
      }),
    )
    | inr b ↦ (
      h,
      rw b,
      rw b (record { header_is = e; others = λ k o. refl; nodes = refl; payloads = refl }),
    )
  ]

  tail_step :
      Reaches
        (when (r.tail == n) (set_tail l q) h)
        (HeaderIs l (header r.head (if r.tail == n then q else r.tail)) h)
  unfolding write
  tail_step = elim (Bool-cases (r.tail == n)) [
    | inl b ↦ (
      with_list h l (some (record r { tail = q })),
      rw (b, set_tail-ok h l ne e),
      rw b (record {
        header_is = ground arith;
        others = λ k o. ground arith;
        nodes = refl;
        payloads = refl;
      }),
    )
    | inr b ↦ (
      h,
      rw b,
      rw b (record { header_is = e; others = λ k o. refl; nodes = refl; payloads = refl }),
    )
  ]

-- `g` is `h` but for the nodes `xs`, which now link as given
record NodesAre (l stop back : Ptr) (xs : Cells) (h g : Heap) : Type 0 where
  links : Links g.nodes l stop back xs
  nodes : (a : Ptr) → member a xs ≡ false → g.nodes a ≡ h.nodes a
  lists : g.lists ≡ h.lists
  payloads : g.payloads ≡ h.payloads

module _ (h : Heap) (l stop q : Ptr) where
  next_step :
      (xs : Cells)
      → Links h.nodes l stop 0 xs
      → Reaches (when_set (last 0 xs) (set_next (last 0 xs) q) h) (NodesAre l q 0 xs h)
  next_step [] s =
      (h, refl, record { links = nil; nodes = λ a o. refl; lists = refl; payloads = refl })
  next_step ((p, v) ∷ xs) s =
      let (n, at) = last-IsLast s in
      (
        with_node h (last p xs) (some (record n { next = q })),
        rw (not_null (last p xs) at.ne_null, set_next-ok h (last p xs) {n = n} at.ne_null at.holds),
        record {
          links = relink_last q s at.holds;
          nodes = λ a o. unfold write in ground (arith, at.inside);
          lists = refl;
          payloads = refl;
        },
      )

module _ (h : Heap) (l q : Ptr) where
  prev_step :
      {back : Ptr} (ys : Cells)
      → Links h.nodes l 0 back ys
      → Reaches (when_set (first ys 0) (set_prev (first ys 0) q) h) (NodesAre l 0 q ys h)
  prev_step [] s =
      (h, refl, record { links = nil; nodes = λ a o. refl; lists = refl; payloads = refl })
  prev_step {back} ((p, v) ∷ ys) s = (
    with_node h p (some (node q (first ys 0) v l)),
    rw (
      not_null p (first-ne_null s),
      set_prev-ok h p {n = node back (first ys 0) v l} (first-ne_null s) (first-holds s),
    ),
    record {
      links = relink_first q s;
      nodes = λ a o. unfold write in ground arith;
      lists = refl;
      payloads = refl;
    },
  )

-- The ends of the list without the node.
head_eq :
    (n v : Ptr) (xs ys : Cells)
    → Apart xs ((n, v) ∷ ys)
    → (if first (xs ++ (n, v) ∷ ys) 0 == n then first ys 0 else first (xs ++ (n, v) ∷ ys) 0)
      ≡ first (xs ++ ys) 0
head_eq n v [] ys apart = ground arith
head_eq n v ((p, w) ∷ xs) ys apart = ground (arith, apart p)

tail_eq :
    {m : Ptr → Option Node} {l : Ptr} (n v : Ptr) (xs ys : Cells)
    → Links m l 0 n ys
    → member n ys ≡ false
    → (if last 0 (xs ++ (n, v) ∷ ys) == n then last 0 xs else last 0 (xs ++ (n, v) ∷ ys))
      ≡ last 0 (xs ++ ys)
tail_eq n v xs [] s out = rw (last-append 0 xs ((n, v) ∷ []), last-append 0 xs []) (ground arith)
tail_eq n v xs ((q, w) ∷ ys) s out =
    let (k, at) = last-IsLast s in
    rw (last-append 0 xs ((n, v) ∷ (q, w) ∷ ys), last-append 0 xs ((q, w) ∷ ys))
      (ground (arith, at.inside))

-- What `list_dequeue` and its like leave: the list `rest` and nothing else changed but `old`.
pub record Leaves (h : Heap) (l n v : Ptr) (old rest : Cells) (g : Heap) : Type 0 where
  pub list : IsList g l rest
  pub cleared : g.nodes n ≡ some (node 0 0 v 0)
  pub same : SameOutside l old h g

module _ {h : Heap} {l : Ptr} (n v : Ptr) (xs ys : Cells)
    (is : IsList h l (xs ++ (n, v) ∷ ys)) where
  right : Links h.nodes l 0 (last 0 xs) ((n, v) ∷ ys)
  right = Links-right xs ((n, v) ∷ ys) is.links

  apart : Apart xs ((n, v) ∷ ys)
  apart = Links-Apart xs ((n, v) ∷ ys) is.links

  inner :
      {back : Ptr}
      → Links h.nodes l 0 back ((n, v) ∷ ys)
      → Links h.nodes l 0 n ys × (member n ys ≡ false)
  inner (cons e ne out s) = (s, out)

  ne_n : n ≢ 0
  ne_n = first-ne_null right

  unlink_runs :
      (r : Header) (g₁ g₂ g₃ g₄ : Heap)
      → h.lists l ≡ some r
      → when (r.head == n) (set_head l (first ys 0)) h ≡ ok tt g₁
      → when (r.tail == n) (set_tail l (last 0 xs)) g₁ ≡ ok tt g₂
      → when_set (last 0 xs) (set_next (last 0 xs) (first ys 0)) g₂ ≡ ok tt g₃
      → when_set (first ys 0) (set_prev (first ys 0) (last 0 xs)) g₃ ≡ ok tt g₄
      → unlink l n h ≡ ok tt g₄
  unfolding unlink
  unlink_runs r g₁ g₂ g₃ g₄ e run₁ run₂ run₃ run₄ =
      let owned : l == l ≡ true = ground arith in
      rw (
        load-ok h n {n = node (last 0 xs) (first ys 0) v l} ne_n (first-holds right),
        owned,
        load_list-ok h l is.ne_null e,
        run₁,
        run₂,
        run₃,
        run₄,
      )

  record Unlinked (g : Heap) : Type 0 where
    ends : g.lists l ≡ some (header (first (xs ++ ys) 0) (last 0 (xs ++ ys)))
    lists : (k : Ptr) → k ≢ l → g.lists k ≡ h.lists k
    before : Links g.nodes l (first ys 0) 0 xs
    after : Links g.nodes l 0 (last 0 xs) ys
    nodes : (a : Ptr) → member a xs ≡ false → member a ys ≡ false → g.nodes a ≡ h.nodes a
    payloads : g.payloads ≡ h.payloads

  unlink-Unlinked : Reaches (unlink l n h) Unlinked
  unlink-Unlinked =
      let (s, out) = inner right in
      let (g₁, run₁, p₁) = head_step h l n (first ys 0) _ is.ne_null is.ends in
      let (g₂, run₂, p₂) = tail_step g₁ l n (last 0 xs) _ is.ne_null p₁.header_is in
      let kept = p₂.nodes ∙ p₁.nodes in
      let (g₃, run₃, p₃) = next_step g₂ l n (first ys 0) xs (
        Links-frame (Links-left xs ((n, v) ∷ ys) is.links)
          (λ a i. ap (λ (m : Ptr → Option Node). m a) kept)) in
      let (g₄, run₄, p₄) = prev_step g₃ l (last 0 xs) ys (
        Links-frame s (λ a i.
          p₃.nodes a (ground (arith, apart a)) ∙ ap (λ (m : Ptr → Option Node). m a) kept)) in
      (
        g₄,
        unlink_runs _ g₁ g₂ g₃ g₄ is.ends run₁ run₂ run₃ run₄,
        record {
          ends =
              ap (λ (f : Ptr → Option Header). f l) (p₄.lists ∙ p₃.lists)
              ∙ p₂.header_is
              ∙ ap₂ (λ a b. some (header a b)) (head_eq n v xs ys apart) (tail_eq n v xs ys s out);
          lists = λ k o.
              ap (λ (f : Ptr → Option Header). f k) (p₄.lists ∙ p₃.lists)
              ∙ p₂.others k o
              ∙ p₁.others k o;
          before = Links-frame p₃.links (λ a i. p₄.nodes a (ground (arith, apart a)));
          after = p₄.links;
          nodes = λ a o o'. p₄.nodes a o' ∙ p₃.nodes a o ∙ ap (λ (m : Ptr → Option Node). m a) kept;
          payloads = p₄.payloads ∙ p₃.payloads ∙ p₂.payloads ∙ p₁.payloads;
        },
      )

  n_outside : member n xs ≡ false
  n_outside = ground (arith, apart n)

  -- `list_dequeue` returns the node, cleared but for its payload; the list is as it was without it,
  -- and nothing outside the list member changed.
  pub list_dequeue-Leaves :
      (g : Heap) × (list_dequeue l n h ≡ ok n g) × Leaves h l n v (xs ++ (n, v) ∷ ys) (xs ++ ys) g
  unfolding list_dequeue
  list_dequeue-Leaves =
      let (g, run, u) = unlink-Unlinked in
      let (s, out) = inner right in
      let holds = u.nodes n n_outside out ∙ first-holds right in
      (
        with_node g n (some (node 0 0 v 0)),
        rw (
          not_null l is.ne_null,
          not_null n ne_n,
          run,
          load-ok g n {n = node (last 0 xs) (first ys 0) v l} ne_n holds,
        ),
        record {
          list = record {
            ne_null = is.ne_null;
            ends = u.ends;
            links =
                Links-append xs
                  (Links-frame u.before (λ a i. unfold write in ground (arith, n_outside)))
                  (Links-frame u.after (λ a i. unfold write in ground (arith, out)))
                  (λ a i. ground (arith, apart a));
          };
          cleared = unfold write in ground arith;
          same = record {
            nodes =
                λ a o. unfold write in ground (arith, member-append xs ((n, v) ∷ ys) a, u.nodes a);
            lists = u.lists;
            payloads = λ d. ap (λ (f : Ptr → Bool). f d) u.payloads;
          };
        },
      )
