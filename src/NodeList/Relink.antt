-- ===== src/NodeList/Relink.antt =====
-- Writes to the ends of a run of linked nodes, and the commands on a node that is there.
use dionysus.Prelude.{◌≡◌, refl, ◌≢◌, true, Option, some, [], ◌∷◌, arith}
use dionysus.NodeList.Heap.{Ptr, Node, node, write}
use dionysus.NodeList.Links.{Cells, member, first, last, Links, nil, cons, Links-frame}

-- `n` is the node at `t`, the last of a run.
pub record IsLast (m : Ptr → Option Node) (l stop t : Ptr) (xs : Cells) (n : Node) : Type 0 where
  pub holds : m t ≡ some n
  pub ne_null : t ≢ 0
  pub inside : member t xs ≡ true
  pub next : n.next ≡ stop
  pub owner : n.owner ≡ l

module _ {m : Ptr → Option Node} {l stop : Ptr} where
  -- the first node gets another predecessor
  pub relink_first :
      {back p v : Ptr} {xs : Cells} (back' : Ptr)
      → Links m l stop back ((p, v) ∷ xs)
      → Links (write m p (some (node back' (first xs stop) v l))) l stop back' ((p, v) ∷ xs)
  unfolding write
  relink_first back' (cons {p} e ne out s) =
      cons (ground arith) ne out (Links-frame s (λ a i. ground arith))

  pub last-IsLast :
      {back p v : Ptr} {xs : Cells}
      → Links m l stop back ((p, v) ∷ xs)
      → (n : Node) × IsLast m l stop (last p xs) ((p, v) ∷ xs) n
  last-IsLast (cons {back} {p} {v} {xs = []} e ne out s) = (
    node back stop v l,
    record { holds = e; ne_null = ne; inside = ground arith; next = refl; owner = refl },
  )
  last-IsLast (cons {p} {xs = (q, w) ∷ xs} e ne out s) =
      let (n, is) = last-IsLast s in
      (
        n,
        record {
          holds = is.holds;
          ne_null = is.ne_null;
          inside = ground (arith, is.inside);
          next = is.next;
          owner = is.owner;
        },
      )

  -- the last node gets another successor
  pub relink_last :
      {back p v : Ptr} {xs : Cells} {n : Node} (stop' : Ptr)
      → Links m l stop back ((p, v) ∷ xs)
      → m (last p xs) ≡ some n
      → Links (write m (last p xs) (some (record n { next = stop' }))) l stop' back ((p, v) ∷ xs)
  unfolding write
  relink_last stop' (cons {xs = []} e ne out s) f = cons (ground arith) ne out nil
  relink_last stop' (cons {p} {xs = (q, w) ∷ xs} e ne out s) f =
      let (n, is) = last-IsLast s in cons (ground (arith, is.inside)) ne out (relink_last stop' s f)
