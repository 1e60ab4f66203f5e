-- ===== src/NodeList/Links.antt =====
-- Doubly linked nodes in memory: what the operations rely on and keep.
use dionysus.Prelude.{
  ◌≡◌, refl, ◌≢◌, Bool, true, false, ◌||◌, Option, none, some, List, [], ◌∷◌, ◌++◌, arith, ◌==◌,
}
use mathlib.Core.Bool.{or_assoc}
use dionysus.NodeList.Heap.{Ptr, Node, node, header, Heap}

-- the nodes of a list in order: the address and the payload of each
abbrev pub Cells : Type 0
Cells = List (Ptr × Ptr)

abbrev pub member : Ptr → Cells → Bool
member a [] = false
member a ((p, v) ∷ xs) = (a == p) || member a xs

-- the first address, or what follows the list
abbrev pub first : Cells → Ptr → Ptr
first [] stop = stop
first ((p, v) ∷ xs) stop = p

-- the last address, or what precedes the list
abbrev pub last : Ptr → Cells → Ptr
last back [] = back
last back ((p, v) ∷ xs) = last p xs

-- Distinct nodes of the list `l`, linked both ways, behind `back` and up to `stop`.
pub data Links (m : Ptr → Option Node) (l stop : Ptr) : Ptr → Cells → Type 0 where
  nil : {back : Ptr} → Links m l stop back []
  cons :
      {back p v : Ptr} {xs : Cells}
      → m p ≡ some (node back (first xs stop) v l)
      → p ≢ 0
      → member p xs ≡ false
      → Links m l stop p xs
      → Links m l stop back ((p, v) ∷ xs)

-- the list `l` holds the nodes `xs`
pub record IsList (h : Heap) (l : Ptr) (xs : Cells) : Type 0 where
  pub ne_null : l ≢ 0
  pub ends : h.lists l ≡ some (header (first xs 0) (last 0 xs))
  pub links : Links h.nodes l 0 0 xs

abbrev pub Apart : Cells → Cells → Type 0
Apart xs ys = (a : Ptr) → member a xs ≡ true → member a ys ≡ false

-- an address is in a joined list if it is in a part
pub member-append :
    (front back : Cells) (a : Ptr) → member a (front ++ back) ≡ (member a front || member a back)
member-append [] back a = refl
member-append (cell ∷ front) back a = rw (member-append front back a, or_assoc)

pub first-append : (xs ys : Cells) (stop : Ptr) → first (xs ++ ys) stop ≡ first xs (first ys stop)
first-append [] ys stop = refl
first-append (x ∷ xs) ys stop = refl

pub last-append : (back : Ptr) (xs ys : Cells) → last back (xs ++ ys) ≡ last (last back xs) ys
last-append back [] ys = refl
last-append back ((p, v) ∷ xs) ys = last-append p xs ys

-- nodes survive every change elsewhere
pub Links-frame :
    {m g : Ptr → Option Node} {l stop back : Ptr} {xs : Cells}
    → Links m l stop back xs
    → ((a : Ptr) → member a xs ≡ true → g a ≡ m a)
    → Links g l stop back xs
Links-frame nil same = nil
Links-frame (cons {p} e ne out s) same =
    cons (ground (arith, same p)) ne out (Links-frame s (λ a i. same a (ground arith)))

module _ {m : Ptr → Option Node} {l stop : Ptr} where
  pub not-member_of_none :
      {back : Ptr} {xs : Cells} (a : Ptr)
      → Links m l stop back xs
      → m a ≡ none
      → member a xs ≡ false
  not-member_of_none a nil e = refl
  not-member_of_none a (cons f ne out s) e = ground (arith, not-member_of_none a s e)

  pub not-member_zero : {back : Ptr} {xs : Cells} → Links m l stop back xs → member 0 xs ≡ false
  not-member_zero nil = refl
  not-member_zero (cons f ne out s) = ground (arith, not-member_zero s)

  pub Links-append :
      {back : Ptr} (xs : Cells) {ys : Cells}
      → Links m l (first ys stop) back xs
      → Links m l stop (last back xs) ys
      → Apart xs ys
      → Links m l stop back (xs ++ ys)
  Links-append [] s t apart = t
  Links-append ((p, v) ∷ xs) {ys} (cons e ne out s) t apart =
      cons (rw (first-append xs ys stop) e) ne
        (rw (member-append xs ys p) (ground (arith, apart p)))
        (Links-append xs s t (λ a i. apart a (ground arith)))

  pub Links-left :
      {back : Ptr} (xs ys : Cells)
      → Links m l stop back (xs ++ ys)
      → Links m l (first ys stop) back xs
  Links-left [] ys s = nil
  Links-left ((p, v) ∷ xs) ys (cons e ne out s) =
      cons (rw (← first-append xs ys stop) e) ne (ground (arith, out, member-append xs ys p))
        (Links-left xs ys s)

  pub Links-right :
      {back : Ptr} (xs ys : Cells)
      → Links m l stop back (xs ++ ys)
      → Links m l stop (last back xs) ys
  Links-right [] ys s = s
  Links-right ((p, v) ∷ xs) ys (cons e ne out s) = Links-right xs ys s

  pub Links-Apart : {back : Ptr} (xs ys : Cells) → Links m l stop back (xs ++ ys) → Apart xs ys
  Links-Apart [] ys s a i = cc
  Links-Apart ((p, v) ∷ xs) ys (cons e ne out s) a i =
      ground (arith, out, member-append xs ys p, Links-Apart xs ys s a)
