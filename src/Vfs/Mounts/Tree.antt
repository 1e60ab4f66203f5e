-- ===== src/Vfs/Mounts/Tree.antt =====
-- The superblocks that are mounted at the paths of a tree.
use dionysus.Prelude.{
  ℕ, ◌≡◌, refl, sym, ap, true, false, Option, none, some, List, [], ◌∷◌, arith, Bool-cases,
  Option-cases, inl, inr,
}
use mathlib.Core.Option.{some-injective}
use dionysus.Prelude.Str.{Str, str_eq, str_eq→eq, str_eq_self}
use dionysus.Vfs.Mounts.{
  MountNode, mount_node, MountNodes, leaf, child, name_of, sb_of, children_of, child_or_new,
  find_child, put_child,
}

abbrev pub below : Option MountNode → (MountNode → Option ℕ) → Option ℕ
below none next = none
below (some n) next = next n

-- the superblock that is mounted at a path, in the nodes' first children of the names
unfoldable pub mounted : List Str → MountNode → Option ℕ
unfolding find_child
mounted [] n = sb_of n
mounted (s ∷ names) n = below (find_child s (children_of n)) (mounted names)

pub find_child-named :
    (s : Str) (ns : MountNodes) (m : MountNode) → find_child s ns ≡ some m → name_of m ≡ s
unfolding find_child
find_child-named s leaf m e = ground arith
find_child-named s (child n ns) m e = elim (Bool-cases (str_eq (name_of n) s)) [
  | inl here ↦
      let same : n ≡ m = some-injective n m (rw here at e) in
      rw (sym same) (str_eq→eq (name_of n) s here)
  | inr away ↦ find_child-named s ns m (rw away at e)
]

pub find_child-put_child :
    (s : Str) (m : MountNode) (ns : MountNodes)
    → name_of m ≡ s
    → find_child s (put_child s m ns) ≡ some m
unfolding find_child put_child
find_child-put_child s m leaf named =
    let own : str_eq (name_of m) s ≡ true = rw named (str_eq_self s) in rw own refl
find_child-put_child s m (child n ns) named =
    let own : str_eq (name_of m) s ≡ true = rw named (str_eq_self s) in
    elim (Bool-cases (str_eq (name_of n) s)) [
      | inl here ↦ rw (here, own) refl
      | inr away ↦ rw (away, away) (find_child-put_child s m ns named)
    ]

pub find_child-put_other :
    (s t : Str) (m : MountNode) (ns : MountNodes)
    → name_of m ≡ s
    → str_eq s t ≡ false
    → find_child t (put_child s m ns) ≡ find_child t ns
unfolding find_child put_child
find_child-put_other s t m leaf named ne =
    let other : str_eq (name_of m) t ≡ false = rw named ne in rw other refl
find_child-put_other s t m (child n ns) named ne =
    let other : str_eq (name_of m) t ≡ false = rw named ne in
    elim (Bool-cases (str_eq (name_of n) s)) [
      | inl here ↦
          let other' : str_eq (name_of n) t ≡ false = rw (str_eq→eq (name_of n) s here) ne in
          rw (here, other, other') refl
      | inr away ↦ elim (Bool-cases (str_eq (name_of n) t)) [
        | inl found ↦ rw (away, found) refl
        | inr past ↦ rw (away, past) (find_child-put_other s t m ns named ne)
      ]
    ]

-- a child in its new state, or one more, and the child as it was
pub child_or_new-name : (s : Str) (ns : MountNodes) → name_of (child_or_new s (find_child s ns)) ≡ s
child_or_new-name s ns = elim (Option-cases (find_child s ns)) [
  | inl missing ↦ rw missing refl
  | inr (m, found) ↦ rw found (find_child-named s ns m found)
]

-- nothing is mounted in a new child
new-mounted : (s : Str) (names : List Str) → mounted names (mount_node s none leaf) ≡ none
unfolding mounted find_child
new-mounted s [] = refl
new-mounted s (t ∷ names) = refl

pub child_or_new-mounted :
    (s : Str) (names : List Str) (n : MountNode)
    → mounted names (child_or_new s (find_child s (children_of n))) ≡ mounted (s ∷ names) n
unfolding mounted
child_or_new-mounted s names n = elim (Option-cases (find_child s (children_of n))) [
  | inl missing ↦ rw missing (new-mounted s names)
  | inr (m, found) ↦ rw found refl
]

pub put_child-twice :
    (s : Str) (m m' : MountNode) (ns : MountNodes)
    → name_of m ≡ s
    → put_child s m' (put_child s m ns) ≡ put_child s m' ns
unfolding put_child
put_child-twice s m m' leaf named =
    let own : str_eq (name_of m) s ≡ true = rw named (str_eq_self s) in rw own refl
put_child-twice s m m' (child n ns) named =
    let own : str_eq (name_of m) s ≡ true = rw named (str_eq_self s) in
    elim (Bool-cases (str_eq (name_of n) s)) [
      | inl here ↦ rw (here, own) refl
      | inr away ↦ rw (away, away) (ap (child n) (put_child-twice s m m' ns named))
    ]
