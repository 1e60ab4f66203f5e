-- ===== src/Vfs/Mounts/Lookup/Laws.antt =====
-- Which mount point a path is looked up from, and what is opened there.
use dionysus.Prelude.{
  ℕ, zero, suc, ◌≡◌, ◌≢◌, refl, sym, ap, ◌∙◌, false, Option, none, some, List, [], ◌∷◌, ◌++◌, ◌==◌,
  length, arith, Option-cases, inl, inr,
}
use mathlib.Core.Path.{fun_ext}
use dionysus.Prelude.Str.{Str}
use dionysus.Errno.{err, enoent}
use dionysus.Vfs.Canonical.{canonical, spell, string_at, canonicalize_path}
use dionysus.Vfs.Canonical.Tokens.{AreText, buffer, string_at-append, skip_string-append}
use dionysus.Vfs.Canonical.Names.{ArePlain, spell-Lays}
use dionysus.Vfs.Mounts.{MountNode, sb_of, children_of, find_child}
use dionysus.Vfs.Mounts.Tree.{mounted, below}
use dionysus.Vfs.Mounts.Lookup.{
  LocalRoot, keep_root, follow, local_root_from, get_local_root, Calls, Opened, open_node,
  open_from, open_path, kopen,
}

-- the lookup along names
look_names : List Str → MountNode → LocalRoot → Option LocalRoot
unfolding find_child
look_names [] n best = some best
look_names (s ∷ names) n best =
    follow (find_child s (children_of n)) best
      (λ m. look_names names m (keep_root (sb_of m) (buffer names) (length names) best))

local_root_from-names :
    (names : List Str) (n : MountNode) (best : LocalRoot)
    → ArePlain names
    → AreText names
    → local_root_from (length names) (buffer names) n best ≡ look_names names n best
unfolding local_root_from look_names
local_root_from-names [] n best plain text = refl
local_root_from-names ([] ∷ names) n best plain text = absurd (omega (arith, plain.0.some_byte))
local_root_from-names ((zero ∷ s) ∷ names) n best plain text = absurd (omega arith)
local_root_from-names ((suc c ∷ s) ∷ names) n best plain text =
    rw
      (
        string_at-append (suc c ∷ s) (buffer names) text.0,
        skip_string-append (suc c ∷ s) (buffer names) text.0,
      )
      (ap (follow (find_child (suc c ∷ s) (children_of n)) best) (
        fun_ext (λ m.
          local_root_from-names names m (keep_root (sb_of m) (buffer names) (length names) best)
            plain.1 text.1)))

-- nothing is mounted at the names below a node
abbrev pub NoneBelow : List Str → MountNode → Type 0
NoneBelow names n = (pre post : List Str) → names ≡ pre ++ post → pre ≢ [] → mounted pre n ≡ none

-- a step down
mounted-child :
    (s : Str) (names : List Str) (n m : MountNode)
    → find_child s (children_of n) ≡ some m
    → mounted (s ∷ names) n ≡ mounted names m
unfolding mounted
mounted-child s names n m found = ap (λ (o : Option MountNode). below o (mounted names)) found

NoneBelow-child :
    (s : Str) (names : List Str) (n m : MountNode)
    → find_child s (children_of n) ≡ some m
    → NoneBelow (s ∷ names) n
    → (sb_of m ≡ none) × NoneBelow names m
unfolding mounted
NoneBelow-child s names n m found free = (
  sym (mounted-child s [] n m found) ∙ free (s ∷ []) names refl (λ e. ground arith),
  λ pre post e ne.
      sym (mounted-child s pre n m found)
      ∙ free (s ∷ pre) post (ap (λ (r : List Str). s ∷ r) e) (λ e'. ground arith),
)

look_names-best :
    (names : List Str) (n : MountNode) (best : LocalRoot)
    → NoneBelow names n
    → look_names names n best ≡ some best
unfolding look_names
look_names-best [] n best free = refl
look_names-best (s ∷ names) n best free = elim (Option-cases (find_child s (children_of n))) [
  | inl missing ↦ rw missing refl
  | inr (m, found) ↦
      let (none_here, free') = NoneBelow-child s names n m found free in
      rw (found, none_here) (look_names-best names m best free')
]

abbrev root_at : ℕ → List Str → LocalRoot
root_at sb rest = record { sb = some sb; off = buffer rest; depth = length rest }

-- the names behind a path are not mount points
abbrev pub IsDeepest : List Str → List Str → MountNode → Type 0
IsDeepest names rest n =
    (pre post : List Str) → rest ≡ pre ++ post → pre ≢ [] → mounted (names ++ pre) n ≡ none

look_names-below :
    (names rest : List Str) (n : MountNode) (best : LocalRoot) (sb : ℕ)
    → mounted names n ≡ some sb
    → IsDeepest names rest n
    → look_names
        (names ++ rest)
        n
        (keep_root (sb_of n) (buffer (names ++ rest)) (length (names ++ rest)) best)
      ≡ some (root_at sb rest)
unfolding look_names mounted
look_names-below [] rest n best sb at free = rw at (look_names-best rest n (root_at sb rest) free)
look_names-below (s ∷ names) rest n best sb at free =
    elim (Option-cases (find_child s (children_of n))) [
      | inl missing ↦ let c : none ≡ some sb = rw missing at at in ground arith
      | inr (m, found) ↦
          let best' =
            keep_root (sb_of n) (buffer (s ∷ names ++ rest)) (length (s ∷ names ++ rest)) best in
          rw found (
            look_names-below names rest m best' sb (sym (mounted-child s names n m found) ∙ at)
              (λ pre post e ne.
                sym (mounted-child s (names ++ pre) n m found) ∙ free pre post e ne))
    ]

look_names-mounted :
    (s : Str) (names rest : List Str) (n : MountNode) (best : LocalRoot) (sb : ℕ)
    → mounted (s ∷ names) n ≡ some sb
    → IsDeepest (s ∷ names) rest n
    → look_names (s ∷ names ++ rest) n best ≡ some (root_at sb rest)
unfolding look_names mounted
look_names-mounted s names rest n best sb at free =
    elim (Option-cases (find_child s (children_of n))) [
      | inl missing ↦ let c : none ≡ some sb = rw missing at at in ground arith
      | inr (m, found) ↦ rw found (
          look_names-below names rest m best sb (sym (mounted-child s names n m found) ∙ at)
            (λ pre post e ne. sym (mounted-child s (names ++ pre) n m found) ∙ free pre post e ne))
    ]

-- `kopen`'s loop along names
unfoldable pub open_names : {Node : Type 0} → Calls Node → List Str → Option Node → Opened Node
open_names calls names none = (none, err enoent)
open_names calls [] (some n) = open_node calls n
open_names calls (s ∷ names) (some n) = open_names calls names (calls.finddir_vfs n s)

open_from-names :
    {Node : Type 0} (calls : Calls Node) (names : List Str) (o : Option Node)
    → AreText names
    → open_from calls (length names) (buffer names) o ≡ open_names calls names o
unfolding open_from open_names
open_from-names calls [] none text = refl
open_from-names calls (s ∷ names) none text = refl
open_from-names calls [] (some n) text = refl
open_from-names calls (s ∷ names) (some n) text =
    ap
      (λ (off : List ℕ).
        open_from calls (length names) off
          (calls.finddir_vfs n (string_at (s ++ 0 ∷ buffer names))))
      (skip_string-append s (buffer names) text.0)
    ∙ ap (λ (t : Str). open_from calls (length names) (buffer names) (calls.finddir_vfs n t))
        (string_at-append s (buffer names) text.0)
    ∙ open_from-names calls names (calls.finddir_vfs n s) text.1

AreText-append : (names rest : List Str) → AreText (names ++ rest) → AreText rest
AreText-append [] rest t = t
AreText-append (s ∷ names) rest t = AreText-append names rest t.1

-- For a path whose first names lead to a mount point, and none of its further names does, `kopen` looks the
-- further names up one after the other from the root of what is mounted there, and opens what it finds.
pub kopen-mounted :
    {Node : Type 0} (calls : Calls Node) (cwd relpath : Str) (s : Str) (names rest : List Str)
    (n : MountNode) (sb : ℕ)
    → canonicalize_path cwd relpath ≡ canonical (spell (s ∷ names ++ rest))
    → ArePlain (s ∷ names ++ rest)
    → mounted (s ∷ names) n ≡ some sb
    → IsDeepest (s ∷ names) rest n
    → kopen calls cwd relpath (some n) ≡ some (open_names calls rest (calls.root_of (some sb)))
unfolding kopen open_path get_local_root local_root_from
kopen-mounted calls cwd relpath s names rest n sb path plain at free =
    let l = spell-Lays s (names ++ rest) plain in
    let best : LocalRoot = record {
      sb = sb_of n;
      off = buffer ([] ∷ s ∷ names ++ rest);
      depth = length ([] ∷ s ∷ names ++ rest);
    } in
    let deep : length ([] ∷ s ∷ names ++ rest) == 1 ≡ false = ground arith in
    let root =
      local_root_from-names (s ∷ names ++ rest) n best plain l.text.1
      ∙ look_names-mounted s names rest n best sb at free in
    rw (path, l.depth, l.bytes, deep, root)
      (ap (λ (o : Opened _). some o)
        (open_from-names calls rest (calls.root_of (some sb))
          (AreText-append (s ∷ names) rest l.text.1)))

-- For a path with names of which none leads to a mount point, `kopen` looks up an empty name first, in what
-- it takes for the root of the superblock that is mounted at the root, or of NULL.
pub kopen-unmounted :
    {Node : Type 0} (calls : Calls Node) (cwd relpath : Str) (s : Str) (names : List Str)
    (n : MountNode)
    → canonicalize_path cwd relpath ≡ canonical (spell (s ∷ names))
    → ArePlain (s ∷ names)
    → NoneBelow (s ∷ names) n
    → kopen calls cwd relpath (some n)
      ≡ some (open_names calls ([] ∷ s ∷ names) (calls.root_of (sb_of n)))
unfolding kopen open_path get_local_root local_root_from
kopen-unmounted calls cwd relpath s names n path plain free =
    let l = spell-Lays s names plain in
    let best : LocalRoot = record {
      sb = sb_of n;
      off = buffer ([] ∷ s ∷ names);
      depth = length ([] ∷ s ∷ names);
    } in
    let deep : length ([] ∷ s ∷ names) == 1 ≡ false = ground arith in
    let root =
      local_root_from-names (s ∷ names) n best plain l.text.1
      ∙ look_names-best (s ∷ names) n best free in
    rw (path, l.depth, l.bytes, deep, root)
      (ap (λ (o : Opened _). some o)
        (open_from-names calls ([] ∷ s ∷ names) (calls.root_of (sb_of n)) l.text))
