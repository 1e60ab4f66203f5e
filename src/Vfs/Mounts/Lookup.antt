-- ===== src/Vfs/Mounts/Lookup.antt =====
-- kernel/vfs.c: `get_local_root` and `kopen`.
pub mod Laws
use dionysus.Prelude.{
  ℕ, zero, suc, ◌+◌, ◌-◌, Bool, true, false, not, ◌&&◌, ◌||◌, Option, none, some, List, [], ◌∷◌,
  ◌==◌, if◌then◌else◌, length, drop,
}
use dionysus.Prelude.Bits.{test_bit}
use dionysus.Prelude.Int.{ℤ, pos, negsuc, ltb_ℤ}
use dionysus.Prelude.Str.{Str, str_eq}
use dionysus.Errno.{err, ebusy, einval, enodev, enoent, enotblk}
use dionysus.Vfs.Nodes.{is_zero}
use dionysus.Vfs.Canonical.{
  tokenize, tokenize_depth, string_at, skip_string, Canonical, canonical, out_of_bounds, dangling,
  canonicalize_path,
}
use dionysus.Vfs.Mounts.{
  MountNode, mount_node, MountNodes, leaf, child, name_of, sb_of, children_of, set_sb, find_child,
  two_or_more, Walked, prune, ascend, at_root, Result, result_of,
}

-- What `get_local_root` ends with: the superblock of the root that is copied, where NULL is read for none,
-- and the rest of the path.
pub record LocalRoot : Type 0 where
  pub sb : Option ℕ
  pub off : List ℕ
  pub depth : ℕ

-- the part of the loop that keeps the last mount point
abbrev pub keep_root : Option ℕ → List ℕ → ℕ → LocalRoot → LocalRoot
keep_root none off depth best = best
keep_root (some sb) off depth best = record { sb = some sb; off = off; depth = depth }

abbrev pub follow : Option MountNode → LocalRoot → (MountNode → Option LocalRoot) → Option LocalRoot
follow none best next = some best
follow (some n) best next = next n

pub local_root_from : ℕ → List ℕ → MountNode → LocalRoot → Option LocalRoot
unfolding find_child
local_root_from zero off n best = some best
local_root_from (suc depth) [] n best = none
local_root_from (suc depth) (zero ∷ off) n best = local_root_from depth off n best
local_root_from (suc depth) (suc c ∷ off) n best =
    let s = string_at (suc c ∷ off) in
    follow (find_child s (children_of n)) best (λ m.
      (let off' = skip_string (suc c ∷ off) in
        local_root_from depth off' m (keep_root (sb_of m) off' depth best)))

pub get_local_root : ℕ → List ℕ → MountNode → Option LocalRoot
unfolding local_root_from
get_local_root depth off n =
    local_root_from depth off n (record { sb = sb_of n; off = off; depth = depth })

-- The calls of a file system: `root_of` gives the root of a superblock, and what is read at NULL for none.
pub record Calls (Node : Type 0) : Type 0 where
  pub root_of : Option ℕ → Option Node
  pub finddir_vfs : Node → Str → Option Node
  pub open_vfs : Node → ℤ

-- the node that is returned, or NULL, and `openret`
abbrev pub Opened : Type 0 → Type 0
Opened Node = Option Node × ℤ

abbrev pub open_node : {Node : Type 0} → Calls Node → Node → Opened Node
open_node calls n = (if ltb_ℤ (calls.open_vfs n) (pos 0) then none else some n, calls.open_vfs n)

-- The loop of `kopen` from a node on, where the depth is not 0.
pub open_from : {Node : Type 0} → Calls Node → ℕ → List ℕ → Option Node → Opened Node
open_from calls depth off none = (none, err enoent)
open_from calls zero off (some n) = open_node calls n
open_from calls (suc depth) off (some n) =
    open_from calls depth (skip_string off) (calls.finddir_vfs n (string_at off))

abbrev pub open_local : {Node : Type 0} → Calls Node → Option LocalRoot → Option (Opened Node)
open_local calls none = none
open_local calls (some r) = some (open_from calls r.depth r.off (calls.root_of r.sb))

-- A path of depth 1 has its node copied from a mountpoint, which is none.
open_path : {Node : Type 0} → Calls Node → Canonical → Option MountNode → Option (Opened Node)
unfolding get_local_root open_from
open_path calls (canonical path) (some n) =
    if tokenize_depth path == 1
    then none
    else open_local calls (get_local_root (tokenize_depth path) (tokenize path) n)
open_path calls p root = none

pub kopen :
    {Node : Type 0} → Calls Node → (cwd relpath : Str) → Option MountNode → Option (Opened Node)
unfolding open_path
kopen calls cwd relpath root = open_path calls (canonicalize_path cwd relpath) root
