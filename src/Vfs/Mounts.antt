-- ===== src/Vfs/Mounts.antt =====
-- kernel/vfs.c: the tree of mount points with `mount`, `umount` and `vfs_prune`, and the lookup of a path in
-- it, `get_local_root` and `kopen`, after `init_vfs`, where every allocation succeeds. A superblock is known by its address.
-- A call goes down the tree along the path and gives the changed tree back on its way up, where `vfs_prune`
-- decides what is deleted. `none` is a fault: a read at NULL or past a buffer, a use of what has been freed,
-- or a failed ASSERT.
pub mod Tree
pub mod Walks
pub mod Mounting
pub mod Unmounting
pub mod Lookup
mod Examples
use dionysus.Prelude.{
  ℕ, zero, suc, ◌+◌, ◌-◌, Bool, true, false, not, ◌&&◌, ◌||◌, Option, none, some, List, [], ◌∷◌,
  ◌==◌, if◌then◌else◌, length, drop,
}
use dionysus.Prelude.Bits.{test_bit}
use dionysus.Prelude.Int.{ℤ, pos, negsuc, ltb_ℤ}
use dionysus.Prelude.Str.{Str, str_eq}
use dionysus.Errno.{err, ebusy, einval, enodev, enoent, enotblk}
use dionysus.Vfs.Nodes.{is_zero}
use dionysus.Vfs.Canonical.{
  tokenize, tokenize_depth, string_at, skip_string, Canonical, canonical, out_of_bounds, dangling,
  canonicalize_path,
}

-- A node of the tree, with its mountpoint: the name, the superblock or NULL, and the children.
mutual
  pub data MountNode : Type 0 where
    mount_node : Str → Option ℕ → MountNodes → MountNode

  pub data MountNodes : Type 0 where
    leaf : MountNodes
    child : MountNode → MountNodes → MountNodes

abbrev pub name_of : MountNode → Str
name_of (mount_node name sb kids) = name

abbrev pub sb_of : MountNode → Option ℕ
sb_of (mount_node name sb kids) = sb

abbrev pub children_of : MountNode → MountNodes
children_of (mount_node name sb kids) = kids

abbrev pub set_sb : Option ℕ → MountNode → MountNode
set_sb sb (mount_node name old kids) = mount_node name sb kids

abbrev pub set_children : MountNodes → MountNode → MountNode
set_children kids (mount_node name sb old) = mount_node name sb kids

-- the loop over the children for a name
pub find_child : Str → MountNodes → Option MountNode
find_child s leaf = none
find_child s (child n ns) = if str_eq (name_of n) s then some n else find_child s ns

-- The child with a name in a new state, or a new child at the end.
pub put_child : Str → MountNode → MountNodes → MountNodes
put_child s m leaf = child m leaf
put_child s m (child n ns) = if str_eq (name_of n) s then child m ns else child n (put_child s m ns)

-- `children->head != children->tail`
abbrev pub two_or_more : MountNodes → Bool
two_or_more leaf = false
two_or_more (child n leaf) = false
two_or_more (child n (child m ns)) = true

abbrev pub is_mounted : Option ℕ → Bool
is_mounted none = false
is_mounted (some sb) = true

-- What a call leaves of a node: its result, and whether `vfs_prune` has taken the node into the branch that
-- it will delete.
pub record Walked : Type 0 where
  pub code : ℤ
  pub pruning : Bool
  pub node : MountNode

-- the loop of `vfs_prune` at the node that it starts from
pub prune : ℤ → MountNode → Walked
prune code n = record { code = code; pruning = not (two_or_more (children_of n)); node = n }

-- A parent after a call on its child: the loop of `vfs_prune` at the parent, or the branch's deletion, for
-- which `tree_delete_branch` has `list_remove` free the tree node, and then reads it and frees it again.
pub ascend : Str → MountNode → Option Walked → Option Walked
unfolding put_child
ascend s n none = none
ascend s n (some w) =
    let kids = put_child s w.node (children_of n) in
    let stops = two_or_more kids || is_mounted (sb_of n) in
    if w.pruning && stops
    then none
    else some (record { code = w.code; pruning = w.pruning; node = set_children kids n })

-- The tree afterwards. A branch that takes in the root is a read at NULL: the root has no parent.
abbrev pub at_root : Option Walked → Option (ℤ × MountNode)
at_root none = none
at_root (some w) = if w.pruning then none else some (w.code, w.node)

abbrev pub child_or_new : Str → Option MountNode → MountNode
child_or_new s none = mount_node s none leaf
child_or_new s (some n) = n

-- `mount` at the node that it has come to; `entry` is NULL if there was no name in the path
pub mount_super : Option ℕ → MountNode → Walked
unfolding prune
mount_super none n = prune (err enodev) n
mount_super (some sb) n = record { code = pos 0; pruning = false; node = set_sb (some sb) n }

pub mount_here : (super : Option ℕ) → (entry : Bool) → MountNode → Option Walked
unfolding mount_super
mount_here super entry n =
    if not entry || is_mounted (sb_of n) then none else some (mount_super super n)

-- the loop of `mount` over the path
pub mount_from : (super : Option ℕ) → ℕ → List ℕ → (entry : Bool) → MountNode → Option Walked
unfolding find_child ascend mount_here
mount_from super zero off entry n = mount_here super entry n
mount_from super (suc depth) [] entry n = none
mount_from super (suc depth) (zero ∷ off) entry n = mount_from super depth off entry n
mount_from super (suc depth) (suc c ∷ off) entry n =
    let s = string_at (suc c ∷ off) in
    ascend s n (
      mount_from super depth (skip_string (suc c ∷ off)) true
        (child_or_new s (find_child s (children_of n))))

-- struct file_system_type, and the fields of a device's node that `mount` reads
pub record FileSystem : Type 0 where
  pub flags : ℕ
  pub get_super : (dev flags : ℕ) → Option ℕ

pub record Device : Type 0 where
  pub mode : ℕ
  pub dev : ℕ

-- the error of the first checks, or 0
abbrev pub checks : Option Device → FileSystem → ℤ
checks none fs = if test_bit 0 fs.flags then pos 0 else err enodev
checks (some d) fs = if test_bit 19 d.mode then pos 0 else err enotblk

abbrev pub super_of : Option Device → ℕ → FileSystem → Option ℕ
super_of none flags fs = fs.get_super 0 flags
super_of (some d) flags fs = fs.get_super d.dev flags

-- the root that `mount` makes in an empty tree
abbrev pub root_or_new : Option MountNode → MountNode
root_or_new none = mount_node (91 ∷ 114 ∷ 111 ∷ 111 ∷ 116 ∷ 93 ∷ []) none leaf
root_or_new (some n) = n

-- A call's result and the tree after it; the tree is empty before the first call.
abbrev pub Result : Type 0
Result = Option (ℤ × Option MountNode)

abbrev pub result_of : Option (ℤ × MountNode) → Result
result_of none = none
result_of (some (code, n)) = some (code, some n)

pub mount_path : (super : Option ℕ) → Canonical → MountNode → Result
unfolding mount_from
mount_path super (canonical path) n =
    result_of (at_root (mount_from super (tokenize_depth path) (tokenize path) false n))
mount_path super out_of_bounds n = none
mount_path super dangling n = none

mount_fs :
    Option Device
    → (cwd relpath : Str) → (flags : ℕ) → Option FileSystem
    → Option MountNode
    → Result
unfolding mount_path
mount_fs dev cwd relpath flags none root = some (err enodev, root)
mount_fs dev cwd relpath flags (some fs) root =
    if is_zero (checks dev fs)
    then mount_path (super_of dev flags fs) (canonicalize_path cwd relpath) (root_or_new root)
    else some (checks dev fs, root)

-- `fs` is what `hashmap_find` finds under the file system's name, if there are file systems.
pub mount :
    Option Device
    → (cwd relpath : Str) → (fs_types : Bool) → (fs : Option FileSystem) → (flags : ℕ)
    → Option MountNode
    → Result
unfolding mount_fs
mount dev cwd relpath fs_types fs flags root =
    if fs_types then mount_fs dev cwd relpath flags fs root else some (err enoent, root)
