-- ===== src/Vfs/Nodes.antt =====
-- kernel/vfs.c: the calls on nodes, which guard the functions of a file system. A function of a file
-- system is a field that may be NULL; what it does to the disk is not modelled, only what it returns.
pub mod Laws
mod Examples
use dionysus.Prelude.{
  ℕ, Bool, true, false, not, Option, none, some, ◌==◌, if◌then◌else◌, ◌&&◌, ◌||◌,
}
use dionysus.Prelude.Bits.{test_bit}
use dionysus.Prelude.Str.{Str}
use dionysus.Prelude.Int.{ℤ, pos, negsuc, ◌+ℤ◌, ◌-ℤ◌, ltb_ℤ}
use dionysus.Errno.{err, eperm, eacces, ebadf, enotdir, eexist, exdev, enotty, einval, erofs}

-- the fields of an fs_node_t that these calls use; `sb` stands for its superblock's address
pub record VfsNode : Type 0 where
  pub mode : ℕ
  pub flags : ℕ
  pub refcount : ℤ
  pub sb : ℕ
  pub sb_flags : ℕ
  pub open_op : Option (ℕ → ℤ)
  pub close_op : Option ℤ
  pub readdir_op : Option (ℕ → ℤ)
  pub finddir_op : Option (Str → Bool)  -- whether a node is found
  pub ioctl_op : Option (ℕ → ℤ)
  pub create_op : Option (Str → (uid gid mode dev : ℕ) → ℤ)
  pub link_op : Option ((child : ℕ) → Str → ℤ)
  pub unlink_op : Option (Str → ℤ)

abbrev pub is_minus_one : ℤ → Bool
is_minus_one (pos n) = false
is_minus_one (negsuc n) = n == 0

abbrev pub is_zero : ℤ → Bool
is_zero (pos n) = n == 0
is_zero (negsuc n) = false

-- an op that is called with its arguments already given
abbrev pub or_code : Option ℤ → ℤ → ℤ
or_code none code = code
or_code (some r) code = r

abbrev pub vfs_dir : ℕ → Bool
vfs_dir mode = test_bit 17 mode

-- VFS_CHARDEV or VFS_BLOCKDEV
abbrev pub vfs_device : ℕ → Bool
vfs_device mode = test_bit 18 mode || test_bit 19 mode

abbrev pub o_wronly : ℕ → Bool
o_wronly flags = test_bit 1 flags

abbrev pub mnt_rdonly : ℕ → Bool
mnt_rdonly flags = test_bit 0 flags

open_code : Option (ℕ → ℤ) → ℕ → ℤ
open_code none flags = err eacces
open_code (some op) flags = op flags

-- the code and the node afterwards
pub open_vfs : VfsNode → (flags : ℕ) → ℤ × VfsNode
unfolding open_code
open_vfs node flags =
    let opened = record node { flags = flags } in
    let ret = open_code node.open_op flags in
    if mnt_rdonly node.sb_flags && o_wronly flags
    then (err erofs, node)
    else if is_minus_one node.refcount
    then (pos 0, opened)
    else if not (ltb_ℤ node.refcount (pos 0)) && not (ltb_ℤ ret (pos 0))
    then (ret, record opened { refcount = node.refcount +ℤ pos 1 })
    else (ret, opened)

-- the code and the node afterwards, `none` once it is freed
pub close_vfs : VfsNode → ℤ × Option VfsNode
close_vfs node =
    let left = node.refcount -ℤ pos 1 in
    if is_minus_one node.refcount
    then (pos 0, none)
    else if is_zero left
    then (or_code node.close_op (pos 0), none)
    else (pos 0, some record node { refcount = left })

-- whether the result is a copy of the node, and the node afterwards; the copy's allocation succeeds
pub clone_file : VfsNode → Bool × VfsNode
clone_file node =
    if is_minus_one node.refcount
    then (true, node)
    else if ltb_ℤ node.refcount (pos 0)
    then (false, node)
    else (false, record node { refcount = node.refcount +ℤ pos 1 })

readdir_code : Option (ℕ → ℤ) → ℕ → ℤ
readdir_code none index = negsuc 0
readdir_code (some op) index = op index

pub readdir_vfs : VfsNode → (index : ℕ) → ℤ
unfolding readdir_code
readdir_vfs node index =
    if not (vfs_dir node.mode) then err enotdir else readdir_code node.readdir_op index

finds : Option (Str → Bool) → Str → Bool
finds none name = false
finds (some op) name = op name

pub finddir_vfs : VfsNode → Str → Bool
unfolding finds
finddir_vfs node name = if not (vfs_dir node.mode) then false else finds node.finddir_op name

ioctl_code : Option (ℕ → ℤ) → ℕ → ℤ
ioctl_code none req = err einval
ioctl_code (some op) req = op req

pub ioctl_vfs : VfsNode → (req : ℕ) → ℤ
unfolding ioctl_code
ioctl_vfs node req = if not (vfs_device node.mode) then err enotty else ioctl_code node.ioctl_op req

create_code : Option (Str → (uid gid mode dev : ℕ) → ℤ) → Str → (uid gid mode dev : ℕ) → ℤ
create_code none fname uid gid mode dev = err eacces
create_code (some op) fname uid gid mode dev = op fname uid gid mode dev

pub create_vfs : Option VfsNode → Str → (uid gid mode dev : ℕ) → ℤ
unfolding create_code
create_vfs none fname uid gid mode dev = err ebadf
create_vfs (some parent) fname uid gid mode dev =
    if not (vfs_dir parent.mode)
    then err enotdir
    else if finddir_vfs parent fname
    then err eexist
    else create_code parent.create_op fname uid gid mode dev

link_code : Option ((child : ℕ) → Str → ℤ) → ℕ → Str → ℤ
link_code none child fname = err eperm
link_code (some op) child fname = op child fname

-- `child` is the number of the child's node, and `child_sb` its superblock
pub link_vfs : Option VfsNode → (child child_sb : ℕ) → Str → ℤ
unfolding link_code
link_vfs none child child_sb fname = err ebadf
link_vfs (some parent) child child_sb fname =
    if not (vfs_dir parent.mode)
    then err enotdir
    else if not (parent.sb == child_sb)
    then err exdev
    else if finddir_vfs parent fname
    then err eexist
    else link_code parent.link_op child fname

unlink_code : Option (Str → ℤ) → Str → ℤ
unlink_code none fname = err eacces
unlink_code (some op) fname = op fname

pub unlink_vfs : Option VfsNode → Str → ℤ
unfolding unlink_code
unlink_vfs none fname = err ebadf
unlink_vfs (some parent) fname =
    if not (vfs_dir parent.mode) then err enotdir else unlink_code parent.unlink_op fname
