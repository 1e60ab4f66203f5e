-- ===== src/Vfs/Nodes/Laws.antt =====
-- What the guards of the calls on nodes ensure.
use dionysus.Prelude.{ℕ, suc, ◌≡◌, Bool, true, false, not, none, some, ◌==◌, ◌&&◌, arith}
use dionysus.Prelude.Str.{Str}
use dionysus.Prelude.Int.{ℤ, pos, ◌+ℤ◌, ◌-ℤ◌, ltb_ℤ}
use dionysus.Vfs.Nodes.{
  VfsNode, or_code, vfs_dir, o_wronly, mnt_rdonly, open_vfs, close_vfs, clone_file, finddir_vfs,
  create_vfs, link_vfs, unlink_vfs,
}

-- a code that reports no error
abbrev pub succeeds : ℤ → Bool
succeeds r = not (ltb_ℤ r (pos 0))

-- `open_vfs` succeeds on a file system mounted for reading only only without O_WRONLY.
pub open_vfs-read_only :
    (node : VfsNode) (flags : ℕ) (r : ℤ) (after : VfsNode)
    → open_vfs node flags ≡ (r, after)
    → succeeds r ≡ true
    → (mnt_rdonly node.sb_flags && o_wronly flags) ≡ false
unfolding open_vfs
open_vfs-read_only node flags r after e good = ground arith

count_up : (n : ℕ) → pos (suc n) +ℤ pos 1 ≡ pos (suc (suc n))
unfolding ◌+ℤ◌
count_up n = ground arith

count_down : (n : ℕ) → pos (suc (suc n)) -ℤ pos 1 ≡ pos (suc n)
unfolding ◌-ℤ◌
count_down n = ground arith

-- a node with a positive count
abbrev pub counted : VfsNode → ℕ → VfsNode
counted node n = record node { refcount = pos (suc n) }

-- `clone_file` of a node that is counted counts it once more and makes no copy, and a `close_vfs` then
-- frees nothing and gives back the count; `close_vfs` at the count 1 frees the node and returns what
-- the file system's close returns, or 0.
pub close_vfs-clone_file :
    (node : VfsNode) (n : ℕ)
    → (clone_file (counted node n) ≡ (false, counted node (suc n)))
      × (close_vfs (counted node (suc n)) ≡ (pos 0, some (counted node n)))
      × (close_vfs (counted node 0) ≡ (or_code node.close_op (pos 0), none))
unfolding clone_file close_vfs
close_vfs-clone_file node n =
    let positive : ltb_ℤ (pos (suc n)) (pos 0) ≡ false = ground arith in
    let some_left : suc n == 0 ≡ false = ground arith in
    let last : pos 1 -ℤ pos 1 ≡ pos 0 = unfold ◌-ℤ◌ in ground arith in
    (rw (positive, count_up n), rw (count_down n, some_left), rw last)

-- `create_vfs` and `link_vfs` succeed only for a directory that holds no such name, `link_vfs` only
-- within one file system, and `unlink_vfs` only for a directory.
pub create_vfs-guards :
    (parent : VfsNode) (fname : Str) (uid gid mode dev child child_sb : ℕ)
    → (succeeds (create_vfs (some parent) fname uid gid mode dev) ≡ (
        succeeds (create_vfs (some parent) fname uid gid mode dev)
        && vfs_dir parent.mode
        && not (finddir_vfs parent fname)))
      × (succeeds (link_vfs (some parent) child child_sb fname) ≡ (
          succeeds (link_vfs (some parent) child child_sb fname)
          && vfs_dir parent.mode
          && (parent.sb == child_sb)
          && not (finddir_vfs parent fname)))
      × (succeeds (unlink_vfs (some parent) fname)
          ≡ (succeeds (unlink_vfs (some parent) fname) && vfs_dir parent.mode))
unfolding create_vfs link_vfs unlink_vfs
create_vfs-guards parent fname uid gid mode dev child child_sb =
    (ground arith, ground arith, ground arith)
