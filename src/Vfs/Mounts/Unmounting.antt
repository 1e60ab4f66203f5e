-- ===== src/Vfs/Mounts/Unmounting.antt =====
-- kernel/vfs.c: `umount`.
pub mod Laws
use dionysus.Prelude.{
  ℕ, zero, suc, ◌+◌, ◌-◌, Bool, true, false, not, ◌&&◌, ◌||◌, Option, none, some, List, [], ◌∷◌,
  ◌==◌, if◌then◌else◌, length, drop,
}
use dionysus.Prelude.Bits.{test_bit}
use dionysus.Prelude.Int.{ℤ, pos, negsuc, ltb_ℤ}
use dionysus.Prelude.Str.{Str, str_eq}
use dionysus.Errno.{err, ebusy, einval, enodev, enoent, enotblk}
use dionysus.Vfs.Nodes.{is_zero}
use dionysus.Vfs.Canonical.{
  tokenize, tokenize_depth, string_at, skip_string, Canonical, canonical, out_of_bounds, dangling,
  canonicalize_path,
}
use dionysus.Vfs.Mounts.{
  MountNode, mount_node, MountNodes, leaf, child, name_of, sb_of, children_of, set_sb, find_child,
  two_or_more, Walked, prune, ascend, at_root, Result, result_of,
}

-- `umount` at the node that it has come to; `close_fs` gives the result of the superblock's function
close_super : (close_fs : ℕ → ℤ) → ℕ → MountNode → Walked
unfolding prune
close_super close_fs sb n =
    if is_zero (close_fs sb)
    then prune (pos 0) (set_sb none n)
    else record { code = err ebusy; pruning = false; node = n }

umount_super : (close_fs : ℕ → ℤ) → (detach : Bool) → Option ℕ → MountNode → Walked
unfolding close_super
umount_super close_fs detach none n = record { code = err einval; pruning = false; node = n }
umount_super close_fs detach (some sb) n =
    if not detach && two_or_more (children_of n)
    then record { code = err ebusy; pruning = false; node = n }
    else close_super close_fs sb n

abbrev pub descend :
    Str → MountNode → Option MountNode → (MountNode → Option Walked) → Option Walked
descend s n none next = some (record { code = err enoent; pruning = false; node = n })
descend s n (some m) next = ascend s n (next m)

-- The loop of `umount` over the path, which goes on at the NUL of a name, not behind it.
pub umount_from : (close_fs : ℕ → ℤ) → (detach : Bool) → ℕ → List ℕ → MountNode → Option Walked
unfolding find_child ascend umount_super
umount_from close_fs detach zero off n = some (umount_super close_fs detach (sb_of n) n)
umount_from close_fs detach (suc depth) [] n = none
umount_from close_fs detach (suc depth) (zero ∷ off) n = umount_from close_fs detach depth off n
umount_from close_fs detach (suc depth) (suc c ∷ off) n =
    let s = string_at (suc c ∷ off) in
    descend s n (find_child s (children_of n))
      (umount_from close_fs detach depth (drop (length s) (suc c ∷ off)))

umount_path : (close_fs : ℕ → ℤ) → (detach : Bool) → Canonical → Option MountNode → Result
unfolding umount_from
umount_path close_fs detach (canonical path) (some n) =
    result_of (at_root (umount_from close_fs detach (tokenize_depth path) (tokenize path) n))
umount_path close_fs detach p root = none

pub umount :
    (close_fs : ℕ → (force : Bool) → ℤ)
    → (cwd relpath : Str) → (flags : ℕ) → Option MountNode
    → Result
unfolding umount_path
umount close_fs cwd relpath flags root =
    umount_path (λ sb. close_fs sb (test_bit 1 flags)) (test_bit 2 flags)
      (canonicalize_path cwd relpath) root
