-- ===== src/Devfs.antt =====
-- kernel/fs/dev.c: the file system of devices. The files are the list from the root on, by ascending inode, and
-- a node that a caller holds is known by its inode, whose `private_data` is the list of the file's own
-- entries. Times and semaphores are left out. `none` is a read or write at NULL or at freed memory.
pub mod Table
pub mod Changes
pub mod Inodes
pub mod Linked
pub mod Opening
pub mod Names
pub mod Blocks
use dionysus.Prelude.{
  ℕ, zero, suc, ◌+◌, ◌-◌, ◌*◌, ◌/◌, ◌%◌, ◌^◌, Bool, true, false, not, ◌&&◌, ◌||◌, Option, none,
  some, List, [], ◌∷◌, ◌++◌, ltb, ◌==◌, if◌then◌else◌, get_elem?,
}
use dionysus.Prelude.Bits.{test_bit}
use dionysus.Prelude.Int.{ℤ, pos, negsuc, ◌+ℤ◌, ◌-ℤ◌, ltb_ℤ}
use dionysus.Prelude.Str.{Str, str_eq}
use dionysus.Errno.{err, ebusy, einval, enoent, enomem, enotdir}

-- struct dirent
pub record Dirent : Type 0 where
  pub ino : ℕ
  pub name : Str

-- struct dev_file, without `next`
pub record DevFile : Type 0 where
  pub inode : ℕ
  pub mode : ℕ
  pub uid : ℕ
  pub gid : ℕ
  pub dev : ℕ
  pub refcount : ℤ
  pub nlink : ℕ
  pub entries : Option (List Dirent)  -- `private_data`, for a directory

pub get_inode : (inode : ℕ) → List DevFile → Option DevFile
get_inode inode [] = none
get_inode inode (f ∷ fs) =
    let rest = get_inode inode fs in
    if f.inode == inode then some f else if ltb inode f.inode then none else rest

-- an assignment through the pointer that `get_inode` returns
pub update_file : (inode : ℕ) → (DevFile → DevFile) → List DevFile → List DevFile
update_file inode g [] = []
update_file inode g (f ∷ fs) = if f.inode == inode then g f ∷ fs else f ∷ update_file inode g fs

-- the place of `file` behind a file with a smaller inode
pub insert_behind : DevFile → List DevFile → List DevFile
insert_behind file [] = file ∷ []
insert_behind file (f ∷ fs) =
    if ltb file.inode f.inode then file ∷ f ∷ fs else f ∷ insert_behind file fs

-- `prev` is NULL if the loop stops at the first file.
pub file_insert : DevFile → List DevFile → Option (List DevFile)
unfolding insert_behind
file_insert file [] = none
file_insert file (f ∷ fs) =
    if ltb file.inode f.inode then none else some (f ∷ insert_behind file fs)

abbrev pub and_file : DevFile → Option (List DevFile) → Option (List DevFile)
and_file f none = none
and_file f (some fs) = some (f ∷ fs)

-- the loop behind the first file
pub remove_behind : (inode : ℕ) → List DevFile → Option (List DevFile)
remove_behind inode [] = none
remove_behind inode (f ∷ fs) =
    let rest = remove_behind inode fs in
    if f.inode == inode
    then some fs
    else if ltb inode f.inode
    then some (f ∷ fs)
    else and_file f rest

pub file_remove : (inode : ℕ) → List DevFile → Option (List DevFile)
unfolding remove_behind
file_remove inode [] = none
file_remove inode (f ∷ fs) =
    if f.inode == inode
    then none
    else if ltb inode f.inode
    then some (f ∷ fs)
    else and_file f (remove_behind inode fs)

-- the loop of `get_empty_inode`, from the number that it has come to
pub empty_from : (inode : ℕ) → List DevFile → ℕ
empty_from inode [] = inode
empty_from inode (f ∷ fs) =
    let rest = empty_from ((f.inode + 1) % 2 ^ 32) fs in if ltb inode f.inode then inode else rest

pub get_empty_inode : List DevFile → ℕ
unfolding empty_from
get_empty_inode fs = empty_from 0 fs

-- the root's mode: 0755 and VFS_DIR
abbrev pub root_mode : ℕ
root_mode = 131565

-- the file of a new superblock; `allocs` tells whether its allocations succeed
pub return_sb : (dev : ℕ) → (allocs : Bool) → Option (List DevFile)
return_sb dev allocs =
    if not (dev == 0)
    then none
    else if not allocs
    then none
    else some (
        record {
          inode = 0;
          mode = root_mode;
          uid = 0;
          gid = 0;
          dev = 0;
          refcount = pos 0;
          nlink = 1;
          entries = some [];
        }
        ∷ [])

abbrev pub is_zero : ℤ → Bool
is_zero (pos n) = n == 0
is_zero (negsuc n) = false

abbrev pub vfs_dir : ℕ → Bool
vfs_dir mode = test_bit 17 mode

-- VFS_TYPE_MASK and VFS_PERM_MASK
abbrev pub vfs_type : ℕ → ℕ
vfs_type mode = mode / 2 ^ 16 % 2 ^ 8 * 2 ^ 16

abbrev pub vfs_perm : ℕ → ℕ
vfs_perm mode = mode % 2 ^ 12

-- a call's result, and the files after it
abbrev pub Done : Type 0
Done = Option (ℤ × List DevFile)

-- whether a file is still open, in `close_fs`
pub any_open : List DevFile → Bool
any_open [] = false
any_open (f ∷ fs) = ltb_ℤ (pos 0) f.refcount || any_open fs

-- The files are freed but for a failure, which also leaves the semaphore taken.
pub close_fs : (force : Bool) → List DevFile → ℤ × List DevFile
unfolding any_open
close_fs force fs = if not force && any_open fs then (err ebusy, fs) else (pos 0, [])

-- `open` and `close`, with what the driver's function returns, or 0 for none
open_master : (ret : ℤ) → Option DevFile → List DevFile → ℤ × List DevFile
open_master ret none fs = (err enoent, fs)
open_master ret (some f) fs =
    if f.nlink == 0
    then (err enoent, fs)
    else if not (is_zero ret)
    then (ret, fs)
    else (ret, update_file f.inode (λ g. record g { refcount = g.refcount +ℤ pos 1 }) fs)

pub devfs_open : (inode : ℕ) → (ret : ℤ) → List DevFile → ℤ × List DevFile
unfolding open_master
devfs_open inode ret fs = open_master ret (get_inode inode fs) fs

abbrev pub with_code : ℤ → Option (List DevFile) → Done
with_code ret none = none
with_code ret (some fs) = some (ret, fs)

close_master : (ret : ℤ) → Option DevFile → List DevFile → Done
close_master ret none fs = some (pos 0, fs)
close_master ret (some f) fs =
    let left = f.refcount -ℤ pos 1 in
    let fs' = update_file f.inode (λ g. record g { refcount = left }) fs in
    if not (is_zero left)
    then some (pos 0, fs')
    else if is_zero ret && f.nlink == 0
    then with_code ret (file_remove f.inode fs')
    else some (ret, fs')

pub devfs_close : (inode : ℕ) → (ret : ℤ) → List DevFile → Done
unfolding close_master
devfs_close inode ret fs = close_master ret (get_inode inode fs) fs
