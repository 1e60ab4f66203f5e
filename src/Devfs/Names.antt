-- ===== src/Devfs/Names.antt =====
-- kernel/fs/dev.c: the calls on the names of a directory.
pub mod Create
pub mod Link
pub mod Counts
pub mod Unlink
pub mod Reach
pub mod Found
mod Examples
use dionysus.Prelude.{
  ℕ, ◌+◌, ◌-◌, ◌%◌, ◌^◌, Bool, true, false, not, ◌&&◌, ◌||◌, Option, none, some, List, [], ◌∷◌,
  ◌++◌, ◌==◌, if◌then◌else◌, get_elem?,
}
use dionysus.Prelude.Int.{ℤ, pos}
use dionysus.Prelude.Str.{Str, str_eq}
use dionysus.Errno.{err, einval, enoent, enomem, enotdir}
use dionysus.Devfs.{
  Dirent, DevFile, Done, get_inode, update_file, file_insert, file_remove, get_empty_inode, vfs_dir,
  vfs_type, vfs_perm, is_zero, with_code,
}

pub find_entry : (fname : Str) → List Dirent → Option Dirent
find_entry fname [] = none
find_entry fname (d ∷ ds) = if str_eq d.name fname then some d else find_entry fname ds

-- `list_remove` of the entry that was found
pub remove_entry : (fname : Str) → List Dirent → List Dirent
remove_entry fname [] = []
remove_entry fname (d ∷ ds) = if str_eq d.name fname then ds else d ∷ remove_entry fname ds

abbrev pub map_entries : (List Dirent → List Dirent) → Option (List Dirent) → Option (List Dirent)
map_entries g none = none
map_entries g (some ds) = some (g ds)

abbrev entry_at : ℕ → Option (List Dirent) → Option (Option Dirent)
entry_at i none = none
entry_at i (some ds) = some (get_elem? ds i)

-- the entries that a call on a directory walks over, if they are there
abbrev entries_of : Option DevFile → Option (List Dirent)
entries_of none = none
entries_of (some f) = f.entries

search : (fname : Str) → Option (List Dirent) → Option (Option Dirent)
unfolding find_entry
search fname none = none
search fname (some ds) = some (find_entry fname ds)

pub file_of : List DevFile → Option (Option Dirent) → Option (Option DevFile)
unfolding get_inode
file_of fs none = none
file_of fs (some none) = some none
file_of fs (some (some d)) = some (get_inode d.ino fs)

-- a copy of the file that the name stands for, or NULL
pub finddir : (inode : ℕ) → (fname : Str) → List DevFile → Option (Option DevFile)
unfolding search file_of
finddir inode fname fs = file_of fs (search fname (entries_of (get_inode inode fs)))

-- the entry that is copied out, or NULL
pub readdir : (inode index : ℕ) → List DevFile → Option (Option Dirent)
unfolding get_inode
readdir inode index fs =
    if index == 0
    then some (some (record { ino = 0; name = 46 ∷ [] }))
    else if index == 1
    then some (some (record { ino = 0; name = 46 ∷ 46 ∷ [] }))
    else entry_at (index - 2) (entries_of (get_inode inode fs))

change : (inode : ℕ) → (DevFile → DevFile) → Option DevFile → List DevFile → ℤ × List DevFile
unfolding update_file
change inode g none fs = (err enoent, fs)
change inode g (some f) fs = (pos 0, update_file inode g fs)

pub chmod : (inode mode : ℕ) → List DevFile → ℤ × List DevFile
unfolding change get_inode
chmod inode mode fs =
    change inode (λ f. record f { mode = vfs_type f.mode + vfs_perm mode }) (get_inode inode fs) fs

pub chown : (inode uid gid : ℕ) → List DevFile → ℤ × List DevFile
unfolding change get_inode
chown inode uid gid fs =
    change inode (λ f. record f { uid = uid; gid = gid }) (get_inode inode fs) fs

-- which allocations succeed: the file's, the entry's, that of the new directory's list, and the list's node
pub record Allocs : Type 0 where
  pub file : Bool
  pub dirent : Bool
  pub list : Bool
  pub node : Bool

-- `list_insert`, which does nothing for NULL, and whose result is not looked at
abbrev pub append_entry : (node : Bool) → Dirent → DevFile → DevFile
append_entry node d f = record f {
  entries = if node then map_entries (λ ds. ds ++ d ∷ []) f.entries else f.entries;
}

-- the entry of a directory, if its file is there
pub insert_entry : (node : Bool) → (parent : ℕ) → Dirent → Option DevFile → List DevFile → Done
unfolding update_file
insert_entry node parent d none fs = none
insert_entry node parent d (some f) fs = some (pos 0, update_file parent (append_entry node d) fs)

create_entry : (node : Bool) → (parent : ℕ) → Dirent → Option (List DevFile) → Done
unfolding insert_entry get_inode
create_entry node parent d none = none
create_entry node parent d (some fs) = insert_entry node parent d (get_inode parent fs) fs

pub new_file : (inode uid gid mode dev : ℕ) → DevFile
new_file inode uid gid mode dev = record {
  inode = inode;
  mode = mode;
  uid = uid;
  gid = gid;
  dev = dev;
  refcount = pos 0;
  nlink = 1;
  entries = if vfs_dir mode then some [] else none;
}

pub create : Allocs → (parent : ℕ) → (fname : Str) → (uid gid mode dev : ℕ) → List DevFile → Done
unfolding create_entry new_file file_insert get_empty_inode
create allocs parent fname uid gid mode dev fs =
    let inode = get_empty_inode fs in
    if not ((vfs_type mode == 2 ^ 17) || (vfs_type mode == 2 ^ 18) || (vfs_type mode == 2 ^ 19))
    then some (err einval, fs)
    else if not allocs.file || not allocs.dirent || (vfs_dir mode && not allocs.list)
    then some (err enomem, fs)
    else create_entry allocs.node parent (record { ino = inode; name = fname })
        (file_insert (new_file inode uid gid mode dev) fs)

link_master :
    (node : Bool) → (parent child : ℕ) → (fname : Str) → Option DevFile → List DevFile → Done
unfolding insert_entry update_file get_inode
link_master node parent child fname none fs = none
link_master node parent child fname (some f) fs =
    let fs' = update_file child (λ g. record g { nlink = (g.nlink + 1) % 2 ^ 32 }) fs in
    insert_entry node parent (record { ino = child; name = fname }) (get_inode parent fs') fs'

pub link : Allocs → (parent child : ℕ) → (fname : Str) → List DevFile → Done
unfolding link_master
link allocs parent child fname fs =
    if not allocs.dirent
    then some (err enomem, fs)
    else link_master allocs.node parent child fname (get_inode child fs) fs

-- `unlink`, once the entry is off the list
unlink_file : DevFile → List DevFile → Done
unfolding update_file file_remove
unlink_file f fs =
    let left = (f.nlink + 2 ^ 32 - 1) % 2 ^ 32 in
    let fs' = update_file f.inode (λ g. record g { nlink = left }) fs in
    if left == 0 && is_zero f.refcount
    then with_code (pos 0) (file_remove f.inode fs')
    else some (pos 0, fs')

abbrev pub drop_entry : (fname : Str) → DevFile → DevFile
drop_entry fname f = record f { entries = map_entries (remove_entry fname) f.entries }

unlink_child : (parent : ℕ) → (fname : Str) → Option (Option DevFile) → List DevFile → Done
unfolding unlink_file
unlink_child parent fname none fs = none
unlink_child parent fname (some none) fs = some (err enoent, fs)
unlink_child parent fname (some (some f)) fs =
    unlink_file f (update_file parent (drop_entry fname) fs)

unlink_master : (parent : ℕ) → (fname : Str) → Option DevFile → List DevFile → Done
unfolding unlink_child finddir
unlink_master parent fname none fs = some (err enotdir, fs)
unlink_master parent fname (some p) fs = unlink_child parent fname (finddir parent fname fs) fs

pub unlink : (parent : ℕ) → (fname : Str) → List DevFile → Done
unfolding unlink_master
unlink parent fname fs = unlink_master parent fname (get_inode parent fs) fs
