-- ===== src/Fileops.antt =====
-- kernel/fileops.c: system calls on the open files of the current task, with the calls of read_vfs and
-- write_vfs of kernel/vfs.c. A function of a file system is a parameter, which gives the number that
-- it returns; the buffer's contents are not modelled. Offsets are numbers without a bound.
pub mod Laws
pub mod Parent
mod Examples
use dionysus.Prelude.{
  ℕ, suc, ◌+◌, ◌-◌, ◌%◌, ◌^◌, Bool, true, false, not, ◌||◌, ◌&&◌, Option, none, some, List, [], ◌∷◌,
  ltb, ◌==◌, if◌then◌else◌, get_elem?, set,
}
use dionysus.Prelude.Bits.{test_bit}
use dionysus.Prelude.Int.{ℤ, pos, negsuc, ◌+ℤ◌}
use dionysus.Errno.{err, ebadf, efault, einval}

-- the fields of an fs_node_t that these calls use
pub record FsNode : Type 0 where
  pub uid : ℕ
  pub gid : ℕ
  pub mode : ℕ
  pub flags : ℕ
  pub len : ℕ
  pub read : Option ((count : ℕ) (off : ℤ) → ℤ)  -- `ops.read`
  pub write : Option ((count : ℕ) (off : ℤ) → ℤ)

-- struct filep
pub record Filep : Type 0 where
  pub file : Option FsNode
  pub off : ℤ

abbrev pub max_of : ℕ
max_of = 32

-- the flags and mode bits by their place
abbrev pub o_rdonly : ℕ → Bool
o_rdonly flags = test_bit 0 flags

abbrev pub o_wronly : ℕ → Bool
o_wronly flags = test_bit 1 flags

abbrev pub vfs_dir : ℕ → Bool
vfs_dir mode = test_bit 17 mode

-- one of the two tests of `check_flags`, by the bits for others, the user and the group
abbrev pub mode_allows : (others user group : ℕ) (euid egid : ℕ) → FsNode → Bool
mode_allows others user group euid egid file =
    if test_bit others file.mode
    then true
    else if (euid == file.uid) && test_bit user file.mode
    then true
    else if (egid == file.gid) && test_bit group file.mode
    then true
    else false

pub check_flags : (euid egid : ℕ) → FsNode → (flags : ℕ) → Bool
check_flags euid egid file flags =
    let readable = if o_rdonly flags then mode_allows 2 8 5 euid egid file else true in
    if euid == 0
    then true
    else if o_wronly flags && readable
    then mode_allows 1 7 4 euid egid file
    else readable

-- The test `valid_fd` and what follows it, on the file and the offset of the descriptor. `none` is a
-- read outside the table.
on_node : List Filep → (FsNode → ℤ → ℤ × List Filep) → Option FsNode → ℤ → ℤ × List Filep
on_node files k none off = (err ebadf, files)
on_node files k (some f) off = k f off

on_file : List Filep → (FsNode → ℤ → ℤ × List Filep) → Option Filep → Option (ℤ × List Filep)
unfolding on_node
on_file files k none = none
on_file files k (some s) = some (on_node files k s.file s.off)

pub on_fd : List Filep → ℤ → (FsNode → ℤ → ℤ × List Filep) → Option (ℤ × List Filep)
unfolding on_file
on_fd files (negsuc n) k = some (err ebadf, files)
on_fd files (pos n) k =
    if ltb max_of n then some (err ebadf, files) else on_file files k (get_elem? files n)

abbrev pub index : ℤ → ℕ
index (pos n) = n
index (negsuc n) = 0

-- `current_task->files[fd].off = off`
abbrev pub set_off : List Filep → ℤ → FsNode → ℤ → List Filep
set_off files fd f off = set files (index fd) record { file = some f; off = off }

-- the new offset by `whence`; `none` for a bad one
abbrev pub seek : ℕ → (len : ℕ) (at off : ℤ) → Option ℤ
seek whence len at off =
    if whence == 0
    then some off
    else if whence == 1
    then some (at +ℤ off)
    else if whence == 2
    then some (pos len +ℤ off)
    else none

sought : List Filep → ℤ → FsNode → Option ℤ → ℤ × List Filep
sought files fd f none = (err einval, files)
sought files fd f (some off) = (off, set_off files fd f off)

pub lseek : List Filep → (fd off : ℤ) (whence : ℕ) → Option (ℤ × List Filep)
unfolding sought
lseek files fd off whence = on_fd files fd (λ f at. sought files fd f (seek whence f.len at off))

-- read_vfs and write_vfs on a node
call_op : Option ((count : ℕ) (off : ℤ) → ℤ) → ℕ → ℤ → ℤ
call_op none count off = negsuc 0
call_op (some op) count off = op count off

pub read_vfs : FsNode → ℕ → ℤ → ℤ
unfolding call_op
read_vfs f count off = if vfs_dir f.mode then err einval else call_op f.read count off

pub write_vfs : FsNode → ℕ → ℤ → ℤ
unfolding call_op
write_vfs f count off = if vfs_dir f.mode then err einval else call_op f.write count off

pub user_pread : List Filep → ℤ → (buf : Bool) (nbytes : ℕ) (off : ℤ) → Option (ℤ × List Filep)
user_pread files fd buf nbytes off = on_fd files fd (λ f at.
    if not buf
    then (err efault, files)
    else if not (o_rdonly f.flags)
    then (err einval, files)
    else (read_vfs f nbytes off, files))

pub user_read : List Filep → ℤ → (buf : Bool) (nbytes : ℕ) → Option (ℤ × List Filep)
user_read files fd buf nbytes = on_fd files fd (λ f at.
    let ret = read_vfs f nbytes at in
    if not buf
    then (err efault, files)
    else if not (o_rdonly f.flags)
    then (err einval, files)
    else (ret, set_off files fd f (at +ℤ ret)))

pub user_pwrite : List Filep → ℤ → (buf : Bool) (nbytes : ℕ) (off : ℤ) → Option (ℤ × List Filep)
user_pwrite files fd buf nbytes off = on_fd files fd (λ f at.
    if not buf
    then (err efault, files)
    else if not (o_wronly f.flags)
    then (err einval, files)
    else (write_vfs f nbytes off, files))

-- an ssize_t stored in a uint32_t
pub to_uint32 : ℤ → ℕ
to_uint32 (pos n) = n % 2 ^ 32
to_uint32 (negsuc n) = 2 ^ 32 - 1 - n % 2 ^ 32

pub user_write : List Filep → ℤ → (buf : Bool) (nbytes : ℕ) → Option (ℤ × List Filep)
user_write files fd buf nbytes = on_fd files fd (λ f at.
    let ret = pos (to_uint32 (write_vfs f nbytes at)) in
    if not buf
    then (err efault, files)
    else if not (o_wronly f.flags)
    then (err einval, files)
    else (ret, set_off files fd f (at +ℤ ret)))
