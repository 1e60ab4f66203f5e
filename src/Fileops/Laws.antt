-- ===== src/Fileops/Laws.antt =====
-- The system calls on open files, by what they return and leave.
use dionysus.Prelude.{
  ℕ, zero, suc, ◌+◌, ◌-◌, ◌%◌, ◌^◌, ◌<◌, ◌≤◌, ◌≡◌, refl, Bool, true, false, not, ◌||◌, ◌&&◌, none,
  some, List, [], ◌∷◌, ltb, ◌==◌, get_elem?, length, length-set, get_elem?-set_self, ◌∙◌, arith,
}
use dionysus.Prelude.Bits.{test_bit}
use dionysus.Prelude.Int.{ℤ, pos, negsuc, ◌+ℤ◌}
use dionysus.Errno.{err, ebadf}
use dionysus.Fileops.{
  FsNode, Filep, max_of, o_rdonly, o_wronly, check_flags, on_fd, on_node, on_file, seek, sought,
  set_off, lseek, read_vfs, write_vfs, user_read, user_write, to_uint32,
}

-- some class of users that the task is in has the bit
abbrev pub may : (others user group : ℕ) (euid egid : ℕ) → FsNode → Bool
may others user group euid egid f =
    test_bit others f.mode
    || ((euid == f.uid) && test_bit user f.mode)
    || ((egid == f.gid) && test_bit group f.mode)

-- `check_flags` lets root pass, and any other task exactly if it may read where the flags ask to
-- read, and may write where they ask to write, by the bits for others, the owner or the group.
pub check_flags-may :
    (euid egid : ℕ) (file : FsNode) (flags : ℕ)
    → check_flags euid egid file flags ≡ (
        (euid == 0)
        || ((not (o_rdonly flags) || may 2 8 5 euid egid file)
            && (not (o_wronly flags) || may 1 7 4 euid egid file)))
unfolding check_flags
check_flags-may euid egid file flags = ground arith

get_elem?-past : {A : Type 0} (xs : List A) (n : ℕ) → length xs ≤ n → get_elem? xs n ≡ none
get_elem?-past [] n h = refl
get_elem?-past (x ∷ xs) zero h = absurd (omega arith)
get_elem?-past (x ∷ xs) (suc n) h = get_elem?-past xs n (omega arith)

-- the descriptor stands for the open file at the offset
pub record IsOpen (files : List Filep) (n : ℕ) (f : FsNode) (at : ℤ) : Type 0 where
  pub small : n < max_of
  pub size : length files ≡ max_of
  pub holds : get_elem? files n ≡ some record { file = some f; off = at }

on_fd-IsOpen :
    (files : List Filep) (n : ℕ) (f : FsNode) (at : ℤ) (k : FsNode → ℤ → ℤ × List Filep)
    → IsOpen files n f at
    → on_fd files (pos n) k ≡ some (k f at)
unfolding on_fd on_file on_node
on_fd-IsOpen files n f at k o =
    let inside : ltb max_of n ≡ false = ground (arith, o.small) in rw (inside, o.holds)

set_off-IsOpen :
    (files : List Filep) (n : ℕ) (f : FsNode) (at off : ℤ)
    → IsOpen files n f at
    → IsOpen (set_off files (pos n) f off) n f off
set_off-IsOpen files n f at off o = record {
  small = o.small;
  size = length-set files n _ ∙ o.size;
  holds = get_elem?-set_self files n _ (omega (arith, o.small, o.size));
}

-- Asking for the offset with SEEK_CUR and 0 gives the offset.
tell :
    (files : List Filep) (n : ℕ) (f : FsNode) (at : ℤ)
    → IsOpen files n f at
    → lseek files (pos n) (pos 0) 1 ≡ some (at, set_off files (pos n) f at)
unfolding lseek sought
tell files n f at o =
    let same : at +ℤ pos 0 ≡ at = unfold ◌+ℤ◌ in ground arith in
    on_fd-IsOpen files n f at _ o ∙ rw same

-- On an open file `lseek` with a good `whence` returns the new offset, from the start, the old offset or
-- the length, and the file is then open at that offset, which a second `lseek` tells.
pub lseek-seek :
    (files : List Filep) (n : ℕ) (f : FsNode) (at off to : ℤ) (whence : ℕ)
    → IsOpen files n f at
    → seek whence f.len at off ≡ some to
    → (after : List Filep) × (again : List Filep) × (lseek files (pos n) off whence
        ≡ some (to, after))
      × IsOpen after n f to
      × (lseek after (pos n) (pos 0) 1 ≡ some (to, again))
unfolding lseek sought
lseek-seek files n f at off to whence o good =
    let after = set_off files (pos n) f to in
    let o' = set_off-IsOpen files n f at to o in
    (
      after,
      set_off after (pos n) f to,
      on_fd-IsOpen files n f at _ o ∙ rw good,
      o',
      tell after n f to o',
    )

-- `user_read` of a file open for reading returns what the file system's read returns at the offset,
-- and moves the offset by that number, also when it is a negative error.
pub user_read-moves :
    (files : List Filep) (n nbytes : ℕ) (f : FsNode) (at : ℤ)
    → IsOpen files n f at
    → o_rdonly f.flags ≡ true
    → (after : List Filep) × (user_read files (pos n) true nbytes
        ≡ some (read_vfs f nbytes at, after))
      × IsOpen after n f (at +ℤ read_vfs f nbytes at)
unfolding user_read
user_read-moves files n nbytes f at o r = (
  set_off files (pos n) f (at +ℤ read_vfs f nbytes at),
  on_fd-IsOpen files n f at _ o ∙ rw r,
  set_off-IsOpen files n f at _ o,
)

-- When the write of the file system fails with an error of 32 bits, `user_write` returns a positive
-- number, 2^32 less the error's size, and moves the offset forward by as much.
pub user_write-failed :
    (files : List Filep) (n nbytes m : ℕ) (f : FsNode) (at : ℤ)
    → IsOpen files n f at
    → o_wronly f.flags ≡ true
    → write_vfs f nbytes at ≡ negsuc m
    → m < 2 ^ 31
    → (after : List Filep) × (user_write files (pos n) true nbytes
        ≡ some (pos (2 ^ 32 - suc m), after))
      × IsOpen after n f (at +ℤ pos (2 ^ 32 - suc m))
unfolding user_write to_uint32
user_write-failed files n nbytes m f at o w fails small =
    let count : 2 ^ 32 - 1 - m % 2 ^ 32 ≡ 2 ^ 32 - suc m = omega arith in
    (
      set_off files (pos n) f (at +ℤ pos (2 ^ 32 - suc m)),
      on_fd-IsOpen files n f at _ o ∙ rw (w, fails, to_uint32, count),
      set_off-IsOpen files n f at _ o,
    )

-- The descriptor MAX_OF passes the test of the bound, and each call reads past the end of the table;
-- any other number outside the table gives -EBADF and changes nothing.
pub on_fd-outside :
    (files : List Filep) (n : ℕ) (k : FsNode → ℤ → ℤ × List Filep)
    → length files ≡ max_of
    → (on_fd files (pos max_of) k ≡ none)
      × (on_fd files (pos (suc max_of + n)) k ≡ some (err ebadf, files))
      × (on_fd files (negsuc n) k ≡ some (err ebadf, files))
unfolding on_fd on_file
on_fd-outside files n k size =
    let past : get_elem? files max_of ≡ none = get_elem?-past files max_of (omega (arith, size)) in
    let large : ltb max_of (suc max_of + n) ≡ true = ground arith in (rw past, rw large, refl)
