-- ===== src/Fileops/Examples.antt =====
-- The theorems about kernel/fileops.c for a task with one open file, and tests.
use dionysus.Prelude.{
  ◌≡◌, refl, true, false, not, ◌||◌, ◌&&◌, none, some, List, ◌∷◌, ◌==◌, replicate, arith,
}
use dionysus.Prelude.Bits.{test_bit}
use dionysus.Prelude.Int.{pos, negsuc}
use dionysus.Errno.{err, eagain}
use dionysus.Fileops.{FsNode, Filep, o_rdonly, o_wronly, check_flags, write_vfs}
use dionysus.Fileops.Laws.{may, check_flags-may, IsOpen}

-- a file of the user 5 with mode 0640, open both ways, whose writes fail
abbrev a_file : FsNode
a_file = record {
  uid = 5;
  gid = 6;
  mode = 416;
  flags = 3;
  len = 100;
  read = some (λ count off. pos count);
  write = some (λ count off. err eagain);
}

abbrev slots : List Filep
slots =
    record { file = some a_file; off = pos 10 } ∷ replicate 31 record { file = none; off = pos 0 }

slots-IsOpen : IsOpen slots 0 a_file (pos 10)
slots-IsOpen = record { small = omega arith; size = refl; holds = refl }

group_may_not_write : check_flags 9 6 a_file 3 ≡ false
unfolding check_flags test_bit
group_may_not_write = refl

check_flags-may_example : check_flags 9 6 a_file 3 ≡ (
    (9 == 0)
    || ((not (o_rdonly 3) || may 2 8 5 9 6 a_file) && (not (o_wronly 3) || may 1 7 4 9 6 a_file)))
check_flags-may_example = check_flags-may 9 6 a_file 3

a_file_readable : o_rdonly a_file.flags ≡ true
unfolding test_bit
a_file_readable = refl

a_file_writable : o_wronly a_file.flags ≡ true
unfolding test_bit
a_file_writable = refl

a_write_fails : write_vfs a_file 4 (pos 10) ≡ negsuc 10
unfolding write_vfs test_bit
a_write_fails = refl
