-- ===== src/Devfs/Names/Examples.antt =====
-- The theorems about kernel/fs/dev.c at concrete files, and tests.
use dionysus.Prelude.{ℕ, ◌≡◌, refl, sym, none, some, List, [], ◌∷◌, arith}
use mathlib.Core.Option.{some-injective}
use dionysus.Prelude.Bits.{test_bit}
use dionysus.Prelude.Int.{pos}
use dionysus.Prelude.Str.{str_eq, codes}
use dionysus.Devfs.{
  Dirent, DevFile, get_inode, root_mode, return_sb, get_empty_inode, devfs_open, devfs_close,
}
use dionysus.Devfs.Linked.{IsLinked}
use dionysus.Devfs.Inodes.{IsLeastFree, get_empty_inode-IsLeastFree}
use dionysus.Devfs.Opening.{devfs_close-devfs_open}
use dionysus.Devfs.Names.{find_entry, remove_entry, finddir, create, unlink, new_file}
use dionysus.Devfs.Names.Create.{Leaves}
use dionysus.Devfs.Names.Found.{all_allocs, finddir-create}
use dionysus.Devfs.Names.Unlink.{MayGo, unlink-Leaves}
use dionysus.Devfs.Names.Reach.{creates, Reach, here, next, Reach-IsLinked, Reach-finddir}

abbrev root_file : DevFile
root_file = record {
  inode = 0;
  mode = root_mode;
  uid = 0;
  gid = 0;
  dev = 0;
  refcount = pos 0;
  nlink = 1;
  entries = some [];
}

-- a character device with mode 0620
abbrev tty_mode : ℕ
tty_mode = 524688

abbrev tty_entry : Dirent
tty_entry = record { ino = 1; name = codes "tty" }

abbrev tty : DevFile
tty = record {
  inode = 1;
  mode = tty_mode;
  uid = 0;
  gid = 5;
  dev = 1024;
  refcount = pos 0;
  nlink = 1;
  entries = none;
}

abbrev with_tty : List DevFile
with_tty = record root_file { entries = some (tty_entry ∷ []) } ∷ tty ∷ []

created_tty :
    create all_allocs 0 (codes "tty") 0 5 tty_mode 1024 (root_file ∷ []) ≡ some (pos 0, with_tty)
unfolding create test_bit
created_tty = refl

unlinked_tty : unlink 0 (codes "tty") with_tty ≡ some (pos 0, root_file ∷ [])
unfolding unlink str_eq remove_entry
unlinked_tty = refl

get_empty_inode-IsLeastFree_example : IsLeastFree 0 with_tty (get_empty_inode with_tty)
get_empty_inode-IsLeastFree_example =
    get_empty_inode-IsLeastFree with_tty (refl, (omega arith, tt)) (omega arith)

finddir-create_example :
    (fs' : List DevFile) × (create all_allocs 0 (codes "tty") 0 5 tty_mode 1024 (root_file ∷ [])
      ≡ some (pos 0, fs'))
    × (finddir 0 (codes "tty") fs'
        ≡ some (some (new_file (get_empty_inode (root_file ∷ [])) 0 5 tty_mode 1024)))
finddir-create_example =
    finddir-create 0 (codes "tty") 0 5 tty_mode 1024 (root_file ∷ []) root_file [] (refl, tt)
      (omega arith) refl (unfold get_inode in refl) refl (unfold find_entry in refl)

devfs_close-devfs_open_example :
    ((devfs_open 1 (pos 0) with_tty).0 ≡ pos 0)
    × (devfs_close 1 (pos 0) (devfs_open 1 (pos 0) with_tty).1 ≡ some (pos 0, with_tty))
devfs_close-devfs_open_example =
    devfs_close-devfs_open 1 with_tty tty (refl, (omega arith, tt)) (unfold get_inode in refl)
      (omega arith)

tty_reached : Reach (root_file ∷ []) with_tty
tty_reached = next here (
    creates all_allocs 0 (codes "tty") 0 5 tty_mode 1024 (pos 0) with_tty (omega arith)
      (root_file, [], unfold get_inode in refl, refl) refl created_tty)

Reach-IsLinked_example : IsLinked with_tty
Reach-IsLinked_example =
    Reach-IsLinked (root_file ∷ []) with_tty (unfold return_sb in refl) tty_reached

Reach-finddir_example :
    (g : DevFile) × (finddir 0 (codes "tty") with_tty ≡ some (some g)) × (g.inode ≡ 1)
Reach-finddir_example =
    Reach-finddir (root_file ∷ []) with_tty 0 (codes "tty")
      (record root_file { entries = some (tty_entry ∷ []) }) (tty_entry ∷ []) tty_entry
      (unfold return_sb in refl) tty_reached (unfold get_inode in refl) refl
      (unfold find_entry str_eq in refl)

tty-MayGo : (f : DevFile) → finddir 0 (codes "tty") with_tty ≡ some (some f) → MayGo f
unfolding finddir str_eq
tty-MayGo f found =
    let same : tty ≡ f = some-injective tty f (some-injective _ _ found) in
    rw (sym same) record { small = omega arith; empty = λ k. refl }

unlink-Leaves_example : Leaves (unlink 0 (codes "tty") with_tty)
unlink-Leaves_example =
    unlink-Leaves 0 (codes "tty") with_tty Reach-IsLinked_example
      (
        record root_file { entries = some (tty_entry ∷ []) },
        tty_entry ∷ [],
        unfold get_inode in refl,
        refl,
      )
      tty-MayGo
