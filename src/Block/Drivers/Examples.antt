-- ===== src/Block/Drivers/Examples.antt =====
-- A driver with a disk at the minors 0 to 15 and one at 32 to 47.
use dionysus.Prelude.{
  ℕ, ◌+◌, ◌^◌, ◌≤◌, ◌<◌, ◌≡◌, refl, Bool, true, false, Option, none, some, List, [], ◌∷◌, ◌++◌,
  arith, drop,
}
use dionysus.Prelude.Int.{pos}
use dionysus.Prelude.Str.{codes}
use dionysus.Block.Devices.{BlkDev, get_blkdev}
use dionysus.Block.Drivers.{add_blkdev, init_blockdev, register_blkdev}
use dionysus.Block.Drivers.Laws.{get_blkdev-add_blkdev}

abbrev disk : ℕ → BlkDev
disk minor = record {
  minor = minor;
  max_part = 16;
  partitions = record { minor = minor; offset = 0; size = 1000 } ∷ [];
  sector_size = 512;
}

-- The first free major number is 1.
register_blkdev_test :
    register_blkdev true 0 (codes "ide") 5 init_blockdev
    ≡ some (
      pos 1,
      record init_blockdev {
        drivers =
            record { name = codes "ide"; ops = 5; devs = some [] } ∷ drop 1 init_blockdev.drivers;
      },
    )
unfolding register_blkdev init_blockdev dionysus.Prelude.Str.str_eq
register_blkdev_test = refl

get_blkdev-add_blkdev_example :
    ((add_blkdev true (disk 48) (some (disk 0 ∷ disk 32 ∷ []))).0 ≡ pos 0)
    × (get_blkdev (add_blkdev true (disk 48) (some (disk 0 ∷ disk 32 ∷ []))).1 48 ≡ some (disk 48))
get_blkdev-add_blkdev_example =
    get_blkdev-add_blkdev (disk 48) (disk 0 ∷ disk 32 ∷ []) 0
      (record { minor = 48; offset = 0; size = 1000 }) (omega arith)
      (omega arith, (omega arith, tt)) refl (omega arith) (omega arith)
