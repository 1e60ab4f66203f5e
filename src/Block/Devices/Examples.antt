-- ===== src/Block/Devices/Examples.antt =====
-- The theorems about devices at a concrete driver, and tests.
use dionysus.Prelude.{◌≡◌, refl, some, [], ◌∷◌}
use dionysus.Block.Devices.{BlkDev, get_blkdev}

-- a disk of 100 sectors with a partition at sector 10
abbrev disk : BlkDev
disk = record {
  minor = 0;
  max_part = 16;
  partitions =
      record { minor = 0; offset = 0; size = 100 }
      ∷ record { minor = 1; offset = 10; size = 20 }
      ∷ [];
  sector_size = 512;
}

disk_found : get_blkdev (some (disk ∷ [])) 1 ≡ some disk
unfolding get_blkdev
disk_found = refl
