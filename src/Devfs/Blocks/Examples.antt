-- ===== src/Devfs/Blocks/Examples.antt =====
-- The theorems about the reading and writing of block devices at a concrete device.
use dionysus.Prelude.{◌+◌, ◌*◌, ◌%◌, ◌≡◌, refl, true, some, List, arith}
use dionysus.Prelude.Int.{pos}
use dionysus.Devfs.Blocks.{
  Layer, BioPiece, Bytes, count_sectors, split_bios, read_blkdev, write_blkdev,
}
use dionysus.Devfs.Blocks.Split.{IsPaged, Adds, Covers, split_bios-Covers}
use dionysus.Devfs.Blocks.Transfers.{delivered, taken, Serves, IsMapped}
use dionysus.Devfs.Blocks.Writes.{IsWritten, IsRead, write_blkdev-IsWritten, read_blkdev-IsRead}

-- a device with the number of each byte in it
abbrev numbered : Bytes
numbered = λ b. b

-- memory that is mapped 16 pages higher, and a device of which every request is served
serving : Layer
unfolding delivered taken
serving = record {
  resolve_physical = λ addr. addr + 65536;
  create = λ first write. true;
  allocs = λ left. true;
  add = λ b. pos 0;
  read = λ first bs memory. (pos 0, delivered 512 numbered first bs memory);
  write = λ first bs memory. (pos 0, taken 512 memory first bs numbered);
}

serving-Serves : Serves serving 512 numbered
unfolding serving
serving-Serves = record {
  creates = λ first write. refl;
  reads_ok = λ first bs memory. refl;
  reads = λ first bs memory a. refl;
  writes_ok = λ first bs memory. refl;
  writes = λ first bs memory b. refl;
}

serving-IsMapped : IsMapped serving
unfolding serving
serving-IsMapped = record { injective = λ a b e. omega (arith, e); linear = λ a i h. omega arith }

serving-Adds : Adds serving
unfolding serving
serving-Adds = record { allocs = λ left. refl; add = λ b. refl }

serving-IsPaged : IsPaged serving 512 8
unfolding serving
serving-IsPaged = record { fits = refl; mapped = λ addr. omega arith }

-- 1000 bytes at 700: the second sector from byte 188 on, a whole one, and some of the fourth
write_blkdev-IsWritten_example :
    (disk' : Bytes) × (write_blkdev
        (count_sectors 512 (1000 + 700 % 512) + 1)
        serving
        512
        (some (512 * 9))
        (λ i. 7)
        (λ i. 0)
        numbered
        1000
        700
      ≡ some (pos 1000, disk'))
    × IsWritten (λ i. 7) numbered disk' 700 1000
write_blkdev-IsWritten_example =
    write_blkdev-IsWritten serving 512 8 9 (λ i. 7) (λ i. 0) numbered 1000 700 serving-IsPaged
      serving-IsMapped serving-Adds serving-Serves (omega arith)
      (unfold count_sectors in omega arith)

read_blkdev-IsRead_example :
    (buf' : Bytes) × (read_blkdev
        (count_sectors 512 (1000 + 700 % 512) + 1)
        serving
        512
        (some (512 * 9))
        (λ i. 7)
        (λ i. 0)
        1000
        700
      ≡ some (pos 1000, buf'))
    × IsRead (λ i. 7) buf' numbered 700 1000
read_blkdev-IsRead_example =
    read_blkdev-IsRead serving 512 8 9 (λ i. 7) (λ i. 0) numbered 1000 700 serving-IsPaged
      serving-IsMapped serving-Adds serving-Serves (omega arith)
      (unfold count_sectors in omega arith)

split_bios-Covers_example :
    (bs : List BioPiece) × (split_bios (3 + 1) serving 512 (512 * 7) 3 ≡ some (pos 0, bs))
    × Covers serving 512 (512 * 7) 3 bs
split_bios-Covers_example =
    split_bios-Covers serving 512 8 7 3 serving-IsPaged serving-Adds (omega arith)
