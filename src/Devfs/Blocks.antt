-- ===== src/Devfs/Blocks.antt =====
-- kernel/fs/dev.c: reading and writing of block devices, `read_blkdev` and `write_blkdev`. The memory is a function
-- from physical addresses to bytes, the caller's buffer one from offsets, apart from the bounce buffer. What the
-- block layer does is a parameter: which calls succeed, and what a request that is posted transfers.
pub mod Split
pub mod Transfers
pub mod Writes
mod Examples
use dionysus.Prelude.{
  ℕ, zero, suc, ◌+◌, ◌-◌, ◌*◌, ◌/◌, ◌%◌, ◌^◌, Bool, true, false, not, ◌&&◌, ◌||◌, Option, none,
  some, List, [], ◌∷◌, ltb, leb, ◌==◌, if◌then◌else◌,
}
use dionysus.Prelude.Int.{ℤ, pos, negsuc, ltb_ℤ}
use dionysus.Errno.{err, enomem}

-- PAGE_SIZE
abbrev pub page_size : ℕ
page_size = 4096

-- the fields of a bio_t that are set here
pub record BioPiece : Type 0 where
  pub page : ℕ
  pub offset : ℕ
  pub nsectors : ℕ

abbrev pub Bytes : Type 0
Bytes = ℕ → ℕ

-- The block layer: whether a request is made, from a first sector on; whether a bio is allocated, with so many
-- sectors left; the result of adding it; the result of a request that reads, with the memory after it; and
-- of one that writes, with the bytes of the device afterwards.
pub record Layer : Type 0 where
  pub resolve_physical : ℕ → ℕ
  pub create : (first : ℕ) → (write : Bool) → Bool
  pub allocs : (left : ℕ) → Bool
  pub add : BioPiece → ℤ
  pub read : (first : ℕ) → List BioPiece → (memory : Bytes) → ℤ × Bytes
  pub write : (first : ℕ) → List BioPiece → (memory : Bytes) → ℤ × Bytes

abbrev pub is_error : ℤ → Bool
is_error ret = ltb_ℤ ret (pos 0)

-- the number of sectors that some bytes take, a uint32_t
pub count_sectors : (sector_size bytes : ℕ) → ℕ
count_sectors ss bytes = (if bytes % ss == 0 then bytes / ss else bytes / ss + 1) % 2 ^ 32

-- the bio at an address, where so many sectors are left
pub piece_at : Layer → (sector_size addr nsects : ℕ) → BioPiece
piece_at layer ss addr nsects =
    let offset = layer.resolve_physical addr % page_size in
    record {
      page = layer.resolve_physical addr / page_size * page_size;
      offset = offset;
      nsectors =
          if ltb (page_size - offset) (nsects * ss % 2 ^ 64)
          then (page_size - offset) / ss
          else nsects;
    }

-- An error, or the bios of the request. `none` is a loop that is still running.
abbrev pub Pieces : Type 0
Pieces = Option (ℤ × List BioPiece)

abbrev pub cons_piece : BioPiece → Pieces → Pieces
cons_piece b none = none
cons_piece b (some (ret, bs)) = some (ret, b ∷ bs)

pub split_bios : (fuel : ℕ) → Layer → (sector_size addr nsects : ℕ) → Pieces
unfolding piece_at
split_bios zero layer ss addr nsects = none
split_bios (suc fuel) layer ss addr nsects =
    let b = piece_at layer ss addr nsects in
    let rest = split_bios fuel layer ss (addr + b.nsectors * ss) (nsects - b.nsectors) in
    if nsects == 0
    then some (pos 0, [])
    else if not (layer.allocs nsects)
    then some (err enomem, [])
    else if is_error (layer.add b)
    then some (layer.add b, [])
    else cons_piece b rest

-- a call's result, with the bytes of the buffer or of the device; `none` is a call that does not return
abbrev pub Moved : Type 0
Moved = Option (ℤ × Bytes)

-- the request that reads the bios, and the copy out of the bounce buffer at an address
pub read_pieces : Layer → (first delta count addr : ℕ) → (buf memory : Bytes) → Pieces → Moved
read_pieces layer first delta count addr buf memory none = none
read_pieces layer first delta count addr buf memory (some (ret, bs)) =
    let (ret', memory') = layer.read first bs memory in
    if is_error ret
    then some (ret, buf)
    else if is_error ret'
    then some (ret', buf)
    else some (
      pos count,
      λ i. if ltb i count then memory' (layer.resolve_physical (addr + delta + i)) else buf i,
    )

read_bounce :
    (fuel : ℕ)
    → Layer
    → (sector_size first delta count : ℕ) → (buf memory : Bytes) → (bounce : Option ℕ) → Moved
unfolding read_pieces split_bios
read_bounce fuel layer ss first delta count buf memory none = some (err enomem, buf)
read_bounce fuel layer ss first delta count buf memory (some addr) =
    read_pieces layer first delta count addr buf memory
      (split_bios fuel layer ss addr (count_sectors ss ((count + delta) % 2 ^ 64)))

-- `bounce` is the address that kmemalign returns.
pub read_blkdev :
    (fuel : ℕ)
    → Layer
    → (sector_size : ℕ) → (bounce : Option ℕ) → (buf memory : Bytes) → (count off : ℕ) → Moved
unfolding read_bounce
read_blkdev fuel layer ss bounce buf memory count off =
    let delta = off % ss in
    let first = (off - delta) / ss % 2 ^ 32 in
    if not (layer.create first false)
    then some (err enomem, buf)
    else read_bounce fuel layer ss first delta count buf memory bounce

-- `write_blkdev` reads one sector of the device to an address: the memory afterwards
pub one_sector : Layer → (sector addr : ℕ) → (memory : Bytes) → Option Bytes
one_sector layer sector addr memory =
    let phys = layer.resolve_physical addr in
    let first = sector % 2 ^ 32 in
    let b : BioPiece = record {
      page = phys / page_size * page_size;
      offset = phys % page_size;
      nsectors = 1;
    } in
    let (ret, memory') = layer.read first (b ∷ []) memory in
    if not (layer.create first false)
      || not (layer.allocs 1)
      || is_error (layer.add b)
      || is_error ret
    then none
    else some memory'

-- the first and the last sector, where they are not written as a whole
pub fill_head : Layer → (first addr delta : ℕ) → (memory : Bytes) → Option Bytes
unfolding one_sector
fill_head layer first addr delta memory =
    if delta == 0 then some memory else one_sector layer first addr memory

pub fill_tail : Layer → (sector_size first addr bytes : ℕ) → Option Bytes → Option Bytes
unfolding one_sector
fill_tail layer ss first addr bytes none = none
fill_tail layer ss first addr bytes (some memory) =
    let before = count_sectors ss bytes - 1 in
    if bytes % ss == 0
    then some memory
    else one_sector layer (first + before) (addr + before * ss) memory

-- the copy of the caller's bytes to an address
pub copy_in : (resolve : ℕ → ℕ) → (addr count : ℕ) → (buf memory : Bytes) → Bytes
copy_in resolve addr zero buf memory = memory
copy_in resolve addr (suc n) buf memory =
    let rest = copy_in resolve addr n buf memory in
    λ p. if p == resolve (addr + n) then buf n else rest p

-- the request that writes the bios; an error becomes -ENOMEM
pub write_pieces : Layer → (first count : ℕ) → (memory disk : Bytes) → Pieces → Moved
write_pieces layer first count memory disk none = none
write_pieces layer first count memory disk (some (ret, bs)) =
    let (ret', disk') = layer.write first bs memory in
    if is_error ret
    then some (err enomem, disk)
    else if is_error ret'
    then some (err enomem, disk')
    else some (pos count, disk')

pub write_filled :
    (fuel : ℕ)
    → Layer
    → (sector_size first delta count addr : ℕ) → (buf disk : Bytes) → Option Bytes
    → Moved
unfolding split_bios write_pieces copy_in
write_filled fuel layer ss first delta count addr buf disk none = some (err enomem, disk)
write_filled fuel layer ss first delta count addr buf disk (some memory) =
    if not (layer.create (first % 2 ^ 32) true)
    then some (err enomem, disk)
    else write_pieces layer (first % 2 ^ 32) count
        (copy_in layer.resolve_physical (addr + delta) count buf memory) disk
        (split_bios fuel layer ss addr (count_sectors ss ((count + delta) % 2 ^ 64)))

-- `disk` is the bytes of the device.
pub write_bounce :
    (fuel : ℕ)
    → Layer
    → (sector_size first delta count : ℕ) → (buf memory disk : Bytes) → (bounce : Option ℕ) → Moved
unfolding fill_head fill_tail write_filled
write_bounce fuel layer ss first delta count buf memory disk none = some (err enomem, disk)
write_bounce fuel layer ss first delta count buf memory disk (some addr) =
    write_filled fuel layer ss first delta count addr buf disk (
      fill_tail layer ss first addr ((count + delta) % 2 ^ 64)
        (fill_head layer first addr delta memory))

pub write_blkdev :
    (fuel : ℕ)
    → Layer
    → (sector_size : ℕ) → (bounce : Option ℕ) → (buf memory disk : Bytes) → (count off : ℕ) → Moved
unfolding write_bounce
write_blkdev fuel layer ss bounce buf memory disk count off =
    let delta = off % ss in
    write_bounce fuel layer ss ((off - delta) / ss) delta count buf memory disk bounce
