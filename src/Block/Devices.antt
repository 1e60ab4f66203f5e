-- ===== src/Block/Devices.antt =====
-- kernel/block.c: the devices of a driver, their partitions, and a request for one of them.
pub mod Ends
pub mod Laws
mod Examples
use dionysus.Prelude.{
  ℕ, ◌+◌, ◌%◌, ◌^◌, Bool, true, false, not, ◌||◌, Option, none, some, List, [], ◌∷◌, ltb, ◌==◌,
  if◌then◌else◌,
}
use dionysus.Block.Request.{Request, unsched}

-- struct part
pub record Part : Type 0 where
  pub minor : ℕ
  pub offset : ℕ
  pub size : ℕ

-- what these operations read of a blkdev_t
pub record BlkDev : Type 0 where
  pub minor : ℕ
  pub max_part : ℕ
  pub partitions : List Part
  pub sector_size : ℕ

-- the search of `get_blkdev`: the first device whose minors go beyond the given one, or the last
find_dev : ℕ → List BlkDev → Option BlkDev
find_dev minor [] = none
find_dev minor (d ∷ []) = some d
find_dev minor (d ∷ e ∷ ds) =
    let rest = find_dev minor (e ∷ ds) in
    if ltb minor ((d.minor + d.max_part) % 2 ^ 32) then some d else rest

has_part : ℕ → List Part → Bool
has_part minor [] = false
has_part minor (p ∷ ps) = (p.minor == minor) || has_part minor ps

if_has_part : ℕ → Option BlkDev → Option BlkDev
unfolding has_part
if_has_part minor none = none
if_has_part minor (some d) = if has_part minor d.partitions then some d else none

-- by the devices of the driver, if there is one, and the minor of the device number
pub get_blkdev : Option (List BlkDev) → (minor : ℕ) → Option BlkDev
unfolding if_has_part find_dev
get_blkdev none minor = none
get_blkdev (some devs) minor = if_has_part minor (find_dev minor devs)

-- the search of `create_request_blkdev`: the partition with the minor, or the last
find_part : ℕ → List Part → Option Part
find_part minor [] = none
find_part minor (p ∷ []) = some p
find_part minor (p ∷ q ∷ ps) =
    let rest = find_part minor (q ∷ ps) in if p.minor == minor then some p else rest

-- from the test of the first sector on; `allocs` tells whether the allocations all succeed
request_at : (allocs : Bool) (d : BlkDev) (first_sector flags : ℕ) → Part → Option Request
request_at allocs d first_sector flags p =
    if ltb p.size first_sector || not allocs
    then none
    else some record {
      flags = flags;
      first_sector = (first_sector + p.offset) % 2 ^ 32;
      nsectors = 0;
      status = unsched;
      rc = 0;
      sector_size = d.sector_size;
      bios = [];
      wakes = 0;
    }

-- `none` where the code reads a NULL partition
request_for :
    (allocs : Bool) (d : BlkDev) (first_sector flags : ℕ) → Option Part → Option (Option Request)
unfolding request_at
request_for allocs d first_sector flags none = none
request_for allocs d first_sector flags (some p) = some (request_at allocs d first_sector flags p)

request_on :
    (allocs : Bool) (minor first_sector flags : ℕ) → Option BlkDev → Option (Option Request)
unfolding request_for find_part
request_on allocs minor first_sector flags none = some none
request_on allocs minor first_sector flags (some d) =
    request_for allocs d first_sector flags (find_part minor d.partitions)

-- `none` for a fault, and `some none` for NULL
pub create_request_blkdev :
    (allocs : Bool) (devs : Option (List BlkDev)) (minor first_sector flags : ℕ)
    → Option (Option Request)
unfolding request_on
create_request_blkdev allocs devs minor first_sector flags =
    request_on allocs minor first_sector flags (get_blkdev devs minor)
