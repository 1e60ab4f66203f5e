-- ===== src/Block/Drivers/Laws.antt =====
-- Devices that `add_blkdev` adds, and the search of `get_blkdev` for them.
use dionysus.Prelude.{
  ℕ, ◌%◌, ◌^◌, ◌≤◌, ◌<◌, ◌≡◌, refl, ◌∙◌, Bool, true, false, some, List, [], ◌∷◌, ◌++◌, ltb,
  get_elem?, arith,
}
use dionysus.Prelude.Int.{pos}
use dionysus.Block.Devices.{BlkDev, Part, get_blkdev}
use dionysus.Block.Devices.Ends.{top, EndBefore, get_blkdev-last}
use dionysus.Block.Drivers.{middle, last, clashes, find_spot, insert_at, add_blkdev}

no_clash_below : (dev b : BlkDev) → top dev < 2 ^ 32 → top b ≤ dev.minor → clashes dev b ≡ false
unfolding clashes
no_clash_below dev b fits h =
    let e : top dev % 2 ^ 32 ≡ top dev = omega arith in
    let e' : top b % 2 ^ 32 ≡ top b = omega arith in rw (e, e') (ground arith)

no_clash_above : (dev b : BlkDev) → top dev < 2 ^ 32 → top dev ≤ b.minor → clashes dev b ≡ false
unfolding clashes
no_clash_above dev b fits h =
    let e : top dev % 2 ^ 32 ≡ top dev = omega arith in rw e (ground arith)

find_spot-past :
    (dev : BlkDev) (front rest : List BlkDev)
    → top dev < 2 ^ 32
    → EndBefore dev.minor front
    → find_spot false dev (front ++ rest) ≡ find_spot false dev rest
unfolding find_spot
find_spot-past dev [] rest fits below = refl
find_spot-past dev (b ∷ front) rest fits (h, below) =
    let c = no_clash_below dev b fits h in
    let l : ltb dev.minor b.minor ≡ false = ground arith in
    rw (c, l) (find_spot-past dev front rest fits below)

find_spot-last :
    (dev : BlkDev) (devs : List BlkDev) (at_head : Bool)
    → top dev < 2 ^ 32
    → EndBefore dev.minor devs
    → find_spot at_head dev devs ≡ last
unfolding find_spot
find_spot-last dev [] at_head fits below = refl
find_spot-last dev (b ∷ devs) at_head fits (h, below) =
    let c = no_clash_below dev b fits h in
    let l : ltb dev.minor b.minor ≡ false = ground arith in
    rw (c, l) (find_spot-last dev devs false fits below)

add_blkdev-last :
    (dev : BlkDev) (devs : List BlkDev)
    → top dev < 2 ^ 32
    → EndBefore dev.minor devs
    → add_blkdev true dev (some devs) ≡ (pos 0, some (devs ++ dev ∷ []))
unfolding add_blkdev insert_at
add_blkdev-last dev devs fits below = rw (find_spot-last dev devs true fits below) refl

-- A device whose minors lie behind those of all devices of the driver is added, and `get_blkdev` then
-- finds it for each minor of its partitions that is not below its first.
pub get_blkdev-add_blkdev :
    (dev : BlkDev) (devs : List BlkDev) (i : ℕ) (p : Part)
    → top dev < 2 ^ 32
    → EndBefore dev.minor devs
    → get_elem? dev.partitions i ≡ some p
    → dev.minor ≤ p.minor
    → p.minor < 2 ^ 32
    → ((add_blkdev true dev (some devs)).0 ≡ pos 0)
      × (get_blkdev (add_blkdev true dev (some devs)).1 p.minor ≡ some dev)
get_blkdev-add_blkdev dev devs i p fits below at low small =
    rw (add_blkdev-last dev devs fits below) (refl, get_blkdev-last dev devs i p small below at low)

-- A device whose minors lie between those of two devices of the driver is lost: the call returns 0, and
-- the devices that a walk meets are those that were there.
pub add_blkdev-lost :
    (dev d b : BlkDev) (front back : List BlkDev)
    → 0 < dev.max_part
    → EndBefore dev.minor (d ∷ front)
    → top dev ≤ b.minor
    → b.minor < 2 ^ 32
    → add_blkdev true dev (some (d ∷ front ++ b ∷ back)) ≡ (pos 0, some (d ∷ front ++ b ∷ back))
unfolding add_blkdev insert_at find_spot
add_blkdev-lost dev d b front back some_minors (h, below) above fits =
    let small : top dev < 2 ^ 32 = omega arith in
    let c = no_clash_below dev d small h in
    let l : ltb dev.minor d.minor ≡ false = ground arith in
    let c' = no_clash_above dev b small above in
    let l' : ltb dev.minor b.minor ≡ true = ground arith in
    let spot : find_spot false dev (b ∷ back) ≡ middle = rw (c', l') refl in
    rw (c, l, find_spot-past dev front (b ∷ back) small below ∙ spot) refl

no_clash_same :
    (dev again : BlkDev)
    → top dev < 2 ^ 32
    → again.minor ≡ dev.minor
    → again.max_part ≡ dev.max_part
    → clashes again dev ≡ false
unfolding clashes
no_clash_same dev again fits e e' = rw (e, e') (ground arith)

-- The tests for a clash let the same minors pass: a second device is added behind a device with them.
pub add_blkdev-twice :
    (dev again : BlkDev)
    → top dev < 2 ^ 32
    → again.minor ≡ dev.minor
    → again.max_part ≡ dev.max_part
    → add_blkdev true again (some (dev ∷ [])) ≡ (pos 0, some (dev ∷ again ∷ []))
unfolding add_blkdev insert_at find_spot
add_blkdev-twice dev again fits e e' =
    let c = no_clash_same dev again fits e e' in
    let l : ltb again.minor dev.minor ≡ false = ground arith in rw (c, l) refl
