-- ===== src/Block/Drivers.antt =====
-- kernel/block.c: the table of the drivers of block devices, and the devices of a driver.
pub mod Laws
mod Examples
use dionysus.Prelude.{
  ℕ, suc, ◌+◌, ◌-◌, ◌%◌, ◌^◌, Bool, true, false, not, ◌&&◌, ◌||◌, Option, none, some, List, [], ◌∷◌,
  ◌++◌, ltb, ◌==◌, if◌then◌else◌, get_elem?, replicate, set,
}
use dionysus.Prelude.Int.{ℤ, pos, negsuc}
use dionysus.Prelude.Str.{Str, str_eq}
use dionysus.Errno.{err, eexist, enomem, esrch}
use dionysus.Block.Devices.{BlkDev}

-- struct blkdev_driver; `devs` may be NULL
pub record BlkDriver : Type 0 where
  pub name : Str
  pub ops : ℕ
  pub devs : Option (List BlkDev)

-- `blk_drivers` and `block_lock`
pub record BlkTable : Type 0 where
  pub drivers : List BlkDriver
  pub locked : Bool

-- "Default"
abbrev pub unused_name : Str
unused_name = 68 ∷ 101 ∷ 102 ∷ 97 ∷ 117 ∷ 108 ∷ 116 ∷ []

pub init_blockdev : BlkTable
init_blockdev = record {
  drivers = replicate 256 (record { name = unused_name; ops = 0; devs = none });
  locked = false;
}

named : Option BlkDriver → Option BlkDriver
named none = none
named (some d) = if str_eq d.name unused_name then none else some d

pub get_blkdev_driver : (major : ℕ) → BlkTable → Option BlkDriver
unfolding named
get_blkdev_driver major t =
    if (major == 0) || ltb 256 major then none else named (get_elem? t.drivers (major - 1))

-- the loop for a free major number, over the rest of the table from the number on
free_blk_major : (major : ℕ) → List BlkDriver → Option ℕ
free_blk_major major [] = none
free_blk_major major (d ∷ ds) =
    let rest = free_blk_major (suc major) ds in
    if str_eq d.name unused_name then some major else rest

register_blk_at : (alloc : Bool) → Option ℕ → Str → (ops : ℕ) → BlkTable → ℤ × BlkTable
register_blk_at alloc none name ops t = (negsuc 0, record t { locked = true })
register_blk_at alloc (some major) name ops t =
    if not alloc then (negsuc 0, record t { locked = false }) else (
      pos major,
      record {
        drivers = set t.drivers (major - 1) (record { name = name; ops = ops; devs = some [] });
        locked = false;
      },
    )

-- `none` for a write outside the table
pub register_blkdev :
    (alloc : Bool) → (major : ℕ) → Str → (ops : ℕ) → BlkTable → Option (ℤ × BlkTable)
unfolding register_blk_at free_blk_major
register_blkdev alloc major name ops t =
    if ltb 256 major
    then none
    else some (
        register_blk_at alloc (if major == 0 then free_blk_major 1 t.drivers else some major) name
          ops t)

-- where the loop of `add_blkdev` stops
pub data Spot : Type 0 where
  taken : Spot
  first : Spot  -- before the head of the list
  middle : Spot
  last : Spot

-- the tests of one round
pub clashes : (dev blockdev : BlkDev) → Bool
clashes dev b =
    let below = (b.minor + b.max_part) % 2 ^ 32 in
    let top = (dev.minor + dev.max_part) % 2 ^ 32 in
    (ltb b.minor dev.minor && ltb dev.minor below) || (ltb b.minor top && ltb top below)

pub find_spot : (at_head : Bool) → BlkDev → List BlkDev → Spot
unfolding clashes
find_spot at_head dev [] = last
find_spot at_head dev (b ∷ bs) =
    let rest = find_spot false dev bs in
    if clashes dev b
    then taken
    else if ltb dev.minor b.minor
    then (if at_head then first else middle)
    else rest

-- What a walk over the list meets afterwards. `list_insert_before` links the new node only before the
-- head; behind that a walk meets what it met before.
pub insert_at : (alloc : Bool) → Spot → BlkDev → List BlkDev → ℤ × List BlkDev
insert_at alloc taken dev devs = (err eexist, devs)
insert_at alloc first dev devs = if alloc then (pos 0, dev ∷ devs) else (err enomem, devs)
insert_at alloc middle dev devs = if alloc then (pos 0, devs) else (err enomem, devs)
insert_at alloc last dev devs = if alloc then (pos 0, devs ++ dev ∷ []) else (err enomem, devs)

-- by the devices of the driver, if there is one
pub add_blkdev : (alloc : Bool) → BlkDev → Option (List BlkDev) → ℤ × Option (List BlkDev)
unfolding find_spot insert_at
add_blkdev alloc dev none = (err esrch, none)
add_blkdev alloc dev (some devs) =
    let (code, devs') = insert_at alloc (find_spot true dev devs) dev devs in (code, some devs')
