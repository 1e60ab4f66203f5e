-- ===== src/Block/Devices/Laws.antt =====
-- A request is for the partition that the device number names.
use dionysus.Prelude.{
  ℕ, ◌+◌, ◌%◌, ◌^◌, ◌≡◌, refl, inl, inr, Bool, true, ◌&&◌, Option, none, some, List, [], ◌∷◌, leb,
  ◌==◌, if◌then◌else◌, arith, Bool-cases, sym, ap, ◌∙◌,
}
use mathlib.Core.Option.{some-injective}
use dionysus.Block.Request.{Request, unsched}
use dionysus.Block.Devices.{
  Part, BlkDev, find_dev, has_part, if_has_part, get_blkdev, find_part, request_at, request_for,
  request_on, create_request_blkdev,
}

-- the first partition with the minor
abbrev pub lookup : ℕ → List Part → Option Part
lookup minor [] = none
lookup minor (p ∷ ps) = if p.minor == minor then some p else lookup minor ps

find_part-lookup :
    (minor : ℕ) (ps : List Part) → has_part minor ps ≡ true → find_part minor ps ≡ lookup minor ps
unfolding has_part find_part
find_part-lookup minor [] h = refl
find_part-lookup minor (p ∷ []) h = ground arith
find_part-lookup minor (p ∷ q ∷ ps) h = ground (arith, find_part-lookup minor (q ∷ ps))

lookup-some :
    (minor : ℕ) (ps : List Part)
    → has_part minor ps ≡ true
    → (p : Part) × (lookup minor ps ≡ some p) × (p.minor ≡ minor)
unfolding has_part
lookup-some minor [] h = ground arith
lookup-some minor (p ∷ ps) h = elim (Bool-cases (p.minor == minor)) [
  | inl same ↦ (p, rw same, ground arith)
  | inr other ↦ rw other (lookup-some minor ps (ground arith))
]

has_of_if_has_part :
    (minor : ℕ) (o : Option BlkDev) (d : BlkDev)
    → if_has_part minor o ≡ some d
    → has_part minor d.partitions ≡ true
unfolding if_has_part
has_of_if_has_part minor none d e = ground arith
has_of_if_has_part minor (some c) d e = elim (Bool-cases (has_part minor c.partitions)) [
  | inl h ↦
      let found : if_has_part minor (some c) ≡ some c = rw h in
      let same : c ≡ d = some-injective c d (sym found ∙ e) in
      ap (λ (x : BlkDev). has_part minor x.partitions) (sym same) ∙ h
  | inr h ↦ ground arith
]

has_of_get_blkdev :
    (devs : Option (List BlkDev)) (minor : ℕ) (d : BlkDev)
    → get_blkdev devs minor ≡ some d
    → has_part minor d.partitions ≡ true
unfolding get_blkdev
has_of_get_blkdev none minor d e = ground arith
has_of_get_blkdev (some devs) minor d e = has_of_if_has_part minor (find_dev minor devs) d e

-- the request that the code makes for a sector of a partition
abbrev pub fresh_request : BlkDev → Part → ℕ → ℕ → Request
fresh_request d p first_sector flags = record {
  flags = flags;
  first_sector = (first_sector + p.offset) % 2 ^ 32;
  nsectors = 0;
  status = unsched;
  rc = 0;
  sector_size = d.sector_size;
  bios = [];
  wakes = 0;
}

request_at_lem :
    (allocs : Bool) (d : BlkDev) (first_sector flags : ℕ) (p : Part)
    → request_at allocs d first_sector flags p ≡ (
        if leb first_sector p.size && allocs
        then some (fresh_request d p first_sector flags)
        else none)
unfolding request_at
request_at_lem allocs d first_sector flags p = ground arith

-- If `get_blkdev` finds a device, `create_request_blkdev` reads no NULL partition: the device has a
-- partition with the minor, and the result is a new request for it, shifted by its offset, if its
-- size is at least the first sector and the allocations succeed, and else NULL.
pub create_request_blkdev-part :
    (allocs : Bool) (devs : Option (List BlkDev)) (minor first_sector flags : ℕ) (d : BlkDev)
    → get_blkdev devs minor ≡ some d
    → (p : Part) × (lookup minor d.partitions ≡ some p)
      × (p.minor ≡ minor)
      × (create_request_blkdev allocs devs minor first_sector flags
          ≡ some (
              if leb first_sector p.size && allocs
              then some (fresh_request d p first_sector flags)
              else none))
unfolding create_request_blkdev request_on request_for
create_request_blkdev-part allocs devs minor first_sector flags d e =
    let has = has_of_get_blkdev devs minor d e in
    let (p, at, same) = lookup-some minor d.partitions has in
    (
      p,
      at,
      same,
      rw (e, find_part-lookup minor d.partitions has, at)
          (ap some (request_at_lem allocs d first_sector flags p)),
    )
