-- ===== src/Devfs/Blocks/Writes.antt =====
-- What `read_blkdev` and `write_blkdev` do to the bytes of the buffer and of the device.
use dionysus.Prelude.{
  ℕ, ◌+◌, ◌-◌, ◌*◌, ◌/◌, ◌%◌, ◌^◌, ◌≤◌, ◌<◌, ◌≡◌, ◌≢◌, ◌⊎◌, refl, sym, ap, ◌∙◌, true, false, Option,
  some, List, [], ◌∷◌, ltb, leb, ◌==◌, if◌then◌else◌, arith, Bool-cases, inl, inr,
}
use native.Mathlib.Nat.{mul-div_cancel, div-add-mod', mod-lt}
use dionysus.Prelude.Int.{pos}
use dionysus.Devfs.Blocks.{
  Layer, BioPiece, Bytes, Moved, page_size, count_sectors, split_bios, one_sector, copy_in,
  fill_head, fill_tail, read_pieces, read_bounce, read_blkdev, write_pieces, write_filled,
  write_bounce, write_blkdev,
}
use dionysus.Devfs.Blocks.Split.{
  positive, mul_le, multiple-Left, IsPaged, Adds, Covers, split_bios-Covers,
}
use dionysus.Devfs.Blocks.Transfers.{
  delivered, taken, Serves, IsMapped, delivered-inside, delivered-outside, taken-inside,
  taken-outside, copy_in-inside, copy_in-outside,
}

-- the bytes from an address on, in the physical memory
abbrev view : Layer → (addr : ℕ) → Bytes → Bytes
view layer addr memory p = memory (layer.resolve_physical (addr + p))

-- the number of sectors, and what their last one holds
record Fits (ss bytes n : ℕ) : Type 0 where
  enough : bytes ≤ n * ss
  bound : n * ss ≤ bytes + ss
  exact : bytes % ss ≡ 0 → n * ss ≡ bytes
  above : bytes % ss ≢ 0 → (n - 1) * ss ≤ bytes
  last : bytes % ss ≢ 0 → (n - 1) * ss + ss ≡ n * ss

part-Fits :
    (ss bytes q r : ℕ) → q * ss + r ≡ bytes → r < ss → bytes % ss ≢ 0 → Fits ss bytes (q + 1)
part-Fits ss bytes q r turns less ne =
    let before : q + 1 - 1 ≡ q = omega arith in
    record {
      enough = omega (arith, turns, less);
      bound = omega (arith, turns);
      exact = λ e. absurd (ne e);
      above = λ _. rw before (omega (arith, turns));
      last = λ _. rw before (omega arith);
    }

count_sectors-Fits :
    (ss bytes : ℕ) → 0 < ss → bytes + ss < 2 ^ 32 → Fits ss bytes (count_sectors ss bytes)
unfolding count_sectors
count_sectors-Fits ss bytes positive small =
    let turns : bytes / ss * ss + bytes % ss ≡ bytes = div-add-mod' bytes ss in
    let less : bytes % ss < ss = mod-lt bytes positive in
    let few = mul_le 1 ss (bytes / ss) positive in
    let whole_few : bytes / ss % 2 ^ 32 ≡ bytes / ss = omega (arith, turns, few, small) in
    let part_few : (bytes / ss + 1) % 2 ^ 32 ≡ bytes / ss + 1 =
      omega (arith, turns, few, small, positive) in
    elim (Bool-cases (bytes % ss == 0)) [
      | inl whole ↦
          let zero_left : bytes % ss ≡ 0 = ground arith in
          rw (whole, whole_few)
            record {
              enough = omega (arith, turns, zero_left);
              bound = omega (arith, turns);
              exact = λ _. omega (arith, turns, zero_left);
              above = λ ne. absurd (ne zero_left);
              last = λ ne. absurd (ne zero_left);
            }
      | inr part ↦
          let ne : bytes % ss ≢ 0 = ground arith in
          rw (part, part_few) (part-Fits ss bytes (bytes / ss) (bytes % ss) turns less ne)
    ]

-- the bytes of the device before an offset
abbrev Head : (ss : ℕ) → Bytes → (first delta : ℕ) → Bytes → Type 0
Head ss disk first delta B = (p : ℕ) → p < delta → B p ≡ disk (first * ss + p)

abbrev Tail : (ss : ℕ) → Bytes → (first from to : ℕ) → Bytes → Type 0
Tail ss disk first from to B = (p : ℕ) → from ≤ p → p < to → B p ≡ disk (first * ss + p)

-- a buffer with one sector of the device in it
record HasSector (ss first at : ℕ) (disk bounce B : Bytes) : Type 0 where
  inside : (p : ℕ) → at ≤ p → p < at + ss → B p ≡ disk (first * ss + (p - at))
  before : (p : ℕ) → p < at → B p ≡ bounce p

module _ (layer : Layer) (ss per : ℕ) (disk : Bytes) (paged : IsPaged layer ss per)
    (mapped : IsMapped layer) (adds : Adds layer) (serves : Serves layer ss disk) where
  -- the sector `m` of a buffer at a multiple of the sector size
  one_sector-HasSector :
      (first j m addr at : ℕ) (memory : Bytes)
      → first < 2 ^ 32
      → addr ≡ ss * (j + m)
      → addr ≡ ss * j + at
      → (B : Bytes) × (one_sector layer first addr memory ≡ some B)
        × HasSector ss first at disk (view layer (ss * j) memory) (view layer (ss * j) B)
  unfolding one_sector
  one_sector-HasSector first j m addr at memory small multiple from =
      let phys = layer.resolve_physical addr in
      let b : BioPiece = record {
        page = phys / page_size * page_size;
        offset = phys % page_size;
        nsectors = 1;
      } in
      let same : first % 2 ^ 32 ≡ first = omega arith in
      let left =
        multiple-Left ss per (j + m) (phys % page_size) paged.fits
          (paged.mapped addr ∙ ap (λ (x : ℕ). x % page_size) multiple) in
      let sector = mul_le 1 left.count_sectors ss left.some_left in
      let covers : Covers layer ss addr 1 (b ∷ []) =
        (omega arith, refl, omega (arith, left.bytes, sector), omega arith, omega arith, refl) in
      let phys_of = layer.resolve_physical in
      (
        (layer.read first (b ∷ []) memory).1,
        rw
            (
              same,
              serves.creates first false,
              adds.allocs 1,
              adds.add b,
              serves.reads_ok first (b ∷ []) memory,
            )
            refl,
        record {
          inside = λ p above to.
              let there : ss * j + p ≡ addr + (p - at) = omega (arith, from, above) in
              serves.reads first (b ∷ []) memory (phys_of (ss * j + p))
              ∙ ap (λ (x : ℕ). delivered ss disk first (b ∷ []) memory (phys_of x)) there
              ∙ delivered-inside layer ss mapped disk first addr 1 (b ∷ []) memory (p - at) covers
                  (omega (arith, above, to));
          before = λ p less.
              serves.reads first (b ∷ []) memory (phys_of (ss * j + p))
              ∙ delivered-outside layer ss mapped disk first addr 1 (b ∷ []) memory
                  (phys_of (ss * j + p)) covers
                  (λ i l e.
                    absurd (omega (arith, from, less, mapped.injective (addr + i) (ss * j + p) e)));
        },
      )

  at_byte : (first p q : ℕ) → q ≡ p → disk (first * ss + q) ≡ disk (first * ss + p)
  at_byte first p q e = ap (λ (x : ℕ). disk (first * ss + x)) e

  fill_head-Head :
      (first j delta : ℕ) (memory : Bytes)
      → first < 2 ^ 32
      → delta < ss
      → (B : Bytes) × (fill_head layer first (ss * j) delta memory ≡ some B)
        × Head ss disk first delta (view layer (ss * j) B)
  unfolding fill_head
  fill_head-Head first j delta memory small less = elim (Bool-cases (delta == 0)) [
    | inl none_before ↦ rw none_before (memory, refl, λ p l. absurd (ground arith))
    | inr part ↦
        let (B, e, has) =
          one_sector-HasSector first j 0 (ss * j) 0 memory small (omega arith) (omega arith) in
        rw part (
          B,
          e,
          λ p l. has.inside p (omega arith) (omega arith) ∙ at_byte first p (p - 0) (omega arith),
        )
  ]

  fill_tail-Tail :
      (first j delta bytes : ℕ) (memory : Bytes)
      → first + count_sectors ss bytes < 2 ^ 32
      → delta ≤ bytes
      → Fits ss bytes (count_sectors ss bytes)
      → Head ss disk first delta (view layer (ss * j) memory)
      → (B : Bytes) × (fill_tail layer ss first (ss * j) bytes (some memory) ≡ some B)
        × Head ss disk first delta (view layer (ss * j) B)
        × Tail ss disk first bytes (count_sectors ss bytes * ss) (view layer (ss * j) B)
  unfolding fill_tail
  fill_tail-Tail first j delta bytes memory small le fits head =
      elim (Bool-cases (bytes % ss == 0)) [
        | inl whole ↦
            let same = fits.exact (ground arith) in
            (memory, rw whole refl, head, λ p from to. absurd (omega (arith, same)))
        | inr part ↦
            let ne : bytes % ss ≢ 0 = ground arith in
            let before = count_sectors ss bytes - 1 in
            let above = fits.above ne in
            let last = fits.last ne in
            let enough = fits.enough in
            let (B, e, has) =
              one_sector-HasSector (first + before) j before (ss * j + before * ss) (before * ss)
                memory (omega (arith, small)) (omega arith) refl in
            let inside : (p : ℕ)
                → before * ss ≤ p
                → p < before * ss + ss
                → view layer (ss * j) B p ≡ disk (first * ss + p) =
              λ p from to. has.inside p from to ∙ ap disk (omega arith) in
            (
              B,
              rw part e,
              λ p l. elim (Bool-cases (ltb p (before * ss))) [
                | inl less ↦ has.before p (ground arith) ∙ head p l
                | inr more ↦ inside p (ground arith) (omega (arith, last, enough))
              ],
              λ p from to. inside p (omega (arith, above)) (omega (arith, last)),
            )
      ]

-- where an offset lies in its sector
record Offset (ss off : ℕ) : Type 0 where
  less : off % ss < ss
  first : (off - off % ss) / ss * ss + off % ss ≡ off

mod-Offset : (ss off : ℕ) → 0 < ss → Offset ss off
mod-Offset ss off positive =
    let turns : off / ss * ss + off % ss ≡ off = div-add-mod' off ss in
    let start : off - off % ss ≡ off / ss * ss = omega (arith, turns) in
    let q : (off - off % ss) / ss ≡ off / ss =
      ap (λ (x : ℕ). x / ss) start ∙ mul-div_cancel (off / ss) positive in
    record { less = mod-lt off positive; first = rw q turns }

-- Some bytes of the device are written, and the others are as they were.
pub record IsWritten (buf disk disk' : Bytes) (off count : ℕ) : Type 0 where
  pub inside : (b : ℕ) → off ≤ b → b < off + count → disk' b ≡ buf (b - off)
  pub outside : (b : ℕ) → (b < off) ⊎ (off + count ≤ b) → disk' b ≡ disk b

module _ (layer : Layer) (ss : ℕ) (buf disk B : Bytes) (mapped : IsMapped layer)
    (serves : Serves layer ss disk) (first delta count n off addr : ℕ) (bs : List BioPiece)
    (covers : Covers layer ss addr n bs) (enough : delta + count ≤ n * ss)
    (start : first * ss + delta ≡ off) (head : Head ss disk first delta (view layer addr B))
    (tail : Tail ss disk first (delta + count) (n * ss) (view layer addr B)) where
  content : Bytes
  content = copy_in layer.resolve_physical (addr + delta) count buf B

  content-inside :
      (p : ℕ) → delta ≤ p → p < delta + count → view layer addr content p ≡ buf (p - delta)
  unfolding content
  content-inside p from to =
      let there : addr + p ≡ addr + delta + (p - delta) = omega arith in
      ap (λ (x : ℕ). content (layer.resolve_physical x)) there
      ∙ copy_in-inside layer ss mapped (addr + delta) count buf B (p - delta) (omega arith)

  content-outside :
      (p : ℕ) → (p < delta) ⊎ (delta + count ≤ p) → view layer addr content p ≡ view layer addr B p
  unfolding content
  content-outside p out =
      copy_in-outside layer ss mapped (addr + delta) count buf B (addr + p)
        (elim out [ inl less ↦ inl (omega (arith, less)) | inr more ↦ inr (omega (arith, more)) ])

  -- a byte of the sectors that are written, and any other
  written-sector :
      (b : ℕ)
      → first * ss ≤ b
      → b < first * ss + n * ss
      → (layer.write first bs content).1 b ≡ view layer addr content (b - first * ss)
  written-sector b from to =
      let same : b ≡ first * ss + (b - first * ss) = omega arith in
      serves.writes first bs content b
      ∙ ap (taken ss content first bs disk) same
      ∙ taken-inside layer ss mapped content first addr n bs disk (b - first * ss) covers
          (omega arith)

  written-other :
      (b : ℕ)
      → (b < first * ss) ⊎ (first * ss + n * ss ≤ b)
      → (layer.write first bs content).1 b ≡ disk b
  written-other b out =
      serves.writes first bs content b
      ∙ taken-outside layer ss mapped content first addr n bs disk b covers out

  content-IsWritten : IsWritten buf disk (layer.write first bs content).1 off count
  content-IsWritten =
      let back : (b : ℕ) → first * ss ≤ b → disk (first * ss + (b - first * ss)) ≡ disk b =
        λ b from. ap disk (omega arith) in
      record {
        inside = λ b from to.
            written-sector b (omega arith) (omega arith)
            ∙ content-inside (b - first * ss) (omega arith) (omega arith)
            ∙ ap buf (omega arith);
        outside = λ b out. elim (Bool-cases (ltb b (first * ss))) [
          | inl below ↦ written-other b (inl (ground arith))
          | inr above ↦ elim (Bool-cases (leb (first * ss + n * ss) b)) [
            | inl behind ↦ written-other b (inr (ground arith))
            | inr within ↦
                let from : first * ss ≤ b = ground arith in
                let to : b < first * ss + n * ss = ground arith in
                written-sector b from to ∙ (elim out [
                  | inl less ↦
                      content-outside (b - first * ss) (inl (omega arith))
                      ∙ head (b - first * ss) (omega arith)
                      ∙ back b from
                  | inr more ↦
                      content-outside (b - first * ss) (inr (omega arith))
                      ∙ tail (b - first * ss) (omega arith) (omega arith)
                      ∙ back b from
                ])
          ]
        ];
      }

write_filled-count :
    (layer : Layer) (ss : ℕ) (disk : Bytes) (serves : Serves layer ss disk)
    (fuel first delta count addr : ℕ) (buf B : Bytes) (bs : List BioPiece)
    → first % 2 ^ 32 ≡ first
    → (count + delta) % 2 ^ 64 ≡ count + delta
    → split_bios fuel layer ss addr (count_sectors ss (count + delta)) ≡ some (pos 0, bs)
    → write_filled fuel layer ss first delta count addr buf disk (some B)
      ≡ some (
        pos count,
        (layer.write first bs (copy_in layer.resolve_physical (addr + delta) count buf B)).1,
      )
unfolding write_filled write_pieces
write_filled-count layer ss disk serves fuel first delta count addr buf B bs same bytes made =
    let memory = copy_in layer.resolve_physical (addr + delta) count buf B in
    rw (same, bytes, serves.creates first true, made, serves.writes_ok first bs memory) refl

-- With a sector size that divides the page size, a bounce buffer at a multiple of it whose pages are mapped as
-- pages, and a block layer that serves its requests, `write_blkdev` comes to an end and returns the count, if
-- the bytes with one sector more are fewer than 2^32, and the sectors' numbers too. The bytes from the offset
-- on are then those that were to be written, and all others of the device are as before.
pub write_blkdev-IsWritten :
    (layer : Layer) (ss per j : ℕ) (buf memory disk : Bytes) (count off : ℕ)
    → IsPaged layer ss per
    → IsMapped layer
    → Adds layer
    → Serves layer ss disk
    → count + off % ss + ss < 2 ^ 32
    → (off - off % ss) / ss + count_sectors ss (count + off % ss) < 2 ^ 32
    → (disk' : Bytes) × (write_blkdev
          (count_sectors ss (count + off % ss) + 1)
          layer
          ss
          (some (ss * j))
          buf
          memory
          disk
          count
          off
        ≡ some (pos count, disk'))
      × IsWritten buf disk disk' off count
unfolding write_blkdev write_bounce
write_blkdev-IsWritten layer ss per j buf memory disk count off paged mapped adds serves small
      near =
    let delta = off % ss in
    let first = (off - delta) / ss in
    let swap : ss * per ≡ per * ss = omega arith in
    let some_bytes : 0 < ss = positive per ss (sym swap ∙ paged.fits) in
    let place_of = mod-Offset ss off some_bytes in
    let fits = count_sectors-Fits ss (count + delta) some_bytes small in
    let enough = fits.enough in
    let bytes : (count + delta) % 2 ^ 64 ≡ count + delta = omega (arith, small) in
    let same : first % 2 ^ 32 ≡ first = omega (arith, near) in
    let (B, e, head) =
      fill_head-Head layer ss per disk paged mapped adds serves first j delta memory
        (omega (arith, near)) place_of.less in
    let (B', e', head', tail) =
      fill_tail-Tail layer ss per disk paged mapped adds serves first j delta (count + delta) B near
        (omega arith) fits head in
    let (bs, made, covers) =
      split_bios-Covers layer ss per j (count_sectors ss (count + delta)) paged adds
        (omega (arith, fits.bound, small)) in
    let fuel = count_sectors ss (count + delta) + 1 in
    let write : Option Bytes → Moved =
      write_filled fuel layer ss first delta count (ss * j) buf disk in
    let content = copy_in layer.resolve_physical (ss * j + delta) count buf B' in
    (
      (layer.write first bs content).1,
      ap
            (λ (x : ℕ).
              write
                (fill_tail layer ss first (ss * j) x (fill_head layer first (ss * j) delta memory)))
            bytes
          ∙ ap (λ (o : Option Bytes). write (fill_tail layer ss first (ss * j) (count + delta) o)) e
          ∙ ap write e'
          ∙ write_filled-count layer ss disk serves fuel first delta count (ss * j) buf B' bs same
              bytes made,
      unfold content in
          content-IsWritten layer ss buf disk B' mapped serves first delta count
            (count_sectors ss (count + delta)) off (ss * j) bs covers (omega (arith, enough))
            place_of.first head' (λ p from to. tail p (omega arith) to),
    )

-- Some bytes of the device are in the buffer, and the others of it are as they were.
pub record IsRead (buf buf' disk : Bytes) (off count : ℕ) : Type 0 where
  pub inside : (i : ℕ) → i < count → buf' i ≡ disk (off + i)
  pub outside : (i : ℕ) → count ≤ i → buf' i ≡ buf i

-- the copy out of the bounce buffer
abbrev copied : Layer → (addr count : ℕ) → (buf memory : Bytes) → Bytes
copied layer addr count buf memory i =
    if ltb i count then memory (layer.resolve_physical (addr + i)) else buf i

read_bounce-count :
    (layer : Layer) (ss : ℕ) (disk : Bytes) (serves : Serves layer ss disk)
    (fuel first delta count addr : ℕ) (buf memory : Bytes) (bs : List BioPiece)
    → (count + delta) % 2 ^ 64 ≡ count + delta
    → split_bios fuel layer ss addr (count_sectors ss (count + delta)) ≡ some (pos 0, bs)
    → read_bounce fuel layer ss first delta count buf memory (some addr)
      ≡ some (pos count, copied layer (addr + delta) count buf (layer.read first bs memory).1)
unfolding read_bounce read_pieces
read_bounce-count layer ss disk serves fuel first delta count addr buf memory bs bytes made =
    rw (bytes, made, serves.reads_ok first bs memory) refl

read_blkdev-bounce :
    (layer : Layer) (ss : ℕ) (disk : Bytes) (serves : Serves layer ss disk) (fuel : ℕ)
    (bounce : Option ℕ) (buf memory : Bytes) (count off : ℕ)
    → (off - off % ss) / ss % 2 ^ 32 ≡ (off - off % ss) / ss
    → read_blkdev fuel layer ss bounce buf memory count off
      ≡ read_bounce fuel layer ss ((off - off % ss) / ss) (off % ss) count buf memory bounce
unfolding read_blkdev
read_blkdev-bounce layer ss disk serves fuel bounce buf memory count off same =
    rw (same, serves.creates ((off - off % ss) / ss) false) refl

-- With a sector size that divides the page size, a bounce buffer at a multiple of it whose pages are mapped as
-- pages, and a block layer that serves its requests, `read_blkdev` comes to an end and returns the count, if
-- the bytes with one sector more are fewer than 2^32, and the sectors' numbers too. The buffer then has the
-- bytes of the device from the offset on, and is otherwise as before.
pub read_blkdev-IsRead :
    (layer : Layer) (ss per j : ℕ) (buf memory disk : Bytes) (count off : ℕ)
    → IsPaged layer ss per
    → IsMapped layer
    → Adds layer
    → Serves layer ss disk
    → count + off % ss + ss < 2 ^ 32
    → (off - off % ss) / ss + count_sectors ss (count + off % ss) < 2 ^ 32
    → (buf' : Bytes) × (read_blkdev
          (count_sectors ss (count + off % ss) + 1)
          layer
          ss
          (some (ss * j))
          buf
          memory
          count
          off
        ≡ some (pos count, buf'))
      × IsRead buf buf' disk off count
read_blkdev-IsRead layer ss per j buf memory disk count off paged mapped adds serves small near =
    let delta = off % ss in
    let first = (off - delta) / ss in
    let n = count_sectors ss (count + delta) in
    let swap : ss * per ≡ per * ss = omega arith in
    let some_bytes : 0 < ss = positive per ss (sym swap ∙ paged.fits) in
    let start = (mod-Offset ss off some_bytes).first in
    let fits = count_sectors-Fits ss (count + delta) some_bytes small in
    let enough = fits.enough in
    let bytes : (count + delta) % 2 ^ 64 ≡ count + delta = omega (arith, small) in
    let same : first % 2 ^ 32 ≡ first = omega (arith, near) in
    let (bs, made, covers) =
      split_bios-Covers layer ss per j n paged adds (omega (arith, fits.bound, small)) in
    let after = (layer.read first bs memory).1 in
    let phys = layer.resolve_physical in
    (
      copied layer (ss * j + delta) count buf after,
      read_blkdev-bounce layer ss disk serves (n + 1) (some (ss * j)) buf memory count off same
          ∙ read_bounce-count layer ss disk serves (n + 1) first delta count (ss * j) buf memory bs
              bytes made,
      record {
        inside = λ i less.
            let c : ltb i count ≡ true = ground arith in
            let there : ss * j + delta + i ≡ ss * j + (delta + i) = omega arith in
            rw c (
              serves.reads first bs memory (phys (ss * j + delta + i))
              ∙ ap (λ (x : ℕ). delivered ss disk first bs memory (phys x)) there
              ∙ delivered-inside layer ss mapped disk first (ss * j) n bs memory (delta + i) covers
                  (omega (arith, enough, less))
              ∙ ap disk (omega (arith, start)));
        outside = λ i le. let c : ltb i count ≡ false = ground arith in rw c refl;
      },
    )
