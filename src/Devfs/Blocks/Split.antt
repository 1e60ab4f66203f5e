-- ===== src/Devfs/Blocks/Split.antt =====
-- The bios of a request: they cover its sectors, each within its page.
use dionysus.Prelude.{
  ℕ, zero, suc, ◌+◌, ◌-◌, ◌*◌, ◌/◌, ◌%◌, ◌^◌, ◌≤◌, ◌<◌, ◌≡◌, refl, ap, ◌∙◌, true, false, none, some,
  List, [], ◌∷◌, ltb, ◌==◌, arith, Bool-cases, inl, inr,
}
use native.Mathlib.Nat.{mul-div_cancel, div-eq_of_lt, div-add-mod', mod-lt}
use dionysus.Prelude.Int.{pos}
use dionysus.Devfs.Blocks.{Layer, BioPiece, piece_at, page_size, split_bios, cons_piece, is_error}

-- The sector size divides the page size, and the pages of the buffer are mapped as pages.
pub record IsPaged (layer : Layer) (ss per : ℕ) : Type 0 where
  pub fits : ss * per ≡ page_size
  pub mapped : (addr : ℕ) → layer.resolve_physical addr % page_size ≡ addr % page_size

-- No allocation and no call that adds a bio fails.
pub record Adds (layer : Layer) : Type 0 where
  pub allocs : (left : ℕ) → layer.allocs left ≡ true
  pub add : (b : BioPiece) → is_error (layer.add b) ≡ false

-- The bios stand for some sectors from an address on, each in one page.
abbrev pub Covers : Layer → (ss addr nsects : ℕ) → List BioPiece → Type 0
Covers layer ss addr nsects [] = nsects ≡ 0
Covers layer ss addr nsects (b ∷ bs) =
    (b.page + b.offset ≡ layer.resolve_physical addr)
    × (b.offset ≡ layer.resolve_physical addr % page_size)
    × (b.offset + b.nsectors * ss ≤ page_size)
    × (0 < b.nsectors)
    × (b.nsectors ≤ nsects)
    × Covers layer ss (addr + b.nsectors * ss) (nsects - b.nsectors) bs

-- how far an address that is a multiple of the sector size is from the end of its page, in sectors
pub record Left (ss per addr offset : ℕ) : Type 0 where
  pub count_sectors : ℕ
  pub some_left : 0 < count_sectors
  pub bytes : offset + count_sectors * ss ≡ page_size
  whole : (page_size - offset) / ss ≡ count_sectors

pub positive : (a b : ℕ) → a * b ≡ page_size → 0 < b
positive a zero e = absurd (omega (arith, e))
positive a (suc b) e = omega arith

product : (a b : ℕ) → 0 < a → 0 < b → 0 < a * b
product zero b h k = absurd (omega arith)
product (suc a) b h k = omega (arith, k)

mul_less : (a b s : ℕ) → a * s < b * s → a ≤ b
mul_less zero b s less = omega arith
mul_less (suc a) zero s less = absurd (omega arith)
mul_less (suc a) (suc b) s less = omega (arith, mul_less a b s (omega arith))

pub mul_le : (a b s : ℕ) → a ≤ b → a * s ≤ b * s
mul_le zero b s le = omega arith
mul_le (suc a) zero s le = absurd (omega arith)
mul_le (suc a) (suc b) s le = omega (arith, mul_le a b s (omega arith))

pub multiple-Left :
    (ss per j offset : ℕ)
    → ss * per ≡ page_size
    → offset ≡ ss * j % page_size
    → Left ss per (ss * j) offset
multiple-Left ss per j offset fits is =
    let per_positive : 0 < per = positive ss per fits in
    let ss_positive : 0 < ss = positive per ss (omega (arith, fits)) in
    let m = j % per in
    let less : m < per = mod-lt j per_positive in
    let turns : j / per * per + m ≡ j = div-add-mod' j per in
    let spread : ss * (j / per * per + m) ≡ ss * j = ap (λ (x : ℕ). ss * x) turns in
    let pages : j / per * (ss * per) ≡ j / per * page_size = ap (λ (x : ℕ). j / per * x) fits in
    let back : per - m + m ≡ per = omega arith in
    let rest : ss * (per - m + m) ≡ ss * per = ap (λ (x : ℕ). ss * x) back in
    let inside : 0 < ss * (per - m) = product ss (per - m) ss_positive (omega arith) in
    let same : offset ≡ ss * m = is ∙ omega (arith, spread, pages, rest, fits, inside) in
    let whole' : page_size - offset ≡ (per - m) * ss = omega (arith, same, rest, fits) in
    record {
      count_sectors = per - m;
      some_left = omega arith;
      bytes = omega (arith, same, rest, fits);
      whole = ap (λ (x : ℕ). x / ss) whole' ∙ mul-div_cancel (per - m) ss_positive;
    }

split_bios-step :
    (layer : Layer) (ss per j n : ℕ)
    → IsPaged layer ss per
    → suc n * ss < 2 ^ 32
    → (let b = piece_at layer ss (ss * j) (suc n) in
        (b.page + b.offset ≡ layer.resolve_physical (ss * j))
        × (b.offset ≡ layer.resolve_physical (ss * j) % page_size)
        × (b.offset + b.nsectors * ss ≤ page_size)
        × (0 < b.nsectors)
        × (b.nsectors ≤ suc n))
unfolding piece_at
split_bios-step layer ss per j n paged small =
    let phys = layer.resolve_physical (ss * j) in
    let offset = phys % page_size in
    let l = multiple-Left ss per j offset paged.fits (paged.mapped (ss * j)) in
    let same : suc n * ss % 2 ^ 64 ≡ suc n * ss = omega arith in
    rw same (elim (Bool-cases (ltb (page_size - offset) (suc n * ss))) [
      | inl more ↦ rw more (
          rw (l.whole) (
            omega arith,
            refl,
            omega (arith, l.bytes),
            l.some_left,
            mul_less l.count_sectors (suc n) ss (ground (arith, l.bytes)),
          ))
      | inr fits ↦ rw fits (omega arith, refl, ground arith, omega arith, omega arith)
    ])

-- the loop, from an address in the middle
split_from :
    (fuel : ℕ) (layer : Layer) (ss per j n : ℕ)
    → IsPaged layer ss per
    → Adds layer
    → n * ss < 2 ^ 32
    → n < fuel
    → (bs : List BioPiece) × (split_bios fuel layer ss (ss * j) n ≡ some (pos 0, bs))
      × Covers layer ss (ss * j) n bs
unfolding split_bios
split_from zero layer ss per j n paged adds small enough = absurd (omega arith)
split_from (suc fuel) layer ss per j zero paged adds small enough = ([], refl, refl)
split_from (suc fuel) layer ss per j (suc n) paged adds small enough =
    let b = piece_at layer ss (ss * j) (suc n) in
    let left_over : suc n == 0 ≡ false = ground arith in
    let (at, offset, inside, some_sectors, le) = split_bios-step layer ss per j n paged small in
    let next : ss * (j + b.nsectors) ≡ ss * j + b.nsectors * ss = omega arith in
    let less : (suc n - b.nsectors) * ss < 2 ^ 32 =
      omega (arith, mul_le (suc n - b.nsectors) (suc n) ss (omega arith)) in
    let (bs, e, covers) =
      split_from fuel layer ss per (j + b.nsectors) (suc n - b.nsectors) paged adds less
        (omega arith) in
    (
      b ∷ bs,
      rw (left_over, adds.allocs (suc n), adds.add b) (ap (cons_piece b) (rw next at e)),
      (at, offset, inside, some_sectors, le, rw next at covers),
    )

-- Where the sector size divides the page size, the buffer starts at a multiple of it and takes less than 2^32
-- bytes, no allocation fails and every bio can be added, the loop comes to an end within one turn more than
-- there are sectors. The bios stand for the sectors in order, each in one page.
pub split_bios-Covers :
    (layer : Layer) (ss per j n : ℕ)
    → IsPaged layer ss per
    → Adds layer
    → n * ss < 2 ^ 32
    → (bs : List BioPiece) × (split_bios (n + 1) layer ss (ss * j) n ≡ some (pos 0, bs))
      × Covers layer ss (ss * j) n bs
split_bios-Covers layer ss per j n paged adds small =
    split_from (n + 1) layer ss per j n paged adds small (omega arith)

-- the loop that makes no way
split_stuck :
    (fuel : ℕ) (layer : Layer) (ss addr n : ℕ)
    → Adds layer
    → (piece_at layer ss addr (suc n)).nsectors ≡ 0
    → split_bios fuel layer ss addr (suc n) ≡ none
unfolding split_bios
split_stuck zero layer ss addr n adds stuck = refl
split_stuck (suc fuel) layer ss addr n adds stuck =
    let b = piece_at layer ss addr (suc n) in
    let left_over : suc n == 0 ≡ false = ground arith in
    let same : addr + b.nsectors * ss ≡ addr = omega (arith, ap (λ (x : ℕ). x * ss) stuck) in
    let left : suc n - b.nsectors ≡ suc n = omega (arith, stuck) in
    rw (left_over, adds.allocs (suc n), adds.add b)
      (ap (cons_piece b) (
        ap (λ (x : ℕ). split_bios fuel layer ss x (suc n - b.nsectors)) same
        ∙ ap (λ (x : ℕ). split_bios fuel layer ss addr x) left
        ∙ split_stuck fuel layer ss addr n adds stuck))

-- With sectors of more than a page the loop never comes to an end, as long as no allocation fails and every
-- bio can be added: each bio stands for no sector.
pub split_bios-endless :
    (fuel : ℕ) (layer : Layer) (ss addr n : ℕ)
    → Adds layer
    → page_size < ss
    → suc n * ss < 2 ^ 32
    → split_bios fuel layer ss addr (suc n) ≡ none
unfolding piece_at
split_bios-endless fuel layer ss addr n adds large small =
    let offset = layer.resolve_physical addr % page_size in
    let same : suc n * ss % 2 ^ 64 ≡ suc n * ss = omega arith in
    let greater : page_size - offset < suc n * ss % 2 ^ 64 = omega (arith, same) in
    let more : ltb (page_size - offset) (suc n * ss % 2 ^ 64) ≡ true = ground arith in
    let none_fits : (page_size - offset) / ss ≡ 0 = div-eq_of_lt (omega arith) in
    split_stuck fuel layer ss addr n adds (rw (more, none_fits) refl)
