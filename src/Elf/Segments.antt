-- ===== src/Elf/Segments.antt =====
-- The pages that the loop over the program headers allocates.
use dionysus.Prelude.{
  ℕ, zero, suc, ◌+◌, ◌*◌, ◌/◌, ◌%◌, ◌^◌, ◌≤◌, ◌<◌, ◌≡◌, ◌≢◌, refl, ◌∙◌, Bool, true, false, ◌||◌,
  some, List, [], ◌∷◌, ◌++◌, ltb, ◌==◌, if◌then◌else◌, arith, Bool-cases, inl, inr, ap,
}
use mathlib.Core.Bool.{or_assoc}
use dionysus.Elf.{Phdr, Image, u32, page_loop, lower, upper, with_pages, load_segment}

-- the page with the number `p` is among those allocated
abbrev pub has_page : ℕ → List (ℕ × Bool) → Bool
has_page p [] = false
has_page p ((j, writable) ∷ ps) = (j / 4096 == p) || has_page p ps

pub has_page-append :
    (p : ℕ) (ps qs : List (ℕ × Bool)) → has_page p (ps ++ qs) ≡ (has_page p ps || has_page p qs)
has_page-append p [] qs = refl
has_page-append p (x ∷ ps) qs = rw (has_page-append p ps qs, or_assoc)

abbrev pub Covers : (j limit : ℕ) → List (ℕ × Bool) → Type 0
Covers j limit ps = (a : ℕ) → j ≤ a → a < limit → has_page (a / 4096) ps ≡ true

page_loop-more :
    (fuel j j' limit : ℕ) (writable : Bool) (ps : List (ℕ × Bool))
    → ltb j limit ≡ true
    → u32 (j + 4096) ≡ j'
    → page_loop fuel j' limit writable ≡ some ps
    → page_loop (suc fuel) j limit writable ≡ some ((j, writable) ∷ ps)
unfolding page_loop
page_loop-more fuel j j' limit writable ps more step e = rw (more, step, e) refl

pub page_loop-Covers :
    (fuel j limit : ℕ) (writable : Bool)
    → limit + 4096 ≤ 2 ^ 32
    → limit ≤ j + fuel * 4096
    → (ps : List (ℕ × Bool)) × (page_loop (suc fuel) j limit writable ≡ some ps)
      × (j % 4096 ≡ 0 → Covers j limit ps)
unfolding page_loop
page_loop-Covers zero j limit writable low enough =
    let over : ltb j limit ≡ false = ground arith in
    ([], rw over refl, λ aligned a h k. absurd (omega arith))
page_loop-Covers (suc fuel) j limit writable low enough = elim (Bool-cases (ltb j limit)) [
  | inr over ↦ ([], rw over refl, λ aligned a h k. absurd (ground arith))
  | inl more ↦
      let less : j < limit = ground arith in
      let step : u32 (j + 4096) ≡ j + 4096 = omega arith in
      let (ps, e, covers) = page_loop-Covers fuel (j + 4096) limit writable low (omega arith) in
      (
        (j, writable) ∷ ps,
        page_loop-more (suc fuel) j (j + 4096) limit writable ps more step e,
        λ aligned a h k. elim (Bool-cases (j / 4096 == a / 4096)) [
          | inl here ↦ rw here refl
          | inr later ↦ rw (later, covers (omega arith) a (ground arith) k) refl
        ],
      )
]

-- what the later segments keep
pub record Grows (im im' : Image) : Type 0 where
  pub start : im'.start ≤ im.start
  pub limit : im.limit ≤ im'.limit
  pub pages : (p : ℕ) → has_page p im.pages ≡ true → has_page p im'.pages ≡ true

pub Grows-trans : {a b c : Image} → Grows a b → Grows b c → Grows a c
Grows-trans g h = record {
  start = omega (arith, g.start, h.start);
  limit = omega (arith, g.limit, h.limit);
  pages = λ p e. h.pages p (g.pages p e);
}

pub Grows-refl : (a : Image) → Grows a a
Grows-refl a = record { start = omega arith; limit = omega arith; pages = λ p e. e }

-- a segment that starts at a page and leaves room for one at the end of the address space
pub record IsPlaced (h : Phdr) : Type 0 where
  pub aligned : h.vaddr % 4096 ≡ 0
  pub fits : h.vaddr + h.memsz + 4096 ≤ 2 ^ 32

-- the segment lies in the image, and all of its pages are there
pub record Holds (im : Image) (h : Phdr) : Type 0 where
  pub start : im.start ≤ h.vaddr
  pub limit : h.vaddr + h.memsz ≤ im.limit
  pub pages : (a : ℕ) → h.vaddr ≤ a → a < h.vaddr + h.memsz → has_page (a / 4096) im.pages ≡ true

pub Holds-Grows : {im im' : Image} (h : Phdr) → Holds im h → Grows im im' → Holds im' h
Holds-Grows h held g = record {
  start = omega (arith, held.start, g.start);
  limit = omega (arith, held.limit, g.limit);
  pages = λ a low high. g.pages (a / 4096) (held.pages a low high);
}

lower-le : (h : Phdr) (start : ℕ) → (lower h start ≤ start) × (lower h start ≤ h.vaddr)
unfolding lower
lower-le h start = elim (Bool-cases (ltb h.vaddr start)) [
  | inl less ↦ let l : h.vaddr < start = ground arith in rw less (omega arith, omega arith)
  | inr other ↦ rw other (omega arith, ground arith)
]

round_up-le :
    (limit top : ℕ)
    → top + 4096 ≤ 2 ^ 32
    → limit < top
    → (limit ≤ (if top % 4096 == 0 then top else u32 (top / 4096 * 4096 + 4096)))
      × (top ≤ (if top % 4096 == 0 then top else u32 (top / 4096 * 4096 + 4096)))
round_up-le limit top fits less = elim (Bool-cases (top % 4096 == 0)) [
  | inl whole ↦ rw whole (omega arith, omega arith)
  | inr part ↦ let p : top % 4096 ≢ 0 = ground arith in rw part (omega arith, omega arith)
]

upper-le :
    (h : Phdr) (limit : ℕ)
    → IsPlaced h
    → (limit ≤ upper h limit) × (h.vaddr + h.memsz ≤ upper h limit)
unfolding upper
upper-le h limit placed =
    let top = h.vaddr + h.memsz in
    let whole : u32 (h.vaddr + h.memsz) ≡ h.vaddr + h.memsz = omega (arith, placed.fits) in
    rw whole (elim (Bool-cases (ltb limit top)) [
      | inl less ↦
          let l : limit < top = ground arith in rw less (round_up-le limit top placed.fits l)
      | inr other ↦ rw other (omega arith, ground arith)
    ])

module _ (fuel : ℕ) (enough : 2 ^ 32 ≤ fuel * 4096 + 4096) where
  pages_of :
      (h : Phdr) (writable : Bool)
      → IsPlaced h
      → (ps : List (ℕ × Bool)) × (page_loop (suc fuel) h.vaddr (u32 (h.vaddr + h.memsz)) writable
          ≡ some ps)
        × Covers h.vaddr (h.vaddr + h.memsz) ps
  pages_of h writable placed =
      let whole : u32 (h.vaddr + h.memsz) ≡ h.vaddr + h.memsz = omega (arith, placed.fits) in
      let (ps, e, covers) =
        page_loop-Covers fuel h.vaddr (h.vaddr + h.memsz) writable placed.fits
          (omega (arith, placed.fits)) in
      (ps, ap (λ (l : ℕ). page_loop (suc fuel) h.vaddr l writable) whole ∙ e, covers placed.aligned)

  with_pages-Holds :
      (h : Phdr) (im : Image) (ps : List (ℕ × Bool))
      → IsPlaced h
      → Covers h.vaddr (h.vaddr + h.memsz) ps
      → (im' : Image) × (with_pages h im (some ps) ≡ some im') × Grows im im' × Holds im' h
  unfolding with_pages
  with_pages-Holds h im ps placed covers =
      let (low, start) = lower-le h im.start in
      let (high, limit) = upper-le h im.limit placed in
      (
        _,
        refl,
        record {
          start = low;
          limit = high;
          pages = λ p e. has_page-append p im.pages ps ∙ rw e refl;
        },
        record {
          start = start;
          limit = limit;
          pages =
              λ a l k. has_page-append (a / 4096) im.pages ps ∙ rw (covers a l k) (ground arith);
        },
      )

  pub load_segment-Holds :
      (h : Phdr) (im : Image)
      → IsPlaced h
      → (im' : Image) × (load_segment (suc fuel) h im ≡ some im')
        × Grows im im'
        × (h.kind ≡ 1 → Holds im' h)
  unfolding load_segment
  load_segment-Holds h im placed =
      let (ps, e, covers) = pages_of h (h.flags / 2 % 2 == 1) placed in
      elim (Bool-cases (h.kind == 1)) [
        | inl load ↦
            let (im', made, grows, holds) = with_pages-Holds h im ps placed covers in
            (im', rw (load, e) made, grows, λ k. holds)
        | inr other ↦ (im, rw other refl, Grows-refl im, λ k. absurd (ground arith))
      ]
