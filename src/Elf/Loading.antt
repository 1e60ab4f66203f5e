-- ===== src/Elf/Loading.antt =====
-- All segments of a program.
use dionysus.Prelude.{
  ℕ, zero, suc, ◌+◌, ◌-◌, ◌*◌, ◌/◌, ◌%◌, ◌^◌, ◌≤◌, ◌<◌, ◌≡◌, ◌≢◌, refl, ◌∙◌, Bool, true, false,
  none, some, List, [], ◌∷◌, ◌++◌, ltb, ◌==◌, arith, Bool-cases, Option-cases, inl, inr, ap,
  get_elem?,
}
use dionysus.Elf.{
  Phdr, Image, u32, page_loop, with_pages, load_segment, load_from, empty_image, load_segments,
}
use dionysus.Elf.Segments.{
  has_page-append, page_loop-Covers, has_page, IsPlaced, Holds, Grows, Grows-refl, Grows-trans,
  Holds-Grows, load_segment-Holds,
}

abbrev pub ArePlaced : List Phdr → Type 0
ArePlaced hs = (i : ℕ) (h : Phdr) → get_elem? hs i ≡ some h → IsPlaced h

-- every segment that is to be loaded lies in the image
abbrev pub HoldsAll : Image → List Phdr → Type 0
HoldsAll im hs = (i : ℕ) (h : Phdr) → get_elem? hs i ≡ some h → h.kind ≡ 1 → Holds im h

HoldsAll-cons :
    (h : Phdr) (hs : List Phdr) (next last : Image)
    → (h.kind ≡ 1 → Holds next h)
    → Grows next last
    → HoldsAll last hs
    → HoldsAll last (h ∷ hs)
HoldsAll-cons h hs next last holds grows all zero g at load =
    let same : h ≡ g = ground arith in
    rw (← same) (Holds-Grows h (holds (ap (λ (x : Phdr). x.kind) same ∙ load)) grows)
HoldsAll-cons h hs next last holds grows all (suc i) g at load = all i g at load

load_from-cons :
    (fuel : ℕ) (h : Phdr) (hs : List Phdr) (im next last : Image)
    → load_segment fuel h im ≡ some next
    → load_from fuel hs (some next) ≡ some last
    → load_from fuel (h ∷ hs) (some im) ≡ some last
unfolding load_from
load_from-cons fuel h hs im next last e e' = ap (load_from fuel hs) e ∙ e'

load_from-HoldsAll :
    (fuel : ℕ) (hs : List Phdr) (im : Image)
    → 2 ^ 32 ≤ fuel * 4096 + 4096
    → ArePlaced hs
    → (im' : Image) × (load_from (suc fuel) hs (some im) ≡ some im')
      × Grows im im'
      × HoldsAll im' hs
unfolding load_from
load_from-HoldsAll fuel [] im enough placed = (im, refl, Grows-refl im, λ i h e k. ground arith)
load_from-HoldsAll fuel (h ∷ hs) im enough placed =
    let (next, e, grows, holds) = load_segment-Holds fuel enough h im (placed 0 h refl) in
    let (last, e', grows', all) =
      load_from-HoldsAll fuel hs next enough (λ i g at. placed (suc i) g at) in
    (
      last,
      load_from-cons (suc fuel) h hs im next last e e',
      Grows-trans grows grows',
      HoldsAll-cons h hs next last holds grows' all,
    )

-- Where every segment starts at a page and leaves room for a page at the end of the address space, the
-- loop over the program headers comes to an end, and each segment to be loaded lies between `start` and
-- `end` with all its pages allocated.
pub load_segments-HoldsAll :
    (hs : List Phdr) → ArePlaced hs → (im : Image) × (load_segments hs ≡ some im) × HoldsAll im hs
unfolding load_segments
load_segments-HoldsAll hs placed =
    let (im, e, grows, holds) = load_from-HoldsAll 1048575 hs empty_image (omega arith) placed in
    (im, e, holds)

page_loop-rest :
    (fuel j limit : ℕ) (writable : Bool) (ps : List (ℕ × Bool))
    → ltb j limit ≡ true
    → page_loop (suc fuel) j limit writable ≡ some ps
    → (qs : List (ℕ × Bool)) × (page_loop fuel (u32 (j + 4096)) limit writable ≡ some qs)
      × ((j, writable) ∷ qs ≡ ps)
unfolding page_loop
page_loop-rest fuel j limit writable ps more e =
    elim (Option-cases (page_loop fuel (u32 (j + 4096)) limit writable)) [
      | inl endless ↦ let e' : none ≡ some ps = rw (more, endless) at e in ground arith
      | inr (qs, rest) ↦
          let e' : some ((j, writable) ∷ qs) ≡ some ps = rw (more, rest) at e in
          (qs, rest, ground arith)
    ]

page_loop-none :
    (j limit : ℕ) (writable : Bool) (ps : List (ℕ × Bool))
    → page_loop 0 j limit writable ≡ some ps
    → has_page ((limit - 1) / 4096) ps ≡ false
unfolding page_loop
page_loop-none j limit writable ps e = ground arith

page_loop-over :
    (fuel j limit : ℕ) (writable : Bool) (ps : List (ℕ × Bool))
    → ltb j limit ≡ false
    → page_loop (suc fuel) j limit writable ≡ some ps
    → [] ≡ ps
unfolding page_loop
page_loop-over fuel j limit writable ps over e =
    let e' : some [] ≡ some ps = rw over at e in ground arith

last_page :
    (fuel j limit : ℕ) (writable : Bool) (ps : List (ℕ × Bool))
    → limit + 4096 ≤ 2 ^ 32
    → (limit - 1) % 4096 < j % 4096
    → page_loop fuel j limit writable ≡ some ps
    → has_page ((limit - 1) / 4096) ps ≡ false
last_page zero j limit writable ps fits later e = page_loop-none j limit writable ps e
last_page (suc fuel) j limit writable ps fits later e = elim (Bool-cases (ltb j limit)) [
  | inl more ↦
      let (qs, rest, eq) = page_loop-rest fuel j limit writable ps more e in
      let less : j < limit = ground arith in
      let step : u32 (j + 4096) ≡ j + 4096 = omega arith in
      let other : j / 4096 == (limit - 1) / 4096 ≡ false =
        (let ne : j / 4096 ≢ (limit - 1) / 4096 = omega arith in ground arith) in
      let later' : (limit - 1) % 4096 < (j + 4096) % 4096 = omega arith in
      rw (← eq)
        (rw (other, last_page fuel (j + 4096) limit writable qs fits later' (rw step at rest)) refl)
  | inr over ↦ rw (← page_loop-over fuel j limit writable ps over e) refl
]

pages-with_pages :
    (h : Phdr) (im : Image) (ps : List (ℕ × Bool))
    → (im' : Image) × (with_pages h im (some ps) ≡ some im') × (im'.pages ≡ im.pages ++ ps)
unfolding with_pages
pages-with_pages h im ps = (_, refl, refl)

-- A segment whose start lies further in its page than its last byte in its own gets no page for that last
-- byte: the loop goes from the start in steps of a page, not from the start's page.
pub load_segment-short :
    (fuel : ℕ) (h : Phdr) (im : Image)
    → h.kind ≡ 1
    → 2 ^ 32 ≤ fuel * 4096 + 4096
    → h.vaddr + h.memsz + 4096 ≤ 2 ^ 32
    → (h.vaddr + h.memsz - 1) % 4096 < h.vaddr % 4096
    → has_page ((h.vaddr + h.memsz - 1) / 4096) im.pages ≡ false
    → (im' : Image) × (load_segment (suc fuel) h im ≡ some im')
      × (has_page ((h.vaddr + h.memsz - 1) / 4096) im'.pages ≡ false)
unfolding load_segment
load_segment-short fuel h im load enough fits later before =
    let limit = h.vaddr + h.memsz in
    let whole : u32 (h.vaddr + h.memsz) ≡ limit = omega arith in
    let l : h.kind == 1 ≡ true = ground arith in
    let writable = h.flags / 2 % 2 == 1 in
    let (ps, e, covers) = page_loop-Covers fuel h.vaddr limit writable fits (omega arith) in
    let e' = ap (λ (n : ℕ). page_loop (suc fuel) h.vaddr n writable) whole ∙ e in
    let (im', made, added) = pages-with_pages h im ps in
    (
      im',
      rw l (ap (with_pages h im) e' ∙ made),
      ap (has_page ((limit - 1) / 4096)) added
          ∙ has_page-append ((limit - 1) / 4096) im.pages ps
          ∙ rw (before, last_page (suc fuel) h.vaddr limit writable ps fits later e) refl,
    )
