-- ===== src/Paging/Alloc.antt =====
-- Pages take frames from the bitset and give them back.
use dionysus.Prelude.{
  ℕ, ◌*◌, ◌/◌, ◌%◌, ◌^◌, ◌≤◌, ◌<◌, ◌≡◌, ◌≢◌, refl, inl, inr, Bool, true, false, not, ◌||◌, ◌&&◌,
  Option, none, some, ltb, ◌==◌, length, length-set, arith, lt→ltb, Bool-cases, ◌∙◌,
}
use dionysus.Prelude.Search.{AllUsed, all_of, some_of}
use dionysus.Paging.{
  Frames, Page, page_size, no_frame, set_frame, clear_frame, first_frame, alloc_frame, dm_frame,
  du_frame, free_frame,
}
use dionysus.Paging.Bitset.{
  in_use, Covers, set_frame-in_use, clear_frame-in_use, first_frame-FirstFree,
}

-- at most 2^20 frames, and a word for every 32 of them
pub record IsValid (fs : Frames) : Type 0 where
  pub few : fs.nframes ≤ 2 ^ 20
  pub words : fs.nframes / 32 ≤ length fs.words

-- the number of frames that are handed out
abbrev pub limit : Frames → ℕ
limit fs = fs.nframes / 32 * 32

-- What `alloc_frame` does for a page without a frame: PANIC, or the least free frame is taken.
pub data Allocates (kernel writable : Bool) (page : Page) (fs : Frames)
    : Option (Page × Frames) → Type 0 where
  panics : AllUsed (in_use fs) 0 (limit fs) → Allocates kernel writable page fs none
  takes :
      {after : Frames}
      → (i : ℕ) → in_use fs i ≡ false
      → i < limit fs
      → AllUsed (in_use fs) 0 i
      → ((k : ℕ) → in_use after k ≡ ((k == i) || in_use fs k))
      → IsValid after
      → Allocates kernel writable page fs (
          some (
            record page {
              present = true;
              rw = writable;
              user = not kernel;
              global = false;
              frame = i;
            },
            after,
          ))

set_frame-IsValid : (addr : ℕ) (fs : Frames) → IsValid fs → IsValid (set_frame addr fs)
unfolding set_frame
set_frame-IsValid addr fs v = record {
  few = v.few;
  words = omega (arith, v.words, length-set fs.words);
}

-- With at most 2^20 frames and a word of the bitset for each 32 of them, and for a page without a frame,
-- `alloc_frame` panics exactly if all frames of the words that are full are in use, `nframes / 32 * 32` of
-- them, even if a later one is not; and else it gives the page the least frame that was not in use, marks
-- that frame and no other, and sets the page's flags.
pub alloc_frame-Allocates :
    (kernel writable : Bool) (page : Page) (fs : Frames)
    → IsValid fs
    → page.frame ≡ 0
    → Allocates kernel writable page fs (alloc_frame kernel writable page fs)
unfolding alloc_frame
alloc_frame-Allocates kernel writable page fs v new =
    let i = first_frame fs in
    let search = first_frame-FirstFree fs v.few in
    let empty : page.frame == 0 ≡ true = ground arith in
    elim (Bool-cases (i == no_frame)) [
      | inl full ↦ rw (empty, full) (panics (all_of search (rw full)))
      | inr some_free ↦
          let (free, low, least) = some_of i search (rw some_free) in
          let index : i % 2 ^ 20 ≡ i = omega (arith, v.few) in
          let addr : i * page_size % 2 ^ 32 ≡ i * page_size = omega (arith, v.few) in
          let back : i * page_size / page_size ≡ i = omega arith in
          let c : Covers fs (i * page_size / page_size) = omega (arith, v.words) in
          rw (empty, some_free, index, addr)
            (takes i free low least (λ k. set_frame-in_use (i * page_size) k fs c ∙ rw back)
              (set_frame-IsValid (i * page_size) fs v))
    ]

-- `free_frame` clears the page and frees its frame and no other; frame 0 counts as none.
pub free_frame-in_use :
    (page : Page) (fs : Frames)
    → IsValid fs
    → page.frame < limit fs
    → page.frame ≢ 0
    → (after : Frames) × (free_frame page fs ≡ (record page { present = false; frame = 0 }, after))
      × ((k : ℕ) → in_use after k ≡ (not (k == page.frame) && in_use fs k))
unfolding free_frame
free_frame-in_use page fs v low set =
    let i = page.frame in
    let held : i == 0 ≡ false = ground arith in
    let addr : i * page_size % 2 ^ 32 ≡ i * page_size = omega (arith, v.few) in
    let back : i * page_size / page_size ≡ i = omega arith in
    let c : Covers fs (i * page_size / page_size) = omega (arith, v.words) in
    (
      clear_frame (i * page_size) fs,
      rw (held, addr),
      λ k. clear_frame-in_use (i * page_size) k fs c ∙ rw back,
    )

set_frame-length : (addr : ℕ) (fs : Frames) → length (set_frame addr fs).words ≡ length fs.words
unfolding set_frame
set_frame-length addr fs = length-set fs.words _ _

within_after :
    (addr i : ℕ) (fs : Frames) → ltb i fs.nframes ≡ true → ltb i (set_frame addr fs).nframes ≡ true
unfolding set_frame
within_after addr i fs h = h

freed_again : (b c : Bool) → (not b && (b || c)) ≡ (not b && c)
freed_again b c = ground arith

-- A page mapped to an address of the bitset by `dm_frame` and then unmapped by `du_frame` with its
-- frame freed is not present, keeps the frame's number, and leaves that frame free and all others as
-- they were.
pub du_frame-dm_frame :
    (kernel writable : Bool) (addr : ℕ) (page : Page) (fs : Frames)
    → IsValid fs
    → addr < limit fs * page_size
    → (mapped : Page) × (between : Frames) × (unmapped : Page) × (after : Frames) × (dm_frame kernel
          writable addr page fs
        ≡ (mapped, between))
      × (du_frame true mapped between ≡ (unmapped, after))
      × (mapped.present ≡ true)
      × (unmapped.present ≡ false)
      × (unmapped.frame ≡ addr / page_size)
      × ((k : ℕ) → in_use between k ≡ ((k == addr / page_size) || in_use fs k))
      × ((k : ℕ) → in_use after k ≡ (not (k == addr / page_size) && in_use fs k))
unfolding dm_frame du_frame
du_frame-dm_frame kernel writable addr page fs v low =
    let i = addr / page_size in
    let within : ltb i fs.nframes ≡ true = lt→ltb i fs.nframes (omega arith) in
    let index : i % 2 ^ 20 ≡ i = omega (arith, v.few) in
    let shifted : i * 2 ^ 12 % 2 ^ 32 ≡ i * 2 ^ 12 = omega (arith, v.few) in
    let back : i * 2 ^ 12 / page_size ≡ i = omega arith in
    let between = set_frame addr fs in
    let set : (k : ℕ) → in_use between k ≡ ((k == i) || in_use fs k) =
      λ k. set_frame-in_use addr k fs (omega (arith, v.words)) in
    let v' = set_frame-IsValid addr fs v in
    let c : Covers between (i * 2 ^ 12 / page_size) =
      omega (arith, v.words, set_frame-length addr fs) in
    (
      record page { present = true; rw = writable; user = not kernel; global = false; frame = i },
      between,
      record page { present = false; rw = writable; user = not kernel; global = false; frame = i },
      clear_frame (i * 2 ^ 12) between,
      rw (index, within),
      rw (within_after addr i fs within, shifted),
      refl,
      refl,
      refl,
      set,
      λ k.
          clear_frame-in_use (i * 2 ^ 12) k between c
          ∙ rw (back, set k) (freed_again (k == i) (in_use fs k)),
    )
