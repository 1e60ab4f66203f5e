-- ===== src/Paging.antt =====
-- kernel/paging.c: the bitset of physical frames and the pages that take frames from it. The spin
-- lock is not modelled: each operation runs alone.
pub mod Bitset
pub mod Alloc
mod Examples
use dionysus.Prelude.{
  ℕ, zero, suc, ◌+◌, ◌*◌, ◌/◌, ◌%◌, ◌^◌, Bool, true, false, not, ◌||◌, ◌&&◌, Option, none, some,
  List, [], ◌∷◌, ltb, ◌==◌, if◌then◌else◌, get_or, set,
}
use dionysus.Prelude.Bits.{test_bit, set_bit, clear_bit}

-- `frames` and `nframes`
pub record Frames : Type 0 where
  pub words : List ℕ
  pub nframes : ℕ

-- the fields of a page_t that these operations use
pub record Page : Type 0 where
  pub present : Bool
  pub rw : Bool
  pub user : Bool
  pub global : Bool
  pub frame : ℕ

abbrev pub page_size : ℕ
page_size = 4096

abbrev pub no_frame : ℕ
no_frame = 4294967295

-- A write outside the array is left out.
pub set_frame : (addr : ℕ) → Frames → Frames
set_frame addr fs =
    let frame = addr / page_size in
    let i = frame / 32 in
    record fs { words = set fs.words i (set_bit (frame % 32) (get_or fs.words i 0)) }

pub clear_frame : (addr : ℕ) → Frames → Frames
clear_frame addr fs =
    let frame = addr / page_size in
    let i = frame / 32 in
    record fs { words = set fs.words i (clear_bit (frame % 32) (get_or fs.words i 0)) }

-- the inner loop of `first_frame`, with `left` bits to go from the bit `j`
first_bit : (left j w : ℕ) → Option ℕ
first_bit zero j w = none
first_bit (suc left) j w =
    let rest = first_bit left (suc j) w in if test_bit j w then rest else some j

or_else : Option ℕ → (i rest : ℕ) → ℕ
or_else none i rest = rest
or_else (some j) i rest = i * 32 + j

-- the outer loop, with `left` words to go from the word `i`
first_word : (left i : ℕ) → List ℕ → ℕ
unfolding first_bit or_else
first_word zero i words = no_frame
first_word (suc left) i words =
    let w = get_or words i 0 in
    let rest = first_word left (suc i) words in
    if w == no_frame then rest else or_else (first_bit 32 0 w) i rest

pub first_frame : Frames → ℕ
unfolding first_word
first_frame fs = first_word (fs.nframes / 32) 0 fs.words

-- `none` for the PANIC when no frame is free
pub alloc_frame : (kernel writable : Bool) → Page → Frames → Option (Page × Frames)
alloc_frame kernel writable page fs =
    let i = first_frame fs in
    if not (page.frame == 0)
    then some (page, fs)
    else if i == no_frame
    then none
    else some (
      record page {
        present = true;
        rw = writable;
        user = not kernel;
        global = false;
        frame = i % 2 ^ 20;
      },
      set_frame (i * page_size % 2 ^ 32) fs,
    )

pub dm_frame : (kernel writable : Bool) (addr : ℕ) → Page → Frames → Page × Frames
dm_frame kernel writable addr page fs = (
  record page {
    present = true;
    rw = writable;
    user = not kernel;
    global = false;
    frame = addr / page_size % 2 ^ 20;
  },
  (if ltb (addr / page_size) fs.nframes then set_frame addr fs else fs),
)

-- `page` is not NULL
pub du_frame : (free : Bool) → Page → Frames → Page × Frames
du_frame free page fs = (
  record page { present = false },
  (if ltb page.frame fs.nframes && free then clear_frame (page.frame * 2 ^ 12 % 2 ^ 32) fs else fs),
)

pub free_frame : Page → Frames → Page × Frames
free_frame page fs = if page.frame == 0 then (page, fs) else (
  record page { present = false; frame = 0 },
  clear_frame (page.frame * page_size % 2 ^ 32) fs,
)
