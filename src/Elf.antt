-- ===== src/Elf.antt =====
-- kernel/elf.c: starting a program. What is read from the file, its header and the entries of its table,
-- is an argument. The pages of the program are the calls of `alloc_frame` in their order.
pub mod Segments
pub mod Loading
pub mod Arguments
pub mod Starting
mod Examples
use dionysus.Prelude.{
  ℕ, zero, suc, ◌+◌, ◌-◌, ◌*◌, ◌/◌, ◌%◌, ◌^◌, Bool, true, false, not, ◌&&◌, ◌||◌, Option, none,
  some, List, [], ◌∷◌, ◌++◌, ltb, leb, ◌==◌, if◌then◌else◌, length, get_or,
}
use dionysus.Prelude.Int.{ℤ}
use dionysus.Prelude.Str.{Str}
use dionysus.Errno.{err, enomem, enoexec}

pub record Ehdr : Type 0 where
  pub ident : List ℕ
  pub kind : ℕ  -- e_type
  pub machine : ℕ
  pub version : ℕ
  pub entry : ℕ

pub record Phdr : Type 0 where
  pub kind : ℕ  -- p_type
  pub offset : ℕ
  pub vaddr : ℕ
  pub filesz : ℕ
  pub memsz : ℕ
  pub flags : ℕ

pub valid_header : Ehdr → Bool
valid_header h =
    get_or h.ident 0 0 == 127
    && get_or h.ident 1 0 == 69
    && get_or h.ident 2 0 == 76
    && get_or h.ident 3 0 == 70
    && get_or h.ident 4 0 == 1
    && get_or h.ident 5 0 == 1
    && h.kind == 2
    && h.machine == 3
    && h.version == 1

-- the program in memory
pub record Image : Type 0 where
  pub start : ℕ
  pub limit : ℕ  -- `end`
  pub pages : List (ℕ × Bool)  -- the addresses given to `get_page`, and whether they may be written
  pub reads : List (ℕ × ℕ × ℕ)  -- the calls of `read_vfs`: where to, how much, and from where

abbrev pub u32 : ℕ → ℕ
u32 n = n % 2 ^ 32

abbrev and_page : ℕ × Bool → Option (List (ℕ × Bool)) → Option (List (ℕ × Bool))
and_page p none = none
and_page p (some ps) = some (p ∷ ps)

-- The loop over the addresses of a segment, a page apart; `none` if it has not come to an end.
pub page_loop : (fuel j limit : ℕ) → Bool → Option (List (ℕ × Bool))
page_loop zero j limit writable = none
page_loop (suc fuel) j limit writable =
    let rest = page_loop fuel (u32 (j + 4096)) limit writable in
    if ltb j limit then and_page (j, writable) rest else some []

pub lower : Phdr → (start : ℕ) → ℕ
lower h start = if ltb h.vaddr start then h.vaddr / 4096 * 4096 else start

pub upper : Phdr → (limit : ℕ) → ℕ
upper h limit =
    let top = u32 (h.vaddr + h.memsz) in
    if ltb limit top
    then (if top % 4096 == 0 then top else u32 (top / 4096 * 4096 + 4096))
    else limit

with_pages : Phdr → Image → Option (List (ℕ × Bool)) → Option Image
unfolding lower upper
with_pages h im none = none
with_pages h im (some ps) = some record {
  start = lower h im.start;
  limit = upper h im.limit;
  pages = im.pages ++ ps;
  reads = im.reads ++ (h.vaddr, h.filesz, h.offset) ∷ [];
}

-- one round of the loop over the program headers
pub load_segment : (fuel : ℕ) → Phdr → Image → Option Image
unfolding with_pages page_loop
load_segment fuel h im =
    if not (h.kind == 1)
    then some im
    else with_pages h im (page_loop fuel h.vaddr (u32 (h.vaddr + h.memsz)) (h.flags / 2 % 2 == 1))

pub load_from : (fuel : ℕ) → List Phdr → Option Image → Option Image
unfolding load_segment
load_from fuel hs none = none
load_from fuel [] (some im) = some im
load_from fuel (h ∷ hs) (some im) = load_from fuel hs (load_segment fuel h im)

abbrev pub empty_image : Image
empty_image = record { start = 2 ^ 32 - 1; limit = 0; pages = []; reads = [] }

-- A page of the address space for each round is enough.
pub load_segments : List Phdr → Option Image
unfolding load_from
load_segments hs = load_from (2 ^ 20) hs (some empty_image)

-- the bytes of the memory, and stores of a byte, of a word, and of a string with its NUL
abbrev pub Memory : Type 0
Memory = ℕ → ℕ

unfoldable pub store : Memory → ℕ → ℕ → Memory
store m at v a = if a == at then v else m a

abbrev pub store_word : Memory → ℕ → ℕ → Memory
store_word m at v =
    store
      (store (store (store m at (v % 256)) (at + 1) (v / 256 % 256)) (at + 2) (v / 2 ^ 16 % 256))
      (at + 3) (v / 2 ^ 24 % 256)

pub store_string : Memory → ℕ → Str → Memory
unfolding store
store_string m at [] = store m at 0
store_string m at (c ∷ s) = store_string (store m at c) (at + 1) s

-- The loop over the arguments, from entry `at` of `argv_` on: the heap after it, and the memory.
pub place_args : (at heap : ℕ) → List Str → Memory → ℕ × Memory
unfolding store_string
place_args at heap [] m = (heap, store_word m at 0)
place_args at heap (a ∷ args) m =
    place_args (at + 4) (heap + length a + 1) args (store_string (store_word m at heap) heap a)

-- The loop over the environment takes the length of an argument, which is freed: `none`.
pub place_env : (envp heap : ℕ) → List Str → Memory → Option (ℕ × Memory)
place_env envp heap [] m = some (heap + 1, store_word m envp 0)
place_env envp heap (e ∷ env) m = none

pub place_arguments : (limit : ℕ) → (args env : List Str) → Memory → Option (ℕ × Memory)
unfolding place_args place_env
place_arguments limit args env m =
    let envp = limit + 4 * (length args + 1) in
    let (heap, m') = place_args limit envp args m in place_env envp (heap + 1) env m'

-- the file to run
pub record File : Type 0 where
  pub setuid : Bool
  pub setgid : Bool
  pub uid : ℕ
  pub gid : ℕ

-- The effective user id, which takes the file's group too.
pub exec_euid : File → (euid : ℕ) → ℕ
exec_euid file euid = if file.setgid then file.gid else if file.setuid then file.uid else euid

pub data Exec : Type 0 where
  failed : ℤ → Exec
  endless : Exec  -- the loop over a segment's pages that has not come to an end
  after_free : Exec
  page_fault : Exec  -- a store behind the one page that is allocated for the arguments
  started : (entry : ℕ) → Image → (brk : ℕ) → Memory → Exec

-- The stores end with the two tables at `tables`, and with the strings two bytes before `brk`. The page for
-- them starts at the image's limit.
abbrev pub fits : (limit tables brk : ℕ) → Bool
fits limit tables brk = leb tables (limit + 4096) && leb brk (limit + 4096 + 2)

with_arguments : (entry : ℕ) → Image → (tables : ℕ) → Option (ℕ × Memory) → Exec
with_arguments entry im tables none = after_free
with_arguments entry im tables (some (brk, m)) =
    if fits im.limit tables brk then started entry im brk m else page_fault

with_image : (entry : ℕ) → (args env : List Str) → Memory → Option Image → Exec
unfolding with_arguments place_arguments
with_image entry args env m none = endless
with_image entry args env m (some im) =
    with_arguments entry im (im.limit + 4 * (length args + 1) + 4 * (length env + 1))
      (place_arguments im.limit args env m)

-- `int_exec` from the opened file on: the effective user id after it, and what it comes to. The memory is
-- as it is when the segments have been read.
pub int_exec :
    (alloc_header alloc_table : Bool)
    → File
    → Ehdr
    → List Phdr
    → (args env : List Str) → Memory
    → (euid : ℕ) → ℕ × Exec
unfolding exec_euid valid_header load_segments with_image
int_exec alloc_header alloc_table file header table args env m euid = (
  exec_euid file euid,
  if not alloc_header
      then failed (err enomem)
      else if not (valid_header header)
      then failed (err enoexec)
      else if not alloc_table
      then failed (err enomem)
      else with_image header.entry args env m (load_segments table),
)
