-- ===== src/Elf/Arguments.antt =====
-- The arguments of a program at the start of its heap.
use dionysus.Prelude.{
  ℕ, ◌+◌, ◌*◌, ◌/◌, ◌%◌, ◌^◌, ◌<◌, ◌≡◌, ◌≢◌, refl, ap, ◌∙◌, some, List, [], ◌∷◌, length, arith,
}
use dionysus.Prelude.Str.{Str}
use dionysus.Elf.{Memory, store, store_word, store_string, place_args, place_env, place_arguments}

abbrev pub load_word : Memory → ℕ → ℕ
load_word m at = m at + 256 * m (at + 1) + 2 ^ 16 * m (at + 2) + 2 ^ 24 * m (at + 3)

store_self : (m : Memory) (at v : ℕ) → store m at v at ≡ v
unfolding store
store_self m at v = ground arith

store_other : (m : Memory) (at v a : ℕ) → a ≢ at → store m at v a ≡ m a
unfolding store
store_other m at v a h = ground arith

load_word-store_word : (m : Memory) (at v : ℕ) → v < 2 ^ 32 → load_word (store_word m at v) at ≡ v
unfolding store
load_word-store_word m at v h =
    let bytes : v % 256
          + 256 * (v / 256 % 256)
          + 2 ^ 16 * (v / 2 ^ 16 % 256)
          + 2 ^ 24 * (v / 2 ^ 24 % 256)
        ≡ v =
      omega arith in
    ground (arith, bytes)

store_word-low : (m : Memory) (at v a : ℕ) → a < at → store_word m at v a ≡ m a
unfolding store
store_word-low m at v a h = ground arith

store_string-low : (s : Str) (m : Memory) (at a : ℕ) → a < at → store_string m at s a ≡ m a
unfolding store_string
store_string-low [] m at a h = store_other m at 0 a (omega arith)
store_string-low (c ∷ s) m at a h =
    store_string-low s (store m at c) (at + 1) a (omega arith) ∙ store_other m at c a (omega arith)

place_args-low :
    (args : List Str) (m : Memory) (at heap a : ℕ)
    → a < at
    → a < heap
    → (place_args at heap args m).1 a ≡ m a
unfolding place_args
place_args-low [] m at heap a h k = store_word-low m at 0 a h
place_args-low (s ∷ args) m at heap a h k =
    place_args-low args (store_string (store_word m at heap) heap s) (at + 4) (heap + length s + 1)
      a (omega arith) (omega arith)
    ∙ store_string-low s (store_word m at heap) heap a k
    ∙ store_word-low m at heap a h

-- the bytes of the strings with their NULs
abbrev pub string_bytes : List Str → ℕ
string_bytes [] = 0
string_bytes (s ∷ args) = length s + 1 + string_bytes args

place_args-heap :
    (args : List Str) (m : Memory) (at heap : ℕ)
    → (place_args at heap args m).0 ≡ heap + string_bytes args
unfolding place_args
place_args-heap [] m at heap = omega arith
place_args-heap (s ∷ args) m at heap =
    place_args-heap args (store_string (store_word m at heap) heap s) (at + 4) (heap + length s + 1)
    ∙ omega arith

module _ (limit : ℕ) (a : Str) (args : List Str) (m : Memory) where
  -- the address of `envp_`, where the first argument is put as well
  abbrev first_string : ℕ
  first_string = limit + 4 * (length (a ∷ args) + 1)

  first_placed : Memory
  first_placed = store_string (store_word m limit first_string) first_string a

  first_placed-low : (k : ℕ) → k < first_string → first_placed k ≡ store_word m limit first_string k
  unfolding first_placed
  first_placed-low k h = store_string-low a (store_word m limit first_string) first_string k h

  placed : Memory
  placed = (place_args (limit + 4) (first_string + length a + 1) args first_placed).1

  with_env : Memory
  with_env = store_word placed first_string 0

  with_env-low : (k : ℕ) → k < limit + 4 → with_env k ≡ store_word m limit first_string k
  unfolding with_env placed
  with_env-low k h =
      store_word-low placed first_string 0 k (omega arith)
      ∙ place_args-low args first_placed (limit + 4) (first_string + length a + 1) k h (omega arith)
      ∙ first_placed-low k (omega arith)

  with_env-pointer : first_string < 2 ^ 32 → load_word with_env limit ≡ first_string
  with_env-pointer h =
      rw
        (
          with_env-low limit (omega arith),
          with_env-low (limit + 1) (omega arith),
          with_env-low (limit + 2) (omega arith),
          with_env-low (limit + 3) (omega arith),
        )
        (load_word-store_word m limit first_string h)

  with_env-nul : with_env first_string ≡ 0
  unfolding with_env store
  with_env-nul = ground arith

-- With an empty environment the first argument is lost: its pointer in `argv_` is the address of `envp_`,
-- where the NULL of the environment is stored last, so the string starts with a NUL.
pub place_arguments-first :
    (limit : ℕ) (a : Str) (args : List Str) (m : Memory)
    → limit + 4 * (length (a ∷ args) + 1) < 2 ^ 32
    → (brk : ℕ) × (m' : Memory) × (place_arguments limit (a ∷ args) [] m ≡ some (brk, m'))
      × (brk ≡ limit + 4 * (length (a ∷ args) + 1) + string_bytes (a ∷ args) + 2)
      × (m' (load_word m' limit) ≡ 0)
unfolding place_arguments place_args place_env with_env placed first_placed
place_arguments-first limit a args m h = (
  _,
  with_env limit a args m,
  refl,
  ap (λ (h' : ℕ). h' + 1 + 1)
        (place_args-heap (a ∷ args) m limit (limit + 4 * (length (a ∷ args) + 1)))
      ∙ omega arith,
  ap (with_env limit a args m) (with_env-pointer limit a args m h) ∙ with_env-nul limit a args m,
)
