-- ===== src/Prelude/Search.antt =====
-- The least number in a range that a test leaves free.
use Prim.Native.Nat.{ℕ, ◌≤◌, ◌<◌}
use mathlib.Core.Path.{◌≡◌}
use mathlib.Core.Bool.{Bool, true, false}
use mathlib.Core.Option.{Option, none, some}
use native.Mathlib.Omega.{arith}

abbrev pub AllUsed : (ℕ → Bool) → ℕ → ℕ → Type 0
AllUsed used lo hi = (k : ℕ) → lo ≤ k → k < hi → used k ≡ true

-- the least number in a range that is not used, if there is one
pub data FirstFree (used : ℕ → Bool) (lo hi : ℕ) : Option ℕ → Type 0 where
  free_at :
      {b : ℕ} → used b ≡ false → lo ≤ b → b < hi → AllUsed used lo b → FirstFree used lo hi (some b)
  all_used : AllUsed used lo hi → FirstFree used lo hi none

-- a range after one that is all used
pub FirstFree-after :
    {used : ℕ → Bool} {lo mid hi : ℕ} {r : Option ℕ}
    → AllUsed used lo mid
    → lo ≤ mid
    → FirstFree used mid hi r
    → FirstFree used lo hi r
FirstFree-after {used} {lo} {mid} before le (free_at {b} f l h rest) =
    free_at f (omega arith) h (λ k low high. ground (arith, before k, rest k))
FirstFree-after before le (all_used rest) =
    all_used (λ k low high. ground (arith, before k, rest k))

pub all_of :
    {used : ℕ → Bool} {lo hi : ℕ} {o : Option ℕ}
    → FirstFree used lo hi o
    → o ≡ none
    → AllUsed used lo hi
all_of (free_at f l h rest) e = ground arith
all_of (all_used rest) e = rest

pub some_of :
    {used : ℕ → Bool} {lo hi : ℕ} {o : Option ℕ} (r : ℕ)
    → FirstFree used lo hi o
    → o ≡ some r
    → (used r ≡ false) × (r < hi) × AllUsed used lo r
some_of r (all_used rest) e = ground arith
some_of {used} {lo} {hi} r (free_at {b} f l h rest) e =
    let same : r ≡ b = ground arith in rw same (f, h, rest)
