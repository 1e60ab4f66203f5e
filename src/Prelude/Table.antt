-- ===== src/Prelude/Table.antt =====
-- Facts over a small range of numbers, by evaluating each case.
use Prim.Native.Nat.{ℕ, zero, suc, ◌<◌}
use mathlib.Core.Path.{◌≡◌}
use mathlib.Core.Bool.{Bool, true, ◌&&◌}
use native.Mathlib.Omega.{arith}

unfoldable pub holds_below : ℕ → (ℕ → Bool) → Bool
holds_below zero p = true
holds_below (suc n) p = p n && holds_below n p

pub of-holds_below : (n : ℕ) (p : ℕ → Bool) (x : ℕ) → holds_below n p ≡ true → x < n → p x ≡ true
unfolding holds_below
of-holds_below zero p x h lt = absurd (omega arith)
of-holds_below (suc n) p x h lt = ground (arith, of-holds_below n p x)
