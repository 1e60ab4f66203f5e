-- ===== src/Prelude/Bits.antt =====
-- Bits of the native numbers: `w & (1 << j)`, `w | (1 << j)` and `w & ~(1 << j)`.
use Prim.Native.Nat.{ℕ, zero, suc, ◌+◌, ◌*◌, ◌/◌, ◌%◌}
use mathlib.Core.Path.{◌≡◌}
use mathlib.Core.Bool.{Bool, not, ◌&&◌, ◌||◌}
use native.Mathlib.Omega.{arith}
use dionysus.Prelude.Tests.{◌==◌}

unfoldable pub test_bit : (j w : ℕ) → Bool
test_bit zero w = w % 2 == 1
test_bit (suc j) w = test_bit j (w / 2)

unfoldable pub set_bit : (j w : ℕ) → ℕ
set_bit zero w = w / 2 * 2 + 1
set_bit (suc j) w = w % 2 + set_bit j (w / 2) * 2

unfoldable pub clear_bit : (j w : ℕ) → ℕ
clear_bit zero w = w / 2 * 2
clear_bit (suc j) w = w % 2 + clear_bit j (w / 2) * 2

pub test_bit-set_bit : (j k w : ℕ) → test_bit k (set_bit j w) ≡ ((k == j) || test_bit k w)
unfolding test_bit set_bit
test_bit-set_bit zero zero w = ground arith
test_bit-set_bit zero (suc k) w =
    let e : (w / 2 * 2 + 1) / 2 ≡ w / 2 = omega arith in rw e (ground arith)
test_bit-set_bit (suc j) zero w =
    let e : (w % 2 + set_bit j (w / 2) * 2) % 2 ≡ w % 2 = omega arith in rw e (ground arith)
test_bit-set_bit (suc j) (suc k) w =
    let e : (w % 2 + set_bit j (w / 2) * 2) / 2 ≡ set_bit j (w / 2) = omega arith in
    rw (e, test_bit-set_bit j k (w / 2)) (ground arith)

pub test_bit-clear_bit : (j k w : ℕ) → test_bit k (clear_bit j w) ≡ (not (k == j) && test_bit k w)
unfolding test_bit clear_bit
test_bit-clear_bit zero zero w = ground arith
test_bit-clear_bit zero (suc k) w =
    let e : w / 2 * 2 / 2 ≡ w / 2 = omega arith in rw e (ground arith)
test_bit-clear_bit (suc j) zero w =
    let e : (w % 2 + clear_bit j (w / 2) * 2) % 2 ≡ w % 2 = omega arith in rw e (ground arith)
test_bit-clear_bit (suc j) (suc k) w =
    let e : (w % 2 + clear_bit j (w / 2) * 2) / 2 ≡ clear_bit j (w / 2) = omega arith in
    rw (e, test_bit-clear_bit j k (w / 2)) (ground arith)
