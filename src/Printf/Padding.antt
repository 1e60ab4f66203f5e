-- ===== src/Printf/Padding.antt =====
-- The padding of `prints`, and the counts that `prints` and `printi` return.
use dionysus.Prelude.{
  ℕ, suc, ◌+◌, ◌-◌, ◌≡◌, ap, [], Bool, true, false, not, ◌&&◌, ◌∷◌, ◌++◌, ltb, leb, ◌==◌,
  if◌then◌else◌, length, length-append, length-replicate, replicate, arith,
}
use dionysus.Prelude.Int.{ℤ}
use dionysus.Prelude.Str.{Str}
use dionysus.Printf.{is_negative, is_zero, Pad, Printed, room, prints, buffer, printi}

-- the count of what was written
abbrev pub IsCounted : Printed → Type 0
IsCounted p = p.1 ≡ length p.0

abbrev pub max : ℕ → ℕ → ℕ
max m n = if leb m n then n else m

length-pads :
    (m n c : ℕ) (s : Str) → length (replicate m c ++ s ++ replicate n c) ≡ m + length s + n
length-pads m n c s = omega (
  arith,
  length-append (replicate m c ++ s) (replicate n c),
  length-append (replicate m c) s,
  length-replicate m c,
  length-replicate n c,
)

-- What `prints` writes is as long as the string, or as the width if that is more; it returns that length.
pub prints-length :
    (s : Str) (width : ℕ) (pad : Pad)
    → IsCounted (prints s width pad) × (length (prints s width pad).0 ≡ max width (length s))
unfolding prints
prints-length s width pad =
    let left = room width (length s) in
    let c = if ltb 0 width && pad.zero then 48 else 32 in
    let before = if not pad.right then left else 0 in
    let l = length-pads before (left - before) c s in (omega (arith, l), ground (arith, l))

IsCounted-if :
    (p q : Printed) (b : Bool) → IsCounted p → IsCounted q → IsCounted (if b then p else q)
IsCounted-if p q true h k = h
IsCounted-if p q false h k = k

pub printi-IsCounted :
    (i : ℤ) (b : ℕ) (sg : Bool) (width : ℕ) (pad : Pad) (letbase : ℕ)
    → IsCounted (printi i b sg width pad letbase)
unfolding printi
printi-IsCounted i b sg width pad letbase =
    let neg = sg && (b == 10) && is_negative i in
    let s = buffer neg i b letbase in
    IsCounted-if _ _ (is_zero i) (prints-length (48 ∷ []) width pad).0 (
      IsCounted-if _ _ (not neg) (prints-length s width pad).0 (
        IsCounted-if _ _ (not (width == 0) && pad.zero) (ap suc (prints-length s (width - 1) pad).0)
          (prints-length (45 ∷ s) width pad).0))
