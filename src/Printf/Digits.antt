-- ===== src/Printf/Digits.antt =====
-- The digits that `printi` writes into its buffer.
use dionysus.Prelude.{
  ℕ, zero, suc, ◌+◌, ◌-◌, ◌*◌, ◌/◌, ◌%◌, ◌^◌, ◌≤◌, ◌<◌, ◌≡◌, ◌≢◌, ◌⊎◌, Bool, true, false, [], ◌∷◌,
  leb, ◌==◌, if◌then◌else◌, length, arith, Bool-cases, inl, inr, ◌∙◌, ap,
}
use dionysus.Prelude.Int.{ℤ, pos, negsuc, pos_part, neg_part}
use dionysus.Prelude.Str.{Str}
use dionysus.Printf.{digit_loop, magnitude, buffer}

-- the value of a digit character, with letters from `letbase`, and of a string of them
abbrev pub digit_value : (letbase c : ℕ) → ℕ
digit_value letbase c = if leb letbase c then c - letbase + 10 else c - 48

abbrev pub value : (b letbase : ℕ) → (high : ℕ) → Str → ℕ
value b letbase high [] = high
value b letbase high (c ∷ s) = value b letbase (high * b + digit_value letbase c) s

digit_value-digit :
    (t letbase : ℕ)
    → t < 16
    → 58 ≤ letbase
    → digit_value letbase ((if leb 10 t then t + letbase - 48 - 10 else t) + 48) ≡ t
digit_value-digit t letbase h k = ground arith

-- the two bases that `print` asks for
abbrev pub IsBase : ℕ → Type 0
IsBase b = (b ≡ 10) ⊎ (b ≡ 16)

record Divides (b u : ℕ) : Type 0 where
  whole : u / b * b + u % b ≡ u
  digit : u % b < 16
  less : u ≢ 0 → u / b < u

division : (b u : ℕ) → IsBase b → Divides b u
division b u (inl e) = record {
  whole = rw e (omega arith);
  digit = rw e (omega arith);
  less = λ h. rw e (omega arith);
}
division b u (inr e) = record {
  whole = rw e (omega arith);
  digit = rw e (omega arith);
  less = λ h. rw e (omega arith);
}

digit_loop-value :
    (fuel b u letbase : ℕ) (s : Str)
    → IsBase b
    → 58 ≤ letbase
    → u < fuel
    → value b letbase 0 (digit_loop fuel b u letbase s) ≡ value b letbase u s
unfolding digit_loop
digit_loop-value zero b u letbase s base large enough = absurd (omega arith)
digit_loop-value (suc fuel) b u letbase s base large enough = elim (Bool-cases (u == 0)) [
  | inl none_left ↦ let e : u ≡ 0 = ground arith in rw (none_left, e)
  | inr more ↦
      let d = division b u base in
      let t = u % b in
      rw more (
        digit_loop-value fuel b (u / b) letbase _ base large (ground (arith, d.less))
        ∙ ap (λ (v : ℕ). value b letbase v s)
            (rw (digit_value-digit t letbase d.digit large) d.whole))
]

-- the powers of the base
abbrev pub pow : ℕ → ℕ → ℕ
pow b zero = 1
pow b (suc k) = pow b k * b

less_digits : (b u x : ℕ) → IsBase b → u < x * b → u / b < x
less_digits b u x (inl e) h = rw e (let h' : u < x * 10 = rw (← e) h in omega arith)
less_digits b u x (inr e) h = rw e (let h' : u < x * 16 = rw (← e) h in omega arith)

length-digit_loop :
    (k fuel b u letbase : ℕ) (s : Str)
    → IsBase b
    → u < pow b k
    → length (digit_loop fuel b u letbase s) ≤ k + length s
unfolding digit_loop
length-digit_loop k zero b u letbase s base few = omega arith
length-digit_loop zero (suc fuel) b u letbase s base few =
    let e : u == 0 ≡ true = ground arith in rw e (omega arith)
length-digit_loop (suc k) (suc fuel) b u letbase s base few = elim (Bool-cases (u == 0)) [
  | inl none_left ↦ rw none_left (omega arith)
  | inr more ↦
      let t = u % b in
      let s' : Str = ((if leb 10 t then t + letbase - 48 - 10 else t) + 48) ∷ s in
      let rest =
        length-digit_loop k fuel b (u / b) letbase s' base (less_digits b u (pow b k) base few) in
      rw more (omega (arith, rest))
]

-- a number of 32 bits
abbrev pub IsInt32 : ℤ → Type 0
IsInt32 (pos n) = n < 2 ^ 31
IsInt32 (negsuc n) = n < 2 ^ 31

magnitude_bound : (neg : Bool) (i : ℤ) → IsInt32 i → magnitude neg i < 2 ^ 32
unfolding magnitude
magnitude_bound true (negsuc n) h = omega arith
magnitude_bound true (pos n) h = omega arith
magnitude_bound false (pos n) h = omega arith
magnitude_bound false (negsuc n) h = omega arith

-- what is shown of a number: its absolute value if signs are shown, or its value modulo 2^32
abbrev pub shown : (neg : Bool) → ℤ → ℕ
shown neg i = if neg then pos_part i + neg_part i else (pos_part i + 2 ^ 32 - neg_part i) % 2 ^ 32

magnitude-shown : (neg : Bool) (i : ℤ) → IsInt32 i → magnitude neg i ≡ shown neg i
unfolding magnitude
magnitude-shown true (negsuc n) h = omega arith
magnitude-shown true (pos n) h = omega arith
magnitude-shown false (pos n) h = omega arith
magnitude-shown false (negsuc n) h = omega arith

length-base :
    (u b letbase : ℕ) → IsBase b → u < 2 ^ 32 → length (digit_loop (suc u) b u letbase []) + 2 ≤ 12
length-base u b letbase (inl e) h =
    let few : u < pow b 10 = rw e (omega arith) in
    let l = length-digit_loop 10 (suc u) b u letbase [] (inl e) few in omega (arith, l)
length-base u b letbase (inr e) h =
    let few : u < pow b 8 = rw e (omega arith) in
    let l = length-digit_loop 8 (suc u) b u letbase [] (inr e) few in omega (arith, l)

-- In base 10 and 16 the characters that `printi` writes for a number of 32 bits stand for its absolute value
-- if a sign is called for, and otherwise for the number modulo 2^32, as a negative one is shown in base 16 or
-- without a sign; and together with a sign and the NUL they fit into the 12 characters of the buffer.
pub buffer-value :
    (neg : Bool) (i : ℤ) (b letbase : ℕ)
    → IsBase b
    → 58 ≤ letbase
    → IsInt32 i
    → (value b letbase 0 (buffer neg i b letbase) ≡ shown neg i)
      × (length (buffer neg i b letbase) + 2 ≤ 12)
unfolding buffer
buffer-value neg i b letbase base large small =
    let u = magnitude neg i in
    let bound = magnitude_bound neg i small in
    (
      digit_loop-value (suc u) b u letbase [] base large (omega arith)
          ∙ magnitude-shown neg i small,
      length-base u b letbase base bound,
    )
