-- ===== src/Printf.antt =====
-- kernel/printf.c: formatted output. What `printchar` writes is a string, and a function gives it with
-- the count that it returns. A format is a string without its NUL.
pub mod Digits
pub mod Padding
pub mod Formats
mod Examples
use dionysus.Prelude.{
  ℕ, zero, suc, ◌+◌, ◌-◌, ◌*◌, ◌/◌, ◌%◌, ◌^◌, Bool, true, false, not, ◌&&◌, ◌||◌, Option, none,
  some, List, [], ◌∷◌, ◌++◌, ltb, leb, ◌==◌, if◌then◌else◌, length, replicate,
}
use dionysus.Prelude.Int.{ℤ, pos, negsuc}
use dionysus.Prelude.Str.{Str}

-- PAD_RIGHT and PAD_ZERO
pub record Pad : Type 0 where
  pub right : Bool
  pub zero : Bool

-- what a call writes, and the count it returns
abbrev pub Printed : Type 0
Printed = Str × ℕ

-- the width that is left for padding
abbrev pub room : (width len : ℕ) → ℕ
room width len = if ltb 0 width then (if leb width len then 0 else width - len) else width

pub prints : Str → (width : ℕ) → Pad → Printed
prints string width pad =
    let left = room width (length string) in
    let padchar = if ltb 0 width && pad.zero then 48 else 32 in
    let before = if not pad.right then left else 0 in
    let after = left - before in
    (replicate before padchar ++ string ++ replicate after padchar, before + length string + after)

-- the loop of `printi`, which fills the buffer from its end; the fuel is one more than the number
pub digit_loop : (fuel b u letbase : ℕ) → Str → Str
digit_loop zero b u letbase s = s
digit_loop (suc fuel) b u letbase s =
    let t = u % b in
    let t' = if leb 10 t then t + letbase - 48 - 10 else t in
    let rest = digit_loop fuel b (u / b) letbase ((t' + 48) ∷ s) in if u == 0 then s else rest

-- an int32_t as an unsigned int, and its absolute value as one
abbrev pub as_unsigned : ℤ → ℕ
as_unsigned (pos n) = n % 2 ^ 32
as_unsigned (negsuc n) = 2 ^ 32 - 1 - n % 2 ^ 32

abbrev pub is_negative : ℤ → Bool
is_negative (pos n) = false
is_negative (negsuc n) = true

abbrev pub is_zero : ℤ → Bool
is_zero (pos n) = n == 0
is_zero (negsuc n) = false

-- `u`, after the test of the sign
pub magnitude : (neg : Bool) → ℤ → ℕ
magnitude true (negsuc n) = suc n
magnitude _ i = as_unsigned i

-- what stands in the buffer at the end
pub buffer : (neg : Bool) → ℤ → (b letbase : ℕ) → Str
unfolding digit_loop magnitude
buffer neg i b letbase = digit_loop (suc (magnitude neg i)) b (magnitude neg i) letbase []

pub printi : ℤ → (b : ℕ) (sg : Bool) (width : ℕ) → Pad → (letbase : ℕ) → Printed
unfolding buffer prints
printi i b sg width pad letbase =
    let neg = sg && (b == 10) && is_negative i in
    let s = buffer neg i b letbase in
    let (rest, count) = prints s (width - 1) pad in
    if is_zero i
    then prints (48 ∷ []) width pad
    else if not neg
    then prints s width pad
    else if not (width == 0) && pad.zero
    then (45 ∷ rest, suc count)
    else prints (45 ∷ s) width pad

-- an argument: a number, or a string that may be NULL
pub data Arg : Type 0 where
  number : ℤ → Arg
  string : Option Str → Arg

-- "(null)"
abbrev pub null_text : Str
null_text = 40 ∷ 110 ∷ 117 ∷ 108 ∷ 108 ∷ 41 ∷ []

abbrev pub or_null_text : Option Str → Str
or_null_text none = null_text
or_null_text (some s) = s

-- A `char` argument: a string of it, which is empty for NUL.
abbrev pub char_text : ℤ → Str
char_text i = let c = as_unsigned i % 256 in if c == 0 then [] else c ∷ []

-- What a conversion character does with the arguments. `none` is an argument that is missing or of the
-- other kind; a character that is no conversion writes nothing.
pub convert : (c width : ℕ) → Pad → List Arg → Option (Printed × List Arg)
unfolding printi
convert c width pad [] =
    if (c == 115) || (c == 100) || (c == 105) || (c == 120) || (c == 88) || (c == 117) || (c == 99)
    then none
    else some (([], 0), [])
convert c width pad (number i ∷ args) =
    if c == 115
    then none
    else if (c == 100) || (c == 105)
    then some (printi i 10 true width pad 97, args)
    else if c == 120
    then some (printi i 16 false width pad 97, args)
    else if c == 88
    then some (printi i 16 false width pad 65, args)
    else if c == 117
    then some (printi i 10 false width pad 97, args)
    else if c == 99
    then some (prints (char_text i) width pad, args)
    else some (([], 0), number i ∷ args)
convert c width pad (string s ∷ args) =
    if c == 115
    then some (prints (or_null_text s) width pad, args)
    else if (c == 100) || (c == 105) || (c == 120) || (c == 88) || (c == 117) || (c == 99)
    then none
    else some (([], 0), string s ∷ args)

-- `while (*format == '0')` and the loop over the width's digits: what is left, and what was read
pub skip_zeros : Str → Bool × Str
skip_zeros [] = (false, [])
skip_zeros (c ∷ format) = if c == 48 then (true, (skip_zeros format).1) else (false, c ∷ format)

pub read_width : ℕ → Str → ℕ × Str
read_width width [] = (width, [])
read_width width (c ∷ format) =
    let rest = read_width (width * 10 + (c - 48)) format in
    if leb 48 c && leb c 57 then rest else (width, c ∷ format)

-- the flags and the width after a `%`
pub read_flags : Str → Pad × ℕ × Str
unfolding skip_zeros read_width
read_flags [] = (record { right = false; zero = false }, 0, [])
read_flags (c ∷ format) =
    let minus = c == 45 in
    let (zeros, after) = skip_zeros (if minus then format else c ∷ format) in
    let (width, rest) = read_width 0 after in (record { right = minus; zero = zeros }, width, rest)

-- what one round of the loop of `print` does
pub data Piece : Type 0 where
  ended : Piece
  past_end : Piece  -- a read behind the NUL of the format
  bad_argument : Piece
  piece : Printed → Str → List Arg → Piece

converted : Str → Option (Printed × List Arg) → Piece
converted rest none = bad_argument
converted rest (some (p, args)) = piece p rest args

conversion : Pad → (width : ℕ) → Str → List Arg → Piece
unfolding converted convert
conversion pad width [] args = past_end
conversion pad width (c ∷ rest) args = converted rest (convert c width pad args)

-- after a `%`
escape : Str → List Arg → Piece
unfolding conversion read_flags
escape [] args = ended
escape (c ∷ format) args =
    let (pad, width, rest) = read_flags (c ∷ format) in
    if c == 37 then piece (37 ∷ [], 1) format args else conversion pad width rest args

pub round : Str → List Arg → Piece
unfolding escape
round [] args = ended
round (c ∷ format) args = if c == 37 then escape format args else piece (c ∷ [], 1) format args

pub data Output : Type 0 where
  written : Printed → Output
  past_nul : Output
  bad_call : Output
  out_of_fuel : Output

pub and_then : Printed → Output → Output
and_then p (written q) = written (p.0 ++ q.0, p.1 + q.1)
and_then p past_nul = past_nul
and_then p bad_call = bad_call
and_then p out_of_fuel = out_of_fuel

-- the rest of the loop, by a function
pub next : Piece → (Str → List Arg → Output) → Output
unfolding and_then
next ended go = written ([], 0)
next past_end go = past_nul
next bad_argument go = bad_call
next (piece p rest args) go = and_then p (go rest args)

pub print : (fuel : ℕ) → Str → List Arg → Output
unfolding round next
print zero format args = out_of_fuel
print (suc fuel) format args = next (round format args) (print fuel)

-- `sprintf`; one round for each character of the format is enough.
pub sprintf : Str → List Arg → Output
unfolding print
sprintf format args = print (suc (length format)) format args
