-- ===== src/Printf/Formats.antt =====
-- The loop of `print` over a format.
use dionysus.Prelude.{
  ℕ, zero, suc, ◌+◌, ◌-◌, ◌*◌, ◌≤◌, ◌<◌, ◌≡◌, ◌≢◌, refl, Bool, true, false, ◌||◌, Option, none,
  some, List, [], ◌∷◌, leb, ◌==◌, if◌then◌else◌, length, length-append, arith, Bool-cases, inl, inr,
  ap,
}
use dionysus.Prelude.Str.{Str}
use dionysus.Printf.{
  Pad, Printed, Arg, number, string, prints, convert, converted, conversion, escape, round,
  skip_zeros, read_width, read_flags, Piece, ended, past_end, bad_argument, piece, Output, written,
  past_nul, bad_call, and_then, next, print, sprintf, or_null_text, char_text,
}
use dionysus.Printf.Padding.{IsCounted, prints-length, printi-IsCounted}

-- a round that leaves less than `n` characters of the format, with the count of what it writes
data IsRound (n : ℕ) : Piece → Type 0 where
  ends : IsRound n ended
  reads_past : IsRound n past_end
  refuses : IsRound n bad_argument
  goes_on :
      {p : Printed} {rest : Str} {args : List Arg}
      → IsCounted p
      → length rest < n
      → IsRound n (piece p rest args)

-- what `print` is to give: all that is written is counted, and the fuel was enough
pub data IsSettled : Output → Type 0 where
  counted : {p : Printed} → IsCounted p → IsSettled (written p)
  lost : IsSettled past_nul
  refused : IsSettled bad_call

length-skip_zeros : (s : Str) → length (skip_zeros s).1 ≤ length s
unfolding skip_zeros
length-skip_zeros [] = omega arith
length-skip_zeros (c ∷ s) = ground (arith, length-skip_zeros s)

length-read_width : (w : ℕ) (s : Str) → length (read_width w s).1 ≤ length s
unfolding read_width
length-read_width w [] = omega arith
length-read_width w (c ∷ s) = ground (arith, length-read_width (w * 10 + (c - 48)) s)

length-read_flags : (s : Str) → length (read_flags s).2 ≤ length s
unfolding read_flags
length-read_flags [] = omega arith
length-read_flags (c ∷ s) =
    let start = if c == 45 then s else c ∷ s in
    let after = (skip_zeros start).1 in
    ground (arith, length-skip_zeros start, length-read_width 0 after)

abbrev IsConverted : Option (Printed × List Arg) → Type 0
IsConverted none = Unit
IsConverted (some r) = IsCounted r.0

none-IsConverted : IsConverted none
none-IsConverted = tt

IsConverted-if :
    (r q : Option (Printed × List Arg)) (b : Bool)
    → IsConverted r
    → IsConverted q
    → IsConverted (if b then r else q)
IsConverted-if r q true h k = h
IsConverted-if r q false h k = k

prints-IsCounted : (s : Str) (width : ℕ) (pad : Pad) → IsCounted (prints s width pad)
prints-IsCounted s width pad = (prints-length s width pad).0

convert-IsConverted :
    (c width : ℕ) (pad : Pad) (args : List Arg) → IsConverted (convert c width pad args)
unfolding convert
convert-IsConverted c width pad [] =
    let asks =
      (c == 115)
      || (c == 100)
      || (c == 105)
      || (c == 120)
      || (c == 88)
      || (c == 117)
      || (c == 99) in
    IsConverted-if none (some (([], 0), [])) asks none-IsConverted refl
convert-IsConverted c width pad (number i ∷ args) = IsConverted-if _ _ (c == 115) none-IsConverted (
    IsConverted-if _ _ ((c == 100) || (c == 105)) (printi-IsCounted i 10 true width pad 97) (
      IsConverted-if _ _ (c == 120) (printi-IsCounted i 16 false width pad 97) (
        IsConverted-if _ _ (c == 88) (printi-IsCounted i 16 false width pad 65) (
          IsConverted-if _ _ (c == 117) (printi-IsCounted i 10 false width pad 97)
            (IsConverted-if _ _ (c == 99) (prints-IsCounted (char_text i) width pad) refl)))))
convert-IsConverted c width pad (string s ∷ args) =
    IsConverted-if _ _ (c == 115) (prints-IsCounted (or_null_text s) width pad) (
      let asks = (c == 100) || (c == 105) || (c == 120) || (c == 88) || (c == 117) || (c == 99) in
      IsConverted-if none (some (([], 0), string s ∷ args)) asks none-IsConverted refl)

converted-IsRound :
    (n : ℕ) (rest : Str) (r : Option (Printed × List Arg))
    → IsConverted r
    → length rest < n
    → IsRound n (converted rest r)
unfolding converted
converted-IsRound n rest none h less = refuses
converted-IsRound n rest (some (p, args)) h less = goes_on h less

conversion-IsRound :
    (n : ℕ) (pad : Pad) (width : ℕ) (s : Str) (args : List Arg)
    → length s ≤ n
    → IsRound n (conversion pad width s args)
unfolding conversion
conversion-IsRound n pad width [] args h = reads_past
conversion-IsRound n pad width (c ∷ rest) args h =
    converted-IsRound n rest (convert c width pad args) (convert-IsConverted c width pad args)
      (omega arith)

IsRound-if :
    (n : ℕ) (b : Bool) (r q : Piece) → IsRound n r → IsRound n q → IsRound n (if b then r else q)
IsRound-if n true r q h k = h
IsRound-if n false r q h k = k

escape-IsRound : (n : ℕ) (s : Str) (args : List Arg) → length s < n → IsRound n (escape s args)
unfolding escape
escape-IsRound n [] args h = ends
escape-IsRound n (c ∷ s) args h =
    let f = read_flags (c ∷ s) in
    let l = length-read_flags (c ∷ s) in
    IsRound-if n (c == 37) _ _ (goes_on refl (omega arith))
      (conversion-IsRound n f.0 f.1 f.2 args (omega (arith, l)))

round-IsRound : (s : Str) (args : List Arg) → IsRound (length s) (round s args)
unfolding round
round-IsRound [] args = ends
round-IsRound (c ∷ s) args =
    IsRound-if _ (c == 37) _ _ (escape-IsRound _ s args (omega arith)) (goes_on refl (omega arith))

and_then-IsSettled :
    (p : Printed) (o : Output) → IsCounted p → IsSettled o → IsSettled (and_then p o)
unfolding and_then
and_then-IsSettled p _ h (counted {p = q} k) = counted (omega (arith, h, k, length-append p.0 q.0))
and_then-IsSettled p _ h lost = lost
and_then-IsSettled p _ h refused = refused

next-IsSettled :
    (n : ℕ) (r : Piece) (go : Str → List Arg → Output)
    → IsRound n r
    → ((rest : Str) (args : List Arg) → length rest < n → IsSettled (go rest args))
    → IsSettled (next r go)
unfolding next
next-IsSettled n _ go ends k = counted refl
next-IsSettled n _ go reads_past k = lost
next-IsSettled n _ go refuses k = refused
next-IsSettled n _ go (goes_on {p} {rest} {args} h less) k =
    and_then-IsSettled p (go rest args) h (k rest args less)

print-IsSettled :
    (fuel : ℕ) (s : Str) (args : List Arg) → length s < fuel → IsSettled (print fuel s args)
unfolding print
print-IsSettled zero s args h = absurd (omega arith)
print-IsSettled (suc fuel) s args h =
    next-IsSettled (length s) (round s args) (print fuel) (round-IsRound s args)
      (λ rest args' less. print-IsSettled fuel rest args' (omega arith))

-- For every format and arguments, `sprintf` comes to an end, and when it returns then its count is the
-- length of what it wrote: the other ends are a read behind the format's NUL and an argument of the
-- wrong kind.
pub sprintf-IsSettled : (s : Str) (args : List Arg) → IsSettled (sprintf s args)
unfolding sprintf
sprintf-IsSettled s args = print-IsSettled (suc (length s)) s args (omega arith)

-- a text without `%`
abbrev pub IsPlain : Str → Type 0
IsPlain [] = Unit
IsPlain (c ∷ s) = (c ≢ 37) × IsPlain s

print-plain :
    (fuel : ℕ) (s : Str) (args : List Arg)
    → IsPlain s
    → length s < fuel
    → print fuel s args ≡ written (s, length s)
unfolding print and_then round next
print-plain zero s args plain h = absurd (omega arith)
print-plain (suc fuel) [] args plain h = refl
print-plain (suc fuel) (c ∷ s) args (other, plain) h =
    let e : c == 37 ≡ false = ground arith in
    rw e (
      rw (print-plain fuel s args plain (omega arith))
        (ap (λ (n : ℕ). written (c ∷ s, n)) (omega arith)))

-- A format without `%` is written as it stands, whatever the arguments.
pub sprintf-plain : (s : Str) (args : List Arg) → IsPlain s → sprintf s args ≡ written (s, length s)
unfolding sprintf
sprintf-plain s args plain = print-plain (suc (length s)) s args plain (omega arith)

-- nothing but digits
abbrev pub IsDigits : Str → Type 0
IsDigits [] = Unit
IsDigits (c ∷ s) = (48 ≤ c) × (c ≤ 57) × IsDigits s

skip_zeros-IsDigits : (s : Str) → IsDigits s → IsDigits (skip_zeros s).1
unfolding skip_zeros
skip_zeros-IsDigits [] h = h
skip_zeros-IsDigits (c ∷ s) (low, high, h) = elim (Bool-cases (c == 48)) [
  | inl e ↦ rw e (skip_zeros-IsDigits s h)
  | inr e ↦ rw e (low, high, h)
]

read_width-digits : (w : ℕ) (s : Str) → IsDigits s → (read_width w s).1 ≡ []
unfolding read_width
read_width-digits w [] h = refl
read_width-digits w (c ∷ s) (low, high, h) =
    let l : leb 48 c ≡ true = ground arith in
    let r : leb c 57 ≡ true = ground arith in rw (l, r) (read_width-digits (w * 10 + (c - 48)) s h)

read_flags-digits : (c : ℕ) (s : Str) → IsDigits (c ∷ s) → (read_flags (c ∷ s)).2 ≡ []
unfolding read_flags
read_flags-digits c s h =
    let (low, high, more) = h in
    let e : c == 45 ≡ false = ground arith in
    rw e (read_width-digits 0 (skip_zeros (c ∷ s)).1 (skip_zeros-IsDigits (c ∷ s) h))

-- A format that ends in a `%` with a width and no conversion, as `%5`, is read past its NUL: the loop's
-- increment steps over the NUL that the width's loop stopped at.
pub sprintf-past_nul :
    (c : ℕ) (s : Str) (args : List Arg) → IsDigits (c ∷ s) → sprintf (37 ∷ c ∷ s) args ≡ past_nul
unfolding sprintf print and_then round next escape conversion
sprintf-past_nul c s args h =
    let (low, high, more) = h in
    let e : c == 37 ≡ false = ground arith in let f = read_flags-digits c s h in rw (e, f) refl
