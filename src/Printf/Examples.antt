-- ===== src/Printf/Examples.antt =====
-- kernel/printf.c at concrete formats, and the theorems applied to them.
use dionysus.Prelude.{◌+◌, ◌≤◌, ◌≡◌, refl, true, false, some, [], ◌∷◌, length, arith, inl}
use dionysus.Prelude.Int.{pos, negsuc}
use dionysus.Prelude.Str.{codes}
use dionysus.Printf.{Pad, number, string, buffer, written, sprintf}
use dionysus.Printf.Digits.{value, buffer-value}
use dionysus.Printf.Formats.{IsSettled, sprintf-IsSettled}

-- "%5d|%-4s|%x" of -42, "ab" and 255
sprintf_test :
    sprintf
      (codes "%5d|%-4s|%x")
      (number (negsuc 41) ∷ string (some (codes "ab")) ∷ number (pos 255) ∷ [])
    ≡ written (codes "  -42|ab  |ff", 13)
unfolding sprintf
sprintf_test = refl

-- "%05d" of -42
sprintf_zero_test : sprintf (codes "%05d") (number (negsuc 41) ∷ []) ≡ written (codes "-0042", 5)
unfolding sprintf
sprintf_zero_test = refl

buffer-value_example :
    (value 10 97 0 (buffer true (negsuc 41) 10 97) ≡ 42)
    × (length (buffer true (negsuc 41) 10 97) + 2 ≤ 12)
buffer-value_example = buffer-value true (negsuc 41) 10 97 (inl refl) (omega arith) (omega arith)

abbrev wide : Pad
wide = record { right = true; zero = false }

sprintf-IsSettled_example :
    IsSettled (sprintf (codes "/dev/hd%c%u") (number (pos 97) ∷ number (pos 1) ∷ []))
sprintf-IsSettled_example =
    sprintf-IsSettled (codes "/dev/hd%c%u") (number (pos 97) ∷ number (pos 1) ∷ [])
