-- ===== src/Vfs/Canonical/Names.antt =====
-- Canonical paths with names: `canonicalize_path` returns them unchanged.
use dionysus.Prelude.{
  ◌<◌, ◌≡◌, refl, Bool, true, false, List, [], ◌∷◌, ◌++◌, arith, ◌==◌, length, ◌∙◌, ap,
}
use mathlib.Core.List.{append_assoc, append-nil}
use dionysus.Prelude.Str.{Str, str_eq}
use dionysus.Vfs.Canonical.{
  delimiter, this_dir, parent_dir, spell, built, canonical, canonicalize_path,
}
use dionysus.Vfs.Canonical.Tokens.{Lays, tokenize-Lays, IsText, components, split, named}
use dionysus.Vfs.Canonical.Resolve.{resolve, single_parents}
use dionysus.Vfs.Canonical.Laws.{base, canonicalize_path-resolve}

-- A name that stands for itself: some bytes, no NUL and no delimiter, not `.` and not `..`.
abbrev pub HasNoDelimiter : Str → Type 0
HasNoDelimiter [] = Unit {0}
HasNoDelimiter (c ∷ s) = (0 < c) × (c == delimiter ≡ false) × HasNoDelimiter s

pub record IsPlain (s : Str) : Type 0 where
  pub bytes : HasNoDelimiter s
  pub some_byte : 0 < length s
  pub ne_this : str_eq s this_dir ≡ false
  pub ne_parent : str_eq s parent_dir ≡ false

abbrev pub ArePlain : List Str → Type 0
ArePlain [] = Unit {0}
ArePlain (s ∷ names) = IsPlain s × ArePlain names

split-append : (s rest : Str) → HasNoDelimiter s → split (s ++ delimiter ∷ rest) ≡ s ∷ split rest
unfolding split
split-append [] rest h = refl
split-append (c ∷ s) rest h = rw (h.1, split-append s rest h.2)

split-plain : (s : Str) → HasNoDelimiter s → split s ≡ s ∷ []
unfolding split
split-plain [] h = refl
split-plain (c ∷ s) h = rw (h.1, split-plain s h.2)

IsText-append : (s rest : Str) → HasNoDelimiter s → IsText rest → IsText (s ++ rest)
IsText-append [] rest h t = t
IsText-append (c ∷ s) rest h t = (h.0, IsText-append s rest h.2 t)

spell-IsText : (names : List Str) → ArePlain names → IsText (spell names)
unfolding spell
spell-IsText [] h = tt
spell-IsText (s ∷ names) h =
    (omega arith, IsText-append s (spell names) h.0.bytes (spell-IsText names h.1))

split-spell :
    (s : Str) (names : List Str) → ArePlain (s ∷ names) → split (s ++ spell names) ≡ s ∷ names
unfolding spell
split-spell s [] h = rw append-nil (split-plain s h.0.bytes)
split-spell s (t ∷ names) h =
    split-append s (t ++ spell names) h.0.bytes ∙ ap (λ r. s ∷ r) (split-spell t names h.1)

pub named-plain : (names : List Str) → ArePlain names → named names ≡ names
unfolding named
named-plain [] h = refl
named-plain ([] ∷ names) h = absurd (omega (arith, h.0.some_byte))
named-plain ((c ∷ s) ∷ names) h = rw (named-plain names h.1)

components-delimiter : (path : Str) → components (delimiter ∷ path) ≡ components path
unfolding split named
components-delimiter path = refl

components-spell : (names : List Str) → ArePlain names → components (spell names) ≡ names
unfolding spell
components-spell [] h = unfold split named in refl
components-spell (s ∷ names) h =
    components-delimiter (s ++ spell names) ∙ rw (split-spell s names h) (named-plain (s ∷ names) h)

single_parents-plain :
    (b : Bool) (names : List Str) → ArePlain names → single_parents b names ≡ true
unfolding single_parents
single_parents-plain b [] h = refl
single_parents-plain b (s ∷ names) h =
    rw (h.0.ne_this, h.0.ne_parent) (single_parents-plain false names h.1)

resolve-plain : (names dir : List Str) → ArePlain names → resolve names dir ≡ dir ++ names
unfolding resolve
resolve-plain [] dir h = rw append-nil
resolve-plain (s ∷ names) dir h =
    rw (h.0.ne_this, h.0.ne_parent)
      (resolve-plain names (dir ++ s ∷ []) h.1 ∙ append_assoc dir (s ∷ []) names)

-- no canonical path starts from the working directory
base-spell : (cwd s : Str) (names : List Str) → base cwd (spell (s ∷ names)) ≡ []
unfolding spell
base-spell cwd s names = refl

-- how a canonical path with names lies in its buffer
pub spell-Lays :
    (s : Str) (names : List Str) → ArePlain (s ∷ names) → Lays (spell (s ∷ names)) ([] ∷ s ∷ names)
unfolding split spell
spell-Lays s names h =
    let l = tokenize-Lays (spell (s ∷ names)) (spell-IsText (s ∷ names) h) in
    let e : split (spell (s ∷ names)) ≡ [] ∷ s ∷ names =
      ap (λ (r : List Str). [] ∷ r) (split-spell s names h) in
    rw e at l

-- `canonicalize_path` leaves a canonical path with names as it is, whatever the working directory.
pub canonicalize_path-spell :
    (cwd s : Str) (names : List Str)
    → IsText cwd
    → ArePlain (s ∷ names)
    → canonicalize_path cwd (spell (s ∷ names)) ≡ canonical (spell (s ∷ names))
unfolding built
canonicalize_path-spell cwd s names t h =
    let single : single_parents false (components (spell (s ∷ names))) ≡ true =
      rw (components-spell (s ∷ names) h) (single_parents-plain false (s ∷ names) h) in
    canonicalize_path-resolve cwd (spell (s ∷ names)) t (spell-IsText (s ∷ names) h) single
    ∙ rw (components-spell (s ∷ names) h, base-spell cwd s names)
        (ap built (resolve-plain (s ∷ names) [] h))
