-- ===== src/Fileops/Parent/Laws.antt =====
-- The directory and the name that `getparent` finds.
use dionysus.Prelude.{
  ℕ, ◌≤◌, ◌≡◌, ◌≢◌, refl, ap, ◌∙◌, false, none, some, [], ◌∷◌, ◌++◌, ltb, ◌==◌, length, arith,
}
use dionysus.Prelude.Str.{Str}
use dionysus.Fileops.Parent.{
  name_max, last_delimiter, or_here, opens, parent_of, split_at, getparent,
}

-- a name without a delimiter
abbrev pub HasNone : Str → Type 0
HasNone [] = Unit
HasNone (c ∷ s) = (c ≢ 47) × HasNone s

last_delimiter-name : (name : Str) → HasNone name → last_delimiter name ≡ none
unfolding last_delimiter
last_delimiter-name [] h = refl
last_delimiter-name (c ∷ s) (other, h) =
    let e : c == 47 ≡ false = ground arith in ap (or_here c s) (last_delimiter-name s h) ∙ rw e refl

last_delimiter-append :
    (dir name : Str) → HasNone name → last_delimiter (dir ++ 47 ∷ name) ≡ some (dir, name)
unfolding last_delimiter
last_delimiter-append [] name h = ap (or_here 47 name) (last_delimiter-name name h)
last_delimiter-append (c ∷ dir) name h =
    ap (or_here c (dir ++ 47 ∷ name)) (last_delimiter-append dir name h)

parent_of-short : (dir name : Str) → length name ≤ name_max → parent_of dir name ≡ opens dir name
unfolding parent_of
parent_of-short dir name h = let e : ltb name_max (length name) ≡ false = ground arith in rw e refl

-- A path of a directory, a delimiter and a name of at most NAME_MAX characters without one is taken apart
-- into these two, if the directory is not empty.
pub getparent-append :
    (c : ℕ) (dir name : Str)
    → HasNone name
    → length name ≤ name_max
    → getparent (c ∷ dir ++ 47 ∷ name) ≡ opens (c ∷ dir) name
unfolding getparent split_at
getparent-append c dir name h short =
    ap (split_at c (dir ++ 47 ∷ name)) (last_delimiter-append dir name h)
    ∙ parent_of-short (c ∷ dir) name short

-- In a path with no delimiter behind its first character, that character is lost, whatever it is: a
-- relative name loses its first letter, and a file of the root directory is looked for in the working
-- directory.
pub getparent-lost :
    (c : ℕ) (name : Str)
    → HasNone name
    → length name ≤ name_max
    → getparent (c ∷ name) ≡ opens (46 ∷ []) name
unfolding getparent split_at
getparent-lost c name h short =
    ap (split_at c name) (last_delimiter-name name h) ∙ parent_of-short (46 ∷ []) name short
