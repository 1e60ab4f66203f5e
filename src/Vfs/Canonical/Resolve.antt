-- ===== src/Vfs/Canonical/Resolve.antt =====
-- What a path stands for, as a list of names, and the second loop against it.
use dionysus.Prelude.{
  suc, ◌-◌, ◌≡◌, refl, Bool, true, false, not, ◌&&◌, List, [], ◌∷◌, ◌++◌, arith, if◌then◌else◌,
  length, take, inl, inr, Bool-cases,
}
use dionysus.Prelude.Str.{Str, str_eq}
use dionysus.Vfs.Canonical.{
  this_dir, parent_dir, remove_last, remove_prev, Prev, null, last, freed, Walk, done,
  use_after_free, tail_of,
}
use dionysus.Vfs.Canonical.Tokens.{component, walk_named}

-- `.` stays, `..` leaves the last directory, any other name enters one.
unfoldable pub resolve : List Str → List Str → List Str
resolve [] dir = dir
resolve (s ∷ names) dir = resolve names (
    if str_eq s this_dir
    then dir
    else if str_eq s parent_dir
    then take (length dir - 1) dir
    else dir ++ s ∷ [])

-- No `..` follows another with nothing but `.` between them.
unfoldable pub single_parents : (just_left : Bool) → List Str → Bool
single_parents just_left [] = true
single_parents just_left (s ∷ names) =
    let same = single_parents just_left names in
    let left = not just_left && single_parents true names in
    let entered = single_parents false names in
    if str_eq s this_dir then same else if str_eq s parent_dir then left else entered

remove_last-take : (dir : List Str) → remove_last dir ≡ take (length dir - 1) dir
unfolding remove_last
remove_last-take [] = refl
remove_last-take (s ∷ []) = refl
remove_last-take (s ∷ t ∷ dir) =
    rw (remove_last-take (t ∷ dir))
      (let e : length (s ∷ t ∷ dir) - 1 ≡ suc (length (t ∷ dir) - 1) = omega arith in rw e)

is_freed : Prev → Bool
is_freed freed = true
is_freed _ = false

-- NULL stands for the tail of an empty list only.
abbrev Fits : Prev → List Str → Type 0
Fits null dir = dir ≡ []
Fits _ dir = Unit {0}

single_parents_weaken :
    (names : List Str) → single_parents true names ≡ true → single_parents false names ≡ true
unfolding single_parents
single_parents_weaken [] h = refl
single_parents_weaken (s ∷ names) h = ground (arith, single_parents_weaken names)

remove_prev-step :
    (dir : List Str) (prev : Prev) (names : List Str) (next : List Str → Prev → Walk)
    → Fits prev dir
    → not (is_freed prev) && single_parents true names ≡ true
    → ((d : List Str) (p : Prev)
        → Fits p d
        → single_parents (is_freed p) names ≡ true
        → next d p ≡ done (resolve names d))
    → remove_prev dir prev next ≡ done (resolve names (take (length dir - 1) dir))
unfolding remove_prev is_freed
remove_prev-step dir null names next f h go = rw f (go [] null refl (single_parents_weaken names h))
remove_prev-step dir last names next f h go =
    rw (← remove_last-take dir) (go (remove_last dir) freed tt h)
remove_prev-step dir freed names next f h go = cc

-- Without a second `..` in a row the loop ends in the directory that the names lead to.
walk_named-resolve :
    (names dir : List Str) (prev : Prev)
    → Fits prev dir
    → single_parents (is_freed prev) names ≡ true
    → walk_named names dir prev ≡ done (resolve names dir)
unfolding walk_named resolve single_parents is_freed
walk_named-resolve [] dir prev f h = refl
walk_named-resolve (s ∷ names) dir prev f h = elim (Bool-cases (str_eq s this_dir)) [
  | inl this ↦ rw this (walk_named-resolve names dir prev f (ground arith))
  | inr other ↦ rw other (elim (Bool-cases (str_eq s parent_dir)) [
    | inl up ↦ rw up (
        remove_prev-step dir prev names (walk_named names) f (ground arith)
          (λ d p g k. walk_named-resolve names d p g k))
    | inr down ↦ rw down (walk_named-resolve names (dir ++ s ∷ []) last tt (ground arith))
  ])
]

tail_of-Fits : (dir : List Str) → Fits (tail_of dir) dir
tail_of-Fits [] = refl
tail_of-Fits (s ∷ dir) = tt

pub walk_named-tail_of :
    (names dir : List Str)
    → single_parents false names ≡ true
    → walk_named names dir (tail_of dir) ≡ done (resolve names dir)
unfolding is_freed
walk_named-tail_of names [] h = walk_named-resolve names [] null refl h
walk_named-tail_of names (s ∷ dir) h = walk_named-resolve names (s ∷ dir) last tt h

component-fault :
    (b : Str) (dir : List Str) (prev : Prev) (next : List Str → Prev → Walk)
    → ((d : List Str) (p : Prev) → next d p ≡ use_after_free)
    → component b dir prev next ≡ use_after_free
unfolding remove_prev
component-fault b dir null next h = ground (arith, h dir null, h (dir ++ b ∷ []) last)
component-fault b dir last next h =
    ground (arith, h dir last, h (remove_last dir) freed, h (dir ++ b ∷ []) last)
component-fault b dir freed next h = ground (arith, h dir freed, h (dir ++ b ∷ []) last)

-- A name, then `..` twice: the second `..` uses the node that the first has freed.
pub walk_named-twice :
    (before after dir : List Str) (s : Str) (prev : Prev)
    → str_eq s this_dir ≡ false
    → str_eq s parent_dir ≡ false
    → walk_named (before ++ s ∷ parent_dir ∷ parent_dir ∷ after) dir prev ≡ use_after_free
unfolding walk_named remove_prev str_eq
walk_named-twice [] after dir s prev d p = rw (d, p)
walk_named-twice (b ∷ before) after dir s prev d p =
    component-fault b dir prev _ (λ e q. walk_named-twice before after e s q d p)
