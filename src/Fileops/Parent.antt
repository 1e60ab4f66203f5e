-- ===== src/Fileops/Parent.antt =====
-- kernel/fileops.c: `getparent`, which takes the path of a new or old file apart. The directory that it
-- opens and the name that it returns are strings.
pub mod Laws
mod Examples
use dionysus.Prelude.{ℕ, Bool, Option, none, some, [], ◌∷◌, ltb, ◌==◌, if◌then◌else◌, length}
use dionysus.Prelude.Str.{Str}

-- PATH_DELIMITER and NAME_MAX
abbrev pub delimiter : ℕ
delimiter = 47

abbrev pub name_max : ℕ
name_max = 256

abbrev and_before : (c : ℕ) → Str × Str → Option (Str × Str)
and_before c (dir, name) = some (c ∷ dir, name)

abbrev or_here : (c : ℕ) → Str → Option (Str × Str) → Option (Str × Str)
or_here c s none = if c == delimiter then some ([], s) else none
or_here c s (some found) = and_before c found

-- the loop from the end of the string: what stands before and behind the last delimiter
pub last_delimiter : Str → Option (Str × Str)
last_delimiter [] = none
last_delimiter (c ∷ s) = or_here c s (last_delimiter s)

pub data Parent : Type 0 where
  past_nul : Parent  -- a read behind the NUL of the copy
  too_long : Str → Parent  -- with the directory that stays open
  opens : (dir name : Str) → Parent

parent_of : (dir name : Str) → Parent
parent_of dir name = if ltb name_max (length name) then too_long dir else opens dir name

-- The loop ends before the first character, which is taken for a delimiter if no other is found.
split_at : (c : ℕ) → Str → Option (Str × Str) → Parent
unfolding parent_of
split_at c s none = parent_of (46 ∷ []) s
split_at c s (some (dir, name)) = parent_of (c ∷ dir) name

pub getparent : Str → Parent
unfolding split_at last_delimiter
getparent [] = past_nul
getparent (c ∷ s) = split_at c s (last_delimiter s)
