-- ===== src/Vfs/Canonical.antt =====
-- kernel/vfs.c: `vfs_tokenize` and `canonicalize_path`, where every allocation succeeds. A buffer is
-- the list of its bytes from a pointer on, the NUL at its end included. The list `fifo` is the list
-- of its nodes' strings; the local `prev` is NULL, its last node, or a node that has been freed.
pub mod Tokens
pub mod Resolve
pub mod Laws
pub mod Names
mod Examples
use dionysus.Prelude.{
  ℕ, zero, suc, ◌+◌, Bool, true, false, List, [], ◌∷◌, ◌++◌, map, ◌==◌, if◌then◌else◌, length, drop,
}
use dionysus.Prelude.Str.{Str, str_eq}

-- PATH_DELIMITER, PATH_THIS_DIR and PATH_PARENT_DIR
abbrev pub delimiter : ℕ
delimiter = b'/'

abbrev pub this_dir : Str
this_dir = b'.' ∷ []

abbrev pub parent_dir : Str
parent_dir = b'.' ∷ b'.' ∷ []

-- `vfs_tokenize`: the buffer afterwards, and the depth.
pub tokenize : Str → List ℕ
tokenize [] = 0 ∷ []
tokenize (c ∷ path) = (if c == delimiter then 0 else c) ∷ tokenize path

pub tokenize_depth : Str → ℕ
tokenize_depth [] = 1
tokenize_depth (c ∷ path) = tokenize_depth path + (if c == delimiter then 1 else 0)

-- the string at a pointer into a buffer: its bytes up to the first NUL
pub string_at : List ℕ → Str
string_at [] = []
string_at (zero ∷ off) = []
string_at (suc c ∷ off) = suc c ∷ string_at off

-- `off += strlen(off) + 1`
pub skip_string : List ℕ → List ℕ
unfolding string_at
skip_string off = drop (length (string_at off) + 1) off

pub data Prev : Type 0 where
  null : Prev
  last : Prev
  freed : Prev

-- What a loop over a buffer ends in: the list; a read past the buffer; a use of a freed node.
pub data Walk : Type 0 where
  done : List Str → Walk
  past_end : Walk
  use_after_free : Walk

-- The loop over the tokens of the working directory.
pub collect : ℕ → List ℕ → List Str → Walk
unfolding string_at skip_string
collect zero off fifo = done fifo
collect (suc depth) [] fifo = past_end
collect (suc depth) (zero ∷ off) fifo = collect depth off fifo
collect (suc depth) (suc c ∷ off) fifo =
    collect depth (skip_string (suc c ∷ off)) (fifo ++ string_at (suc c ∷ off) ∷ [])

-- the list without its last node
pub remove_last : List Str → List Str
remove_last [] = []
remove_last (s ∷ []) = []
remove_last (s ∷ t ∷ fifo) = s ∷ remove_last (t ∷ fifo)

-- `list_remove(fifo, prev)`: nothing for NULL; past it the node that `prev` names is freed.
pub remove_prev : List Str → Prev → (List Str → Prev → Walk) → Walk
unfolding remove_last
remove_prev fifo null next = next fifo null
remove_prev fifo last next = next (remove_last fifo) freed
remove_prev fifo freed next = use_after_free

-- The loop over the tokens of the path that is asked for.
pub walk : ℕ → List ℕ → List Str → Prev → Walk
unfolding string_at skip_string remove_prev
walk zero off fifo prev = done fifo
walk (suc depth) [] fifo prev = past_end
walk (suc depth) (zero ∷ off) fifo prev = walk depth off fifo prev
walk (suc depth) (suc c ∷ off) fifo prev =
    let s = string_at (suc c ∷ off) in
    let stay = walk depth (drop 2 (suc c ∷ off)) fifo prev in
    let up = walk depth (drop 3 (suc c ∷ off)) in
    let down = walk depth (skip_string (suc c ∷ off)) (fifo ++ s ∷ []) last in
    if str_eq s this_dir
    then stay
    else if str_eq s parent_dir
    then remove_prev fifo prev up
    else down

-- `fifo->tail`
abbrev pub tail_of : List Str → Prev
tail_of [] = null
tail_of (s ∷ fifo) = last

-- every string of the list behind a delimiter
pub spell : List Str → Str
spell [] = []
spell (s ∷ fifo) = delimiter ∷ (s ++ spell fifo)

pub data Canonical : Type 0 where
  canonical : Str → Canonical
  out_of_bounds : Canonical
  dangling : Canonical

-- The string that is built from the list. For an empty list the block is too small: `krealloc` frees it, its
-- result is dropped, and the freed block is written and returned.
pub built : List Str → Canonical
unfolding spell
built [] = dangling
built (s ∷ fifo) = canonical (spell (s ∷ fifo))

abbrev pub finish : Walk → Canonical
finish (done fifo) = built fifo
finish past_end = out_of_bounds
finish use_after_free = dangling

abbrev pub starts_absolute : Str → Bool
starts_absolute [] = false
starts_absolute (c ∷ path) = c == delimiter

-- the second loop, from what the first has left
abbrev pub walk_from : Str → Walk → Walk
walk_from relpath (done fifo) = walk (tokenize_depth relpath) (tokenize relpath) fifo (tail_of fifo)
walk_from relpath past_end = past_end
walk_from relpath use_after_free = use_after_free

pub canonicalize_path : Str → Str → Canonical
unfolding tokenize tokenize_depth collect walk built
canonicalize_path cwd relpath = finish (
    walk_from relpath
      (if starts_absolute relpath then done [] else collect (tokenize_depth cwd) (tokenize cwd) []))
