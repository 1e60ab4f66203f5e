-- ===== src/Vfs/Canonical/Laws.antt =====
-- What `canonicalize_path` returns.
use dionysus.Prelude.{◌≡◌, true, false, List, [], ◌∷◌, ◌++◌, arith, if◌then◌else◌, ◌∙◌, ap}
use dionysus.Prelude.Str.{Str, str_eq}
use dionysus.Vfs.Canonical.{
  this_dir, parent_dir, done, use_after_free, collect, built, tail_of, tokenize, tokenize_depth,
  dangling, finish, starts_absolute, walk_from, canonicalize_path,
}
use dionysus.Vfs.Canonical.Tokens.{
  IsText, components, collect-components, walk-components, walk_named,
}
use dionysus.Vfs.Canonical.Resolve.{resolve, single_parents, walk_named-tail_of, walk_named-twice}

-- the directory that a path starts from
abbrev pub base : Str → Str → List Str
base cwd relpath = if starts_absolute relpath then [] else components cwd

start-done :
    (cwd relpath : Str)
    → IsText cwd
    → (if starts_absolute relpath then done [] else collect (tokenize_depth cwd) (tokenize cwd) [])
      ≡ done (base cwd relpath)
start-done cwd relpath t = rw (collect-components cwd t) (ground arith)

canonicalize_path-walk :
    (cwd relpath : Str)
    → IsText cwd
    → IsText relpath
    → canonicalize_path cwd relpath
      ≡ finish (walk_named (components relpath) (base cwd relpath) (tail_of (base cwd relpath)))
unfolding canonicalize_path
canonicalize_path-walk cwd relpath t u =
    ap (λ w. finish (walk_from relpath w)) (start-done cwd relpath t)
    ∙ ap finish (walk-components relpath (base cwd relpath) (tail_of (base cwd relpath)) u)

pub canonicalize_path-resolve :
    (cwd relpath : Str)
    → IsText cwd
    → IsText relpath
    → single_parents false (components relpath) ≡ true
    → canonicalize_path cwd relpath ≡ built (resolve (components relpath) (base cwd relpath))
canonicalize_path-resolve cwd relpath t u h =
    canonicalize_path-walk cwd relpath t u
    ∙ ap finish (walk_named-tail_of (components relpath) (base cwd relpath) h)

-- A path in which a name is followed by `..` and `..` makes `canonicalize_path` use the list node
-- that it has freed at the first `..`, whatever stands before and after.
pub canonicalize_path-dangling :
    (cwd relpath : Str) (before after : List Str) (s : Str)
    → IsText cwd
    → IsText relpath
    → components relpath ≡ before ++ s ∷ parent_dir ∷ parent_dir ∷ after
    → str_eq s this_dir ≡ false
    → str_eq s parent_dir ≡ false
    → canonicalize_path cwd relpath ≡ dangling
canonicalize_path-dangling cwd relpath before after s t u e d p =
    let dir = base cwd relpath in
    let stop : walk_named (components relpath) dir (tail_of dir) ≡ use_after_free =
      rw e (walk_named-twice before after dir s (tail_of dir) d p) in
    canonicalize_path-walk cwd relpath t u ∙ ap finish stop
