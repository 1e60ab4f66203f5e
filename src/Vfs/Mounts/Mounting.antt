-- ===== src/Vfs/Mounts/Mounting.antt =====
-- What `mount` does to the tree.
use dionysus.Prelude.{
  ℕ, ◌≡◌, ◌≢◌, refl, sym, ap, ◌∙◌, true, false, Option, none, some, List, [], ◌∷◌, Bool-cases, inl,
  inr,
}
use dionysus.Prelude.Int.{pos}
use dionysus.Prelude.Str.{Str, str_eq, str_eq→eq}
use dionysus.Vfs.Canonical.{canonical, spell, canonicalize_path}
use dionysus.Vfs.Canonical.Names.{ArePlain, IsPlain}
use dionysus.Vfs.Mounts.{
  MountNode, mount_node, MountNodes, leaf, name_of, sb_of, children_of, set_children, set_sb,
  child_or_new, find_child, put_child, Walked, ascend, mount_here, mount_super, mount_path,
  mount_fs, mount, checks, super_of, root_or_new, Device, FileSystem,
}
use dionysus.Vfs.Mounts.Tree.{
  mounted, below, find_child-put_child, find_child-put_other, child_or_new-name,
  child_or_new-mounted,
}
use dionysus.Vfs.Mounts.Walks.{mount_names, mount_from-spell}

-- A tree with one more mount point.
pub record IsMounted (sb : ℕ) (names : List Str) (n n' : MountNode) : Type 0 where
  pub name : name_of n' ≡ name_of n
  pub at : mounted names n' ≡ some sb
  pub others : (other : List Str) → other ≢ names → mounted other n' ≡ mounted other n

set_sb-others :
    (sb : ℕ) (n : MountNode) (other : List Str)
    → other ≢ []
    → mounted other (set_sb (some sb) n) ≡ mounted other n
unfolding mounted
set_sb-others sb (mount_node name old kids) [] ne = absurd (ne refl)
set_sb-others sb (mount_node name old kids) (t ∷ names) ne = refl

here-IsMounted :
    (sb : ℕ) (n : MountNode)
    → sb_of n ≡ none
    → (mount_here (some sb) true n
        ≡ some (record { code = pos 0; pruning = false; node = set_sb (some sb) n }))
      × IsMounted sb [] n (set_sb (some sb) n)
unfolding mount_here mounted
here-IsMounted sb (mount_node name old kids) e =
    rw e (
      refl,
      record { name = refl; at = refl; others = set_sb-others sb (mount_node name none kids) },
    )

put_child-others :
    (sb : ℕ) (s : Str) (names : List Str) (n m' : MountNode)
    → IsMounted sb names (child_or_new s (find_child s (children_of n))) m'
    → (other : List Str) → other ≢ s ∷ names
    → mounted other (set_children (put_child s m' (children_of n)) n) ≡ mounted other n
unfolding mounted
put_child-others sb s names (mount_node name old kids) m' is [] ne = refl
put_child-others sb s names (mount_node name old kids) m' is (t ∷ ts) ne =
    let n = mount_node name old kids in
    let named : name_of m' ≡ s = is.name ∙ child_or_new-name s kids in
    elim (Bool-cases (str_eq s t)) [
      | inl same ↦
          let eq : s ≡ t = str_eq→eq s t same in
          let ne' : ts ≢ names =
            λ e. ne (ap (λ (r : Str). r ∷ ts) (sym eq) ∙ ap (λ (r : List Str). s ∷ r) e) in
          rw (sym eq) (
            rw (find_child-put_child s m' kids named)
              (is.others ts ne' ∙ child_or_new-mounted s ts n))
      | inr away ↦
          ap (λ (o : Option MountNode). below o (mounted ts))
            (find_child-put_other s t m' kids named away)
    ]

ascend-IsMounted :
    (sb : ℕ) (s : Str) (names : List Str) (n m' : MountNode)
    → IsMounted sb names (child_or_new s (find_child s (children_of n))) m'
    → IsMounted sb (s ∷ names) n (set_children (put_child s m' (children_of n)) n)
unfolding mounted
ascend-IsMounted sb s names (mount_node name old kids) m' is =
    let n = mount_node name old kids in
    let named : name_of m' ≡ s = is.name ∙ child_or_new-name s kids in
    let found = find_child-put_child s m' kids named in
    record { name = refl; at = rw found is.at; others = put_child-others sb s names n m' is }

-- what a walk to a free mount point leaves
abbrev Mounts : ℕ → List Str → MountNode → Option Walked → Type 0
Mounts sb names n o =
    (n' : MountNode) × (o ≡ some (record { code = pos 0; pruning = false; node = n' }))
    × IsMounted sb names n n'

ascend-Mounts :
    (sb : ℕ) (s : Str) (names : List Str) (n : MountNode) (o : Option Walked)
    → Mounts sb names (child_or_new s (find_child s (children_of n))) o
    → Mounts sb (s ∷ names) n (ascend s n o)
unfolding ascend
ascend-Mounts sb s names n o (m', e, is) = (
  set_children (put_child s m' (children_of n)) n,
  rw e refl,
  ascend-IsMounted sb s names n m' is,
)

mount_names-Mounts :
    (sb : ℕ) (names : List Str) (n : MountNode)
    → mounted names n ≡ none
    → Mounts sb names n (mount_names (some sb) names true n)
unfolding mount_names mounted
mount_names-Mounts sb [] n free =
    let (e, is) = here-IsMounted sb n free in (set_sb (some sb) n, e, is)
mount_names-Mounts sb (s ∷ names) n free = ascend-Mounts sb s names n _ (
    mount_names-Mounts sb names (child_or_new s (find_child s (children_of n)))
      (child_or_new-mounted s names n ∙ free))

-- the first name, which the loop comes to without an entry
mount_names-first :
    (sb : ℕ) (s : Str) (names : List Str) (n : MountNode)
    → mounted (s ∷ names) n ≡ none
    → Mounts sb (s ∷ names) n (mount_names (some sb) (s ∷ names) false n)
unfolding mount_names
mount_names-first sb s names n free = ascend-Mounts sb s names n _ (
    mount_names-Mounts sb names (child_or_new s (find_child s (children_of n)))
      (child_or_new-mounted s names n ∙ free))

path-Mounts :
    (sb : ℕ) (s : Str) (names : List Str) (n : MountNode)
    → ArePlain (s ∷ names)
    → mounted (s ∷ names) n ≡ none
    → (n' : MountNode) × (mount_path (some sb) (canonical (spell (s ∷ names))) n
        ≡ some (pos 0, some n'))
      × IsMounted sb (s ∷ names) n n'
unfolding mount_path
path-Mounts sb s names n plain free =
    let (n', e, is) = mount_names-first sb s names n free in
    (n', rw (mount_from-spell (some sb) s names n plain, e) refl, is)

-- For a path with canonical names at which nothing is mounted, if the first checks pass and the file system
-- gives a superblock, `mount` returns 0 and leaves a tree in which the superblock is mounted at the names,
-- and at all other names what was mounted before.
pub mount-IsMounted :
    (dev : Option Device) (cwd relpath : Str) (fs : FileSystem) (flags : ℕ)
    (root : Option MountNode) (sb : ℕ) (s : Str) (names : List Str)
    → canonicalize_path cwd relpath ≡ canonical (spell (s ∷ names))
    → ArePlain (s ∷ names)
    → mounted (s ∷ names) (root_or_new root) ≡ none
    → checks dev fs ≡ pos 0
    → super_of dev flags fs ≡ some sb
    → (n : MountNode) × (mount dev cwd relpath true (some fs) flags root ≡ some (pos 0, some n))
      × IsMounted sb (s ∷ names) (root_or_new root) n
unfolding mount mount_fs
mount-IsMounted dev cwd relpath fs flags root sb s names path plain free fine super =
    let (n, e, is) = path-Mounts sb s names (root_or_new root) plain free in
    (n, rw (fine, super, path) e, is)

-- the tree after a superblock is mounted at a new name below the root
pub mount-one_name :
    (dev : Option Device) (cwd relpath : Str) (fs : FileSystem) (flags sb : ℕ) (s name : Str)
    (up : Option ℕ) (kids : MountNodes)
    → canonicalize_path cwd relpath ≡ canonical (spell (s ∷ []))
    → IsPlain s
    → find_child s kids ≡ none
    → checks dev fs ≡ pos 0
    → super_of dev flags fs ≡ some sb
    → mount dev cwd relpath true (some fs) flags (some (mount_node name up kids))
      ≡ some (pos 0, some (mount_node name up (put_child s (mount_node s (some sb) leaf) kids)))
unfolding mount mount_fs mount_path mount_names ascend mount_here mount_super
mount-one_name dev cwd relpath fs flags sb s name up kids path plain free fine super =
    rw
      (
        fine,
        super,
        path,
        mount_from-spell (some sb) s [] (mount_node name up kids) (plain, tt),
        free,
      )
      refl
