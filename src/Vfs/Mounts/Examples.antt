-- ===== src/Vfs/Mounts/Examples.antt =====
-- The theorems about the mount points at concrete trees, and tests.
use dionysus.Prelude.{ℕ, suc, ◌≡◌, refl, sym, ap, true, none, some, List, [], ◌∷◌, arith}
use dionysus.Prelude.Bits.{test_bit}
use dionysus.Prelude.Int.{pos}
use dionysus.Prelude.Str.{Str, str_eq, codes}
use dionysus.Vfs.Canonical.{canonical, spell, canonicalize_path}
use dionysus.Vfs.Canonical.Names.{IsPlain, ArePlain, canonicalize_path-spell}
use dionysus.Vfs.Mounts.{
  MountNode, mount_node, MountNodes, leaf, child, find_child, FileSystem, root_or_new, mount,
}
use dionysus.Vfs.Mounts.Tree.{mounted}
use dionysus.Vfs.Mounts.Mounting.{IsMounted, mount-IsMounted}
use dionysus.Vfs.Mounts.Unmounting.{umount}
use dionysus.Vfs.Mounts.Unmounting.Laws.{umount-first}
use dionysus.Vfs.Mounts.Lookup.{Calls, kopen}
use dionysus.Vfs.Mounts.Lookup.Laws.{
  open_names, NoneBelow, IsDeepest, kopen-mounted, kopen-unmounted,
}

-- a file system without a device, whose superblock is at 100
abbrev devfs : FileSystem
devfs = record { flags = 1; get_super = λ dev flags. some 100 }

abbrev dev_name : Str
dev_name = codes "dev"

abbrev pts_name : Str
pts_name = codes "pts"

dev_name-IsPlain : IsPlain dev_name
unfolding str_eq
dev_name-IsPlain = record {
  bytes = (omega arith, refl, (omega arith, refl, (omega arith, refl, tt)));
  some_byte = omega arith;
  ne_this = refl;
  ne_parent = refl;
}

pts_name-IsPlain : IsPlain pts_name
unfolding str_eq
pts_name-IsPlain = record {
  bytes = (omega arith, refl, (omega arith, refl, (omega arith, refl, tt)));
  some_byte = omega arith;
  ne_this = refl;
  ne_parent = refl;
}

-- the path is canonical in any working directory
in_root :
    (s : Str) (names : List Str)
    → ArePlain (s ∷ names)
    → canonicalize_path (47 ∷ []) (spell (s ∷ names)) ≡ canonical (spell (s ∷ names))
in_root s names plain = canonicalize_path-spell (47 ∷ []) s names (omega arith, tt) plain

abbrev root_name : Str
root_name = codes "[root]"

mount-IsMounted_example :
    (n : MountNode) × (mount none
        (47 ∷ [])
        (spell (dev_name ∷ pts_name ∷ []))
        true
        (some devfs)
        0
        none
      ≡ some (pos 0, some n))
    × IsMounted 100 (dev_name ∷ pts_name ∷ []) (root_or_new none) n
mount-IsMounted_example =
    mount-IsMounted none (47 ∷ []) (spell (dev_name ∷ pts_name ∷ [])) devfs 0 none 100 dev_name
      (pts_name ∷ []) (in_root dev_name (pts_name ∷ []) (dev_name-IsPlain, (pts_name-IsPlain, tt)))
      (dev_name-IsPlain, (pts_name-IsPlain, tt)) (unfold mounted find_child in refl)
      (unfold test_bit in refl) refl

abbrev proc : MountNode
proc = mount_node (codes "proc") (some 200) leaf

abbrev pts : MountNode
pts = mount_node pts_name (some 300) leaf

-- /dev, /dev/pts and /proc are mounted
abbrev three : MountNodes
three = child (mount_node dev_name (some 100) (child pts leaf)) (child proc leaf)

umount-first_example :
    umount
      (λ sb force. pos 0)
      (47 ∷ [])
      (spell (dev_name ∷ pts_name ∷ []))
      4
      (some (mount_node root_name none three))
    ≡ umount
        (λ sb force. pos 0)
        (47 ∷ [])
        (spell (dev_name ∷ []))
        4
        (some (mount_node root_name none three))
umount-first_example =
    umount-first (λ sb force. pos 0) (47 ∷ []) (spell (dev_name ∷ pts_name ∷ []))
      (spell (dev_name ∷ [])) 4 dev_name pts_name (mount_node root_name none three)
      (in_root dev_name (pts_name ∷ []) (dev_name-IsPlain, (pts_name-IsPlain, tt)))
      (in_root dev_name ([]) (dev_name-IsPlain, tt)) (dev_name-IsPlain, (pts_name-IsPlain, tt))

-- a node is a number: the root of a superblock is its address, and each name leads to the next number
abbrev counting : Calls ℕ
counting = record { root_of = λ sb. sb; finddir_vfs = λ n s. some (suc n); open_vfs = λ n. pos 0 }

tty_name-IsPlain : IsPlain (codes "tty")
unfolding str_eq
tty_name-IsPlain = record {
  bytes = (omega arith, refl, (omega arith, refl, (omega arith, refl, tt)));
  some_byte = omega arith;
  ne_this = refl;
  ne_parent = refl;
}

abbrev first_of : List Str → Str
first_of [] = []
first_of (s ∷ names) = s

tty-IsDeepest : IsDeepest (dev_name ∷ []) (codes "tty" ∷ []) (mount_node root_name none three)
unfolding mounted find_child str_eq
tty-IsDeepest [] post e ne = absurd (ne refl)
tty-IsDeepest (p ∷ pre) post e ne = let same : codes "tty" ≡ p = ap first_of e in rw (sym same) refl

kopen-mounted_example :
    kopen counting
      (47 ∷ [])
      (spell (dev_name ∷ codes "tty" ∷ []))
      (some (mount_node root_name none three))
    ≡ some (open_names counting (codes "tty" ∷ []) (some 100))
kopen-mounted_example =
    kopen-mounted counting (47 ∷ []) (spell (dev_name ∷ codes "tty" ∷ [])) dev_name []
      (codes "tty" ∷ []) (mount_node root_name none three) 100
      (in_root dev_name (codes "tty" ∷ []) (dev_name-IsPlain, (tty_name-IsPlain, tt)))
      (dev_name-IsPlain, (tty_name-IsPlain, tt)) (unfold mounted find_child str_eq in refl)
      tty-IsDeepest

tty-NoneBelow : NoneBelow (codes "tty" ∷ []) (mount_node root_name none three)
unfolding mounted find_child str_eq
tty-NoneBelow [] post e ne = absurd (ne refl)
tty-NoneBelow (p ∷ pre) post e ne = let same : codes "tty" ≡ p = ap first_of e in rw (sym same) refl

kopen-unmounted_example :
    kopen counting (47 ∷ []) (spell (codes "tty" ∷ [])) (some (mount_node root_name none three))
    ≡ some (open_names counting ([] ∷ codes "tty" ∷ []) none)
kopen-unmounted_example =
    kopen-unmounted counting (47 ∷ []) (spell (codes "tty" ∷ [])) (codes "tty") []
      (mount_node root_name none three) (in_root (codes "tty") ([]) (tty_name-IsPlain, tt))
      (tty_name-IsPlain, tt) tty-NoneBelow
