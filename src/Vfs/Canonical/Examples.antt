-- ===== src/Vfs/Canonical/Examples.antt =====
-- The theorems about `canonicalize_path` at concrete paths, and tests.
use dionysus.Prelude.{◌≡◌, refl, [], arith}
use dionysus.Prelude.Str.{Str, str_eq, codes}
use dionysus.Vfs.Canonical.{canonical, dangling, canonicalize_path}
use dionysus.Vfs.Canonical.Tokens.{split, named}
use dionysus.Vfs.Canonical.Laws.{canonicalize_path-dangling}

abbrev cwd : Str
cwd = codes "/usr/lib"

abbrev up_and_down : Str
up_and_down = codes ".././bin//sh"

abbrev twice_up : Str
twice_up = codes "a/../.."

canonicalize_path-relative : canonicalize_path cwd up_and_down ≡ canonical (codes "/usr/bin/sh")
unfolding canonicalize_path str_eq
canonicalize_path-relative = refl

canonicalize_path-root : canonicalize_path cwd (codes "/..") ≡ dangling
unfolding canonicalize_path str_eq
canonicalize_path-root = refl

canonicalize_path-dangling_example : canonicalize_path cwd twice_up ≡ dangling
canonicalize_path-dangling_example =
    canonicalize_path-dangling cwd twice_up [] [] (codes "a") (omega arith) (omega arith)
      (unfold named split in refl) (unfold str_eq in refl) (unfold str_eq in refl)
