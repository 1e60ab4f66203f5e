-- ===== src/Fileops/Parent/Examples.antt =====
-- The paths "dev/tty" and "tty".
use dionysus.Prelude.{◌≡◌, ◌∷◌, ◌++◌, arith}
use dionysus.Prelude.Str.{codes}
use dionysus.Fileops.Parent.{opens, getparent}
use dionysus.Fileops.Parent.Laws.{HasNone, getparent-append}

tty-HasNone : HasNone (codes "tty")
tty-HasNone =
    ((λ h. absurd (omega arith)), ((λ h. absurd (omega arith)), ((λ h. absurd (omega arith)), tt)))

getparent-append_example :
    getparent (100 ∷ codes "ev" ++ 47 ∷ codes "tty") ≡ opens (100 ∷ codes "ev") (codes "tty")
getparent-append_example = getparent-append 100 (codes "ev") (codes "tty") tty-HasNone (omega arith)
