-- ===== src/Block/Devices/Ends.antt =====
-- A driver's devices in the order of their minors.
use dionysus.Prelude.{
  ℕ, zero, suc, ◌+◌, ◌%◌, ◌^◌, ◌≤◌, ◌<◌, ◌≡◌, refl, ◌∙◌, true, false, some, List, [], ◌∷◌, ◌++◌,
  ltb, arith, get_elem?,
}
use dionysus.Block.Devices.{BlkDev, Part, find_dev, has_part, if_has_part, get_blkdev}

-- the end of a device's minors
abbrev pub top : BlkDev → ℕ
top d = d.minor + d.max_part

-- all devices end before a minor
abbrev pub EndBefore : ℕ → List BlkDev → Type 0
EndBefore n [] = Unit
EndBefore n (d ∷ ds) = (top d ≤ n) × EndBefore n ds

has_part-get_elem? :
    (ps : List Part) (i : ℕ) (p : Part) → get_elem? ps i ≡ some p → has_part p.minor ps ≡ true
unfolding has_part
has_part-get_elem? [] i p e = ground arith
has_part-get_elem? (q ∷ ps) zero p e = let same : q ≡ p = ground arith in rw same (ground arith)
has_part-get_elem? (q ∷ ps) (suc i) p e = let h = has_part-get_elem? ps i p e in rw h (ground arith)

find_dev-skip :
    (d : BlkDev) (ds : List BlkDev) (e : BlkDev) (minor : ℕ)
    → top d ≤ minor
    → minor < 2 ^ 32
    → find_dev minor (d ∷ e ∷ ds) ≡ find_dev minor (e ∷ ds)
unfolding find_dev
find_dev-skip d ds e minor h k =
    let n : ltb minor (top d % 2 ^ 32) ≡ false = ground arith in rw n refl

find_dev-last :
    (dev : BlkDev) (devs : List BlkDev) (minor : ℕ)
    → EndBefore minor devs
    → minor < 2 ^ 32
    → find_dev minor (devs ++ dev ∷ []) ≡ some dev
unfolding find_dev
find_dev-last dev [] minor below k = refl
find_dev-last dev (d ∷ []) minor (h, below) k = find_dev-skip d [] dev minor h k
find_dev-last dev (d ∷ e ∷ devs) minor (h, below) k =
    find_dev-skip d (devs ++ dev ∷ []) e minor h k ∙ find_dev-last dev (e ∷ devs) minor below k

EndBefore-le : (m n : ℕ) (ds : List BlkDev) → EndBefore m ds → m ≤ n → EndBefore n ds
EndBefore-le m n [] below h = below
EndBefore-le m n (d ∷ ds) (k, below) h = (omega arith, EndBefore-le m n ds below h)

pub get_blkdev-last :
    (dev : BlkDev) (devs : List BlkDev) (i : ℕ) (p : Part)
    → p.minor < 2 ^ 32
    → EndBefore dev.minor devs
    → get_elem? dev.partitions i ≡ some p
    → dev.minor ≤ p.minor
    → get_blkdev (some (devs ++ dev ∷ [])) p.minor ≡ some dev
unfolding get_blkdev if_has_part
get_blkdev-last dev devs i p small below at low =
    let found =
      find_dev-last dev devs p.minor (EndBefore-le dev.minor p.minor devs below low) small in
    rw (found, has_part-get_elem? dev.partitions i p at) refl
