-- ===== src/Mutex/Points.antt =====
-- How many tasks are at points of a kind.
use dionysus.Prelude.{
  ℕ, ◌+◌, ◌≤◌, ◌≡◌, refl, Bool, true, false, List, [], ◌∷◌, ◌++◌, if◌then◌else◌, length, arith,
}
use dionysus.Mutex.{Point, backing, inside}

abbrev pub is_inside : Point → Bool
is_inside inside = true
is_inside _ = false

abbrev pub is_backing : Point → Bool
is_backing backing = true
is_backing _ = false

abbrev pub count : (Point → Bool) → List Point → ℕ
count f [] = 0
count f (p ∷ ps) = (if f p then 1 else 0) + count f ps

abbrev pub holders : List Point → ℕ
holders = count is_inside

pub count-append :
    (f : Point → Bool) (front back : List Point)
    → count f (front ++ back) ≡ count f front + count f back
count-append f [] back = omega arith
count-append f (p ∷ front) back = omega (arith, count-append f front back)

-- one task is at a point of the kind, or not, beside the others
pub count-at :
    (f : Point → Bool) (front back : List Point) (p : Point)
    → count f (front ++ p ∷ back) ≡ count f front + count f back + (if f p then 1 else 0)
count-at f front back p = omega (arith, count-append f front (p ∷ back))

pub length-at :
    (front back : List Point) (p q : Point)
    → length (front ++ p ∷ back) ≡ length (front ++ q ∷ back)
length-at [] back p q = refl
length-at (r ∷ front) back p q = omega (arith, length-at front back p q)

-- a task is not at both kinds of point
pub two_counts : (ps : List Point) → count is_inside ps + count is_backing ps ≤ length ps
two_counts [] = omega arith
two_counts (p ∷ ps) = ground (arith, two_counts ps)
