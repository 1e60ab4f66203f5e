-- ===== src/Mutex/Bound.antt =====
-- Any number of tasks and one semaphore.
use dionysus.Prelude.{
  ℕ, ◌+◌, ◌-◌, ◌%◌, ◌^◌, ◌≤◌, ◌<◌, ◌≡◌, refl, Bool, List, ◌∷◌, ◌++◌, ltb, length, if◌then◌else◌,
  arith, Bool-cases, inl, inr,
}
use dionysus.Mutex.Points.{holders, is_inside, is_backing, count, count-at, length-at, two_counts}
use dionysus.Mutex.{
  Point, outside, testing, backing, asleep, inside, acquire_semaphore_test, acquire_semaphore_back,
  acquire_semaphore_woken, release_semaphore,
}

-- the count of the semaphore, and where each task is
pub record System : Type 0 where
  pub semaphore : ℕ
  pub points : List Point

abbrev with_task : List Point → Point × ℕ → List Point → System
with_task front r back = record { semaphore = r.1; points = front ++ r.0 ∷ back }

-- A step of the task between `front` and `back`.
pub data Step (max : ℕ) : System → System → Type 0 where
  enters :
      (n : ℕ) (front back : List Point)
      → Step max (with_task front (outside, n) back) (with_task front (testing, n) back)
  tests :
      (n : ℕ) (front back : List Point)
      → Step max
          (with_task front (testing, n) back)
          (with_task front (acquire_semaphore_test max n) back)
  backs :
      (n : ℕ) (front back : List Point)
      → Step max
          (with_task front (backing, n) back)
          (with_task front (acquire_semaphore_back n) back)
  wakes :
      (n : ℕ) (front back : List Point) (interrupted : Bool)
      → Step max
          (with_task front (asleep, n) back)
          (with_task front (acquire_semaphore_woken interrupted, n) back)
  leaves :
      (n : ℕ) (front back : List Point)
      → Step max (with_task front (inside, n) back) (with_task front (release_semaphore n) back)

pub data Reach (max : ℕ) (s : System) : System → Type 0 where
  here : Reach max s s
  next : {t u : System} → Reach max s t → Step max t u → Reach max s u

pub record IsValid (max : ℕ) (s : System) : Type 0 where
  pub counts : s.semaphore ≡ holders s.points + count is_backing s.points
  pub bound : holders s.points ≤ max
  pub few : length s.points < 2 ^ 32 - 1

-- a task counts if it is inside, or is about to take its count back
abbrev weight : Point → ℕ
weight p = (if is_inside p then 1 else 0) + (if is_backing p then 1 else 0)

-- one task moves, and the count with it
moves :
    {max : ℕ} (front back : List Point) (p q : Point) (n m : ℕ)
    → IsValid max (with_task front (p, n) back)
    → m + weight p ≡ n + weight q
    → holders front + holders back + (if is_inside q then 1 else 0) ≤ max
    → IsValid max (with_task front (q, m) back)
moves front back p q n m v changed room =
    let inside_before = count-at is_inside front back p in
    let inside_after = count-at is_inside front back q in
    let backing_before = count-at is_backing front back p in
    let backing_after = count-at is_backing front back q in
    record {
      counts =
          omega
            (arith, v.counts, changed, inside_before, inside_after, backing_before, backing_after);
      bound = omega (arith, room, inside_after);
      few = omega (arith, v.few, length-at front back p q);
    }

-- the others inside are not more than the bound
others :
    {max : ℕ} (front back : List Point) (p : Point) (n : ℕ)
    → IsValid max (with_task front (p, n) back)
    → holders front + holders back + (if is_inside p then 1 else 0) ≤ max
others front back p n v = omega (arith, v.bound, count-at is_inside front back p)

-- the count is at least the tasks that it counts, and at most all
counted :
    {max : ℕ} (front back : List Point) (p : Point) (n : ℕ)
    → IsValid max (with_task front (p, n) back)
    → (n < 2 ^ 32 - 1) × (holders front + holders back + weight p ≤ n)
counted front back p n v = (
  omega (arith, v.counts, v.few, two_counts (front ++ p ∷ back)),
  omega (arith, v.counts, count-at is_inside front back p, count-at is_backing front back p),
)

Step-IsValid : {max : ℕ} {s t : System} → Step max s t → IsValid max s → IsValid max t
unfolding acquire_semaphore_test acquire_semaphore_back acquire_semaphore_woken release_semaphore
Step-IsValid (enters n front back) v =
    moves front back outside testing n n v refl (others front back outside n v)
Step-IsValid {max} (tests n front back) v =
    let (small, sum) = counted front back testing n v in
    let up : (n + 1) % 2 ^ 32 ≡ n + 1 = omega arith in
    elim (Bool-cases (ltb max (n + 1))) [
      | inl full ↦
          rw (up, full)
            (moves front back testing backing n (n + 1) v (omega arith)
              (others front back testing n v))
      | inr room ↦
          rw (up, room)
            (moves front back testing inside n (n + 1) v (omega arith) (ground (arith, sum)))
    ]
Step-IsValid (backs n front back) v =
    let (small, sum) = counted front back backing n v in
    let down : (n + 2 ^ 32 - 1) % 2 ^ 32 ≡ n - 1 = omega arith in
    rw down (
      moves front back backing asleep n (n - 1) v (omega (arith, sum))
        (others front back backing n v))
Step-IsValid (wakes n front back i) v =
    moves front back asleep testing n n v refl (others front back asleep n v)
Step-IsValid (leaves n front back) v =
    let (small, sum) = counted front back inside n v in
    let down : (n + 2 ^ 32 - 1) % 2 ^ 32 ≡ n - 1 = omega arith in
    rw down (
      moves front back inside outside n (n - 1) v (omega (arith, sum))
        (omega (arith, others front back inside n v)))

Reach-IsValid : {max : ℕ} {s t : System} → IsValid max s → Reach max s t → IsValid max t
Reach-IsValid v here = v
Reach-IsValid v (next r step) = Step-IsValid step (Reach-IsValid v r)

-- Whatever fewer than 2^32 - 1 tasks do in whatever order, starting outside of a semaphore that counts
-- none, at most `max` are inside, and the count is those inside and those about to take it back, if no other
-- task comes between the load and the store of `sem->semaphore--`, which is one step here.
pub Reach-bound :
    {s t : System} (max : ℕ)
    → s.semaphore ≡ 0
    → holders s.points ≡ 0
    → count is_backing s.points ≡ 0
    → length s.points < 2 ^ 32 - 1
    → Reach max s t
    → (holders t.points ≤ max) × (t.semaphore ≡ holders t.points + count is_backing t.points)
Reach-bound {s} max free empty quiet few r =
    let start : IsValid max s = record {
      counts = omega (arith, free, empty, quiet);
      bound = omega (arith, empty);
      few = few;
    } in
    let v = Reach-IsValid start r in (v.bound, v.counts)
