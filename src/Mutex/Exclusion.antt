-- ===== src/Mutex/Exclusion.antt =====
-- Any number of tasks and one mutex.
use dionysus.Prelude.{
  ℕ, ◌≤◌, ◌≡◌, false, List, ◌∷◌, ◌++◌, ◌==◌, arith, ◌∙◌, sym, Bool-cases, inl, inr,
}
use dionysus.Mutex.Points.{holders, is_inside, count-at}
use dionysus.Mutex.{
  Point, outside, testing, asleep, inside, acquire_mutex_test, acquire_mutex_woken, release_mutex,
}

-- the word of the mutex, and where each task is
pub record System : Type 0 where
  pub word : ℕ
  pub points : List Point

abbrev with_task : List Point → Point × ℕ → List Point → System
with_task front r back = record { word = r.1; points = front ++ r.0 ∷ back }

-- A step of the task between `front` and `back`. No sleep is interrupted.
pub data Step : System → System → Type 0 where
  enters :
      (word : ℕ) (front back : List Point)
      → Step (with_task front (outside, word) back) (with_task front (testing, word) back)
  tests :
      (word : ℕ) (front back : List Point)
      → Step (with_task front (testing, word) back) (with_task front (acquire_mutex_test word) back)
  wakes :
      (word : ℕ) (front back : List Point)
      → Step
          (with_task front (asleep, word) back)
          (with_task front (acquire_mutex_woken false, word) back)
  leaves :
      (word : ℕ) (front back : List Point)
      → Step (with_task front (inside, word) back) (with_task front (release_mutex word) back)

pub data Reach (s : System) : System → Type 0 where
  here : Reach s s
  next : {t u : System} → Reach s t → Step t u → Reach s u

-- The word is 1 while a task is inside, and 0 while none is.
pub record IsValid (s : System) : Type 0 where
  pub counts : s.word ≡ holders s.points
  pub small : s.word ≤ 1

Step-IsValid : {s t : System} → Step s t → IsValid s → IsValid t
unfolding acquire_mutex_test acquire_mutex_woken release_mutex
Step-IsValid (enters word front back) v = record {
  counts = omega (
    arith,
    v.counts,
    count-at is_inside front back outside,
    count-at is_inside front back testing,
  );
  small = v.small;
}
Step-IsValid (tests word front back) v = elim (Bool-cases (word == 1)) [
  | inl held ↦ rw held record {
    counts = ground (
      arith,
      v.counts,
      count-at is_inside front back testing,
      count-at is_inside front back asleep,
    );
    small = omega arith;
  }
  | inr free ↦ rw free record {
    counts = ground (
      arith,
      v.counts,
      v.small,
      count-at is_inside front back testing,
      count-at is_inside front back inside,
    );
    small = omega arith;
  }
]
Step-IsValid (wakes word front back) v = record {
  counts = omega (
    arith,
    v.counts,
    count-at is_inside front back asleep,
    count-at is_inside front back testing,
  );
  small = v.small;
}
Step-IsValid (leaves word front back) v = record {
  counts = omega (
    arith,
    v.counts,
    v.small,
    count-at is_inside front back inside,
    count-at is_inside front back outside,
  );
  small = omega arith;
}

Reach-IsValid : {s t : System} → IsValid s → Reach s t → IsValid t
Reach-IsValid v here = v
Reach-IsValid v (next r step) = Step-IsValid step (Reach-IsValid v r)

-- Whatever the tasks do in whatever order, the word of a mutex that was free is 1 while a task is
-- inside and 0 while none is, and so at most one task is inside, as long as no sleep is interrupted.
pub Reach-exclusive :
    {s t : System}
    → s.word ≡ 0
    → holders s.points ≡ 0
    → Reach s t
    → (t.word ≡ holders t.points) × (holders t.points ≤ 1)
Reach-exclusive free empty r =
    let start : IsValid _ = record { counts = free ∙ sym empty; small = omega (arith, free) } in
    let v = Reach-IsValid start r in (v.counts, omega (arith, v.counts, v.small))
