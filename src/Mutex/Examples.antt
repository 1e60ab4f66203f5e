-- ===== src/Mutex/Examples.antt =====
-- The theorems about locks for two tasks.
use dionysus.Prelude.{◌+◌, ◌≤◌, ◌≡◌, refl, [], ◌∷◌, arith}
use dionysus.Mutex.{outside, testing, acquire_mutex_test}
use dionysus.Mutex.Points.{holders, count, is_backing}
use dionysus.Mutex.Exclusion
use dionysus.Mutex.Bound
use dionysus.Mutex.Exclusion.{Reach-exclusive}
use dionysus.Mutex.Bound.{Reach-bound}

abbrev free_mutex : Exclusion.System
free_mutex = record { word = 0; points = outside ∷ outside ∷ [] }

-- the first task has tested the free mutex
abbrev held_mutex : Exclusion.System
held_mutex = record {
  word = (acquire_mutex_test 0).1;
  points = (acquire_mutex_test 0).0 ∷ outside ∷ [];
}

held_mutex-Reach : Exclusion.Reach free_mutex held_mutex
held_mutex-Reach =
    Exclusion.Reach.next
      (Exclusion.Reach.next Exclusion.Reach.here (Exclusion.Step.enters 0 [] (outside ∷ [])))
      (Exclusion.Step.tests 0 [] (outside ∷ []))

Reach-exclusive_example :
    (held_mutex.word ≡ holders held_mutex.points) × (holders held_mutex.points ≤ 1)
Reach-exclusive_example = Reach-exclusive refl refl held_mutex-Reach

abbrev free_semaphore : Bound.System
free_semaphore = record { semaphore = 0; points = outside ∷ outside ∷ [] }

abbrev tested_semaphore : Bound.System
tested_semaphore = record { semaphore = 0; points = testing ∷ outside ∷ [] }

tested_semaphore-Reach : Bound.Reach 1 free_semaphore tested_semaphore
tested_semaphore-Reach = Bound.Reach.next Bound.Reach.here (Bound.Step.enters 0 [] (outside ∷ []))

Reach-bound_example :
    (holders tested_semaphore.points ≤ 1)
    × (tested_semaphore.semaphore
        ≡ holders tested_semaphore.points + count is_backing tested_semaphore.points)
Reach-bound_example = Reach-bound 1 refl refl refl (omega arith) tested_semaphore-Reach
