-- ===== src/Mutex.antt =====
-- kernel/structures/mutex.c: mutexes and semaphores. A task that takes or gives back a lock is at one of
-- the points below, and an atomic operation is one step; `sem->semaphore--`, which is not atomic in the
-- code, is one step too. Wait queues are left out: a task that sleeps may be woken at any time.
pub mod Points
pub mod Exclusion
pub mod Bound
mod Examples
use dionysus.Prelude.{ℕ, suc, ◌+◌, ◌-◌, ◌%◌, ◌^◌, Bool, true, false, ltb, ◌==◌, if◌then◌else◌, not}

-- where a task is
pub data Point : Type 0 where
  outside : Point
  testing : Point  -- before the atomic operation
  backing : Point  -- before `sem->semaphore--`
  asleep : Point
  inside : Point

-- `__sync_lock_test_and_set(&mutex->mutex, 1) != 1`, and where the task goes on
pub acquire_mutex_test : (mutex : ℕ) → Point × ℕ
acquire_mutex_test mutex = (if not (mutex == 1) then inside else asleep, 1)

-- After a sleep `wait_event_interruptable` tests again, or ends if the sleep was interrupted.
pub acquire_mutex_woken : (interrupted : Bool) → Point
acquire_mutex_woken interrupted = if interrupted then inside else testing

-- `release_mutex` sets the word to 0.
pub release_mutex : (mutex : ℕ) → Point × ℕ
release_mutex mutex = (outside, 0)

-- `__sync_add_and_fetch(&sem->semaphore, 1) > sem->max`
pub acquire_semaphore_test : (max semaphore : ℕ) → Point × ℕ
acquire_semaphore_test max semaphore =
    let count = (semaphore + 1) % 2 ^ 32 in (if ltb max count then backing else inside, count)

-- `sem->semaphore--`, taken as one step. The source does not make it atomic: another task's change that comes
-- between its load and its store is lost.
pub acquire_semaphore_back : (semaphore : ℕ) → Point × ℕ
acquire_semaphore_back semaphore = (asleep, (semaphore + 2 ^ 32 - 1) % 2 ^ 32)

-- Interrupted or not, the task tests again.
pub acquire_semaphore_woken : (interrupted : Bool) → Point
acquire_semaphore_woken interrupted = testing

pub release_semaphore : (semaphore : ℕ) → Point × ℕ
release_semaphore semaphore = (outside, (semaphore + 2 ^ 32 - 1) % 2 ^ 32)
