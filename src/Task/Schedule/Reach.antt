-- ===== src/Task/Schedule/Reach.antt =====
-- What holds after any calls of the scheduler, in any order.
use dionysus.Prelude.{ℕ, ◌≡◌, ◌≢◌, refl, Bool, true, false, arith, ◌∙◌, Bool-cases, inl, inr}
use dionysus.Prelude.Int.{ℤ, pos}
use dionysus.Task.Schedule.{
  Task, Kernel, switch_task, sleep_thread, wake_queue, exit_task, start_task, schedule_tasklet,
  tasklet_finish,
}
use dionysus.Task.Schedule.Places.{
  Place, running, ready, sleeping, nowhere, is_running, is_ready, sleeps_in, IsValid,
}
use dionysus.Task.Schedule.Free.{
  IsFree, AreTasklets, switch_task-AreTasklets, sleep_thread-AreTasklets, wake_queue-AreTasklets,
  exit_task-AreTasklets, start_task-AreTasklets, scheduled-AreTasklets, tasklet_finish-AreTasklets,
}
use dionysus.Task.Schedule.Steps.{switch_task-IsValid, sleep_thread-IsValid, exit_task-IsValid}
use dionysus.Task.Schedule.Waking.{
  is_nowhere, wake_queue-IsValid, schedule_tasklet-IsValid, start_task-IsValid,
}

-- A call of the scheduler, where `is_tasklet` tells the addresses of the tasklets. The idle task does not sleep,
-- a new task is at a free address, which is not that of a tasklet, and is not another idle task. Any tasklet
-- may be scheduled at any time, whether or not it is scheduled already.
pub data Step (is_tasklet : ℕ → Bool) (k : Kernel) : Kernel → Type 0 where
  switch : (reschedule : Bool) → Step is_tasklet k (switch_task reschedule k)
  sleep : (q : ℕ) (i : Bool) → k.current ≢ k.kidle → Step is_tasklet k (sleep_thread q i k)
  wake : (q : ℕ) → Step is_tasklet k (wake_queue q k)
  exit : (status : ℤ) → Step is_tasklet k (exit_task status k)
  finish : Step is_tasklet k (tasklet_finish k)
  start :
      (t : ℕ) (task : Task)
      → IsFree k t
      → is_tasklet t ≡ false
      → task.is_idle ≡ false
      → Step is_tasklet k (start_task t task k)
  schedule :
      (alloc : Bool) (t : ℕ)
      → is_tasklet t ≡ true
      → Step is_tasklet k (schedule_tasklet alloc t k).1

pub data Reach (is_tasklet : ℕ → Bool) (s : Kernel) : Kernel → Type 0 where
  here : Reach is_tasklet s s
  next : {t u : Kernel} → Reach is_tasklet s t → Step is_tasklet t u → Reach is_tasklet s u

nowhere_of :
    (p : Place)
    → is_running p ≡ false
    → is_ready p ≡ false
    → ((q : ℕ) → sleeps_in q p ≡ false)
    → is_nowhere p ≡ true
nowhere_of running r y s = ground arith
nowhere_of ready r y s = ground arith
nowhere_of (sleeping q) r y s = ground (arith, s q)
nowhere_of nowhere r y s = refl

IsFree-nowhere :
    {k : Kernel} {place : ℕ → Place} {t : ℕ}
    → IsValid k place
    → IsFree k t
    → is_nowhere (place t) ≡ true
IsFree-nowhere {k} {place} {t} v f =
    nowhere_of (place t) (v.runs t ∙ f.stopped) (v.is_ready t ∙ f.unready)
      (λ q. v.sleeps q t ∙ f.awake q)

-- every task is in one place, and a tasklet that is not scheduled in none
record IsSound (is_tasklet : ℕ → Bool) (k : Kernel) : Type 0 where
  place : ℕ → Place
  placed : IsValid k place
  tasklets : AreTasklets is_tasklet k

module _ {is_tasklet : ℕ → Bool} {k : Kernel} (s : IsSound is_tasklet k) where
  schedule-IsSound :
      (alloc : Bool) (t : ℕ)
      → is_tasklet t ≡ true
      → IsSound is_tasklet (schedule_tasklet alloc t k).1
  unfolding schedule_tasklet
  schedule-IsSound alloc t is = elim (Bool-cases (k.tasks t).scheduled) [
    | inl on ↦ rw on s
    | inr off ↦
        let f = s.tasklets.rest t is off in
        let v = schedule_tasklet-IsValid t s.placed (IsFree-nowhere s.placed f) f.other off in
        rw off (elim (Bool-cases alloc) [
          | inl got ↦ rw got (record {
            place = _;
            placed = rw off at v.0;
            tasklets = scheduled-AreTasklets k s.tasklets t;
          })
          | inr failed ↦ rw failed s
        ])
  ]

  Step-IsSound : {u : Kernel} → Step is_tasklet k u → IsSound is_tasklet u
  Step-IsSound (switch r) = record {
    place = _;
    placed = switch_task-IsValid r s.placed;
    tasklets = switch_task-AreTasklets k s.tasklets r;
  }
  Step-IsSound (sleep q i busy) = record {
    place = _;
    placed = sleep_thread-IsValid q i s.placed busy;
    tasklets = sleep_thread-AreTasklets k s.tasklets q i;
  }
  Step-IsSound (wake q) = record {
    place = _;
    placed = wake_queue-IsValid q s.placed;
    tasklets = wake_queue-AreTasklets k s.tasklets q;
  }
  Step-IsSound (exit status) = record {
    place = _;
    placed = (exit_task-IsValid status s.placed).0;
    tasklets = exit_task-AreTasklets k s.tasklets status;
  }
  Step-IsSound finish = record {
    place = _;
    placed = (exit_task-IsValid (pos 0) s.placed).1;
    tasklets = tasklet_finish-AreTasklets k s.tasklets s.placed;
  }
  Step-IsSound (start t task f plain busy) = record {
    place = _;
    placed = start_task-IsValid t task s.placed (IsFree-nowhere s.placed f) f.other busy;
    tasklets = start_task-AreTasklets k s.tasklets t task plain;
  }
  Step-IsSound (schedule alloc t is) = schedule-IsSound alloc t is

Reach-IsSound :
    {is_tasklet : ℕ → Bool} {s k : Kernel}
    → IsSound is_tasklet s
    → Reach is_tasklet s k
    → IsSound is_tasklet k
Reach-IsSound v here = v
Reach-IsSound v (next r step) = Step-IsSound (Reach-IsSound v r) step

-- From a state in which every task is in one place, and a tasklet that is not scheduled in none, after any
-- calls of the scheduler every task is in one place: it runs, is ready once, sleeps once in one queue, or is
-- nowhere, and the idle task is in no queue; and a tasklet that is not scheduled is in no place. The idle task
-- does not sleep, and a new task is at a free address that is not a tasklet's; a tasklet may be scheduled
-- at any time, again and without memory as well.
pub Reach-IsValid :
    {is_tasklet : ℕ → Bool} {s k : Kernel} {place : ℕ → Place}
    → IsValid s place
    → AreTasklets is_tasklet s
    → Reach is_tasklet s k
    → (after : ℕ → Place) × IsValid k after × AreTasklets is_tasklet k
Reach-IsValid {place = place} v a r =
    let sound = Reach-IsSound (record { place = place; placed = v; tasklets = a }) r in
    (sound.place, sound.placed, sound.tasklets)
