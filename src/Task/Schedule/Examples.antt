-- ===== src/Task/Schedule/Examples.antt =====
-- The theorems about the scheduler with two tasks and the idle one, and tests.
use dionysus.Prelude.{
  ℕ, ◌≡◌, ◌≢◌, refl, Bool, true, false, none, [], ◌∷◌, ◌==◌, if◌then◌else◌, arith,
}
use dionysus.Prelude.Int.{pos}
use dionysus.Task.Schedule.{
  Task, Kernel, get_ready_task, requeued, switch_task, sleep_thread, wake_queue, schedule_tasklet,
}
use dionysus.Task.Schedule.Places.{Place, running, ready, sleeping, nowhere, IsValid}
use dionysus.Task.Schedule.Reach.{here, next, switch, sleep, wake, schedule, Reach-IsValid}
use dionysus.Task.Schedule.Free.{AreTasklets}
use dionysus.Task.Schedule.Turns.{turns, turns-current}

abbrev task : Bool → Task
task idle = record {
  is_idle = idle;
  asleep = false;
  interruptable = false;
  interrupted = false;
  wq = none;
  exit = pos 0;
  scheduled = false;
}

-- task 1 runs, tasks 2 and 3 are ready, task 4 sleeps in the queue 7, and task 0 is the idle one
abbrev kernel : Kernel
kernel = record {
  tasks = λ a. task (a == 0);
  current = 1;
  kidle = 0;
  run_queue = 2 ∷ 3 ∷ [];
  queues = λ q. if q == 7 then 4 ∷ [] else [];
}

abbrev kernel_place : ℕ → Place
kernel_place a =
    if a == 1
    then running
    else if a == 2
    then ready
    else if a == 3
    then ready
    else if a == 4
    then sleeping 7
    else nowhere

kernel-IsValid : IsValid kernel kernel_place
kernel-IsValid = record {
  runs = λ a. ground arith;
  is_ready = λ a. ground arith;
  sleeps = λ q a. ground arith;
  once = refl;
  once_each = λ q. ground arith;
  idle_ready = refl;
  idle_sleeps = λ q. ground arith;
  idle_pid = λ a. refl;
}

task_2_busy : (switch_task true kernel).current ≢ (switch_task true kernel).kidle
unfolding switch_task get_ready_task requeued
task_2_busy = ground arith

-- tasklet 5
abbrev is_tasklet : ℕ → Bool
is_tasklet a = a == 5

kernel-AreTasklets : AreTasklets is_tasklet kernel
kernel-AreTasklets = record {
  idle = refl;
  rest = λ t is off. record {
    stopped = ground arith;
    unready = ground arith;
    awake = λ q. ground arith;
    other = ground arith;
  };
}

-- The tasklet is scheduled twice.
Reach-IsValid_example :
    (after : ℕ → Place) × IsValid
      (schedule_tasklet true 5
        (schedule_tasklet true 5
          (wake_queue 7 (sleep_thread 7 true (switch_task true kernel)))).1).1
      after
    × AreTasklets is_tasklet
        (schedule_tasklet true 5
          (schedule_tasklet true 5
            (wake_queue 7 (sleep_thread 7 true (switch_task true kernel)))).1).1
Reach-IsValid_example = Reach-IsValid kernel-IsValid kernel-AreTasklets (
    next
      (next (next (next (next here (switch true)) (sleep 7 true task_2_busy)) (wake 7))
        (schedule true 5 refl))
      (schedule true 5 refl))

turns-current_example : (turns 2 kernel).current ≡ 3
turns-current_example = turns-current (2 ∷ []) [] 3 kernel refl
