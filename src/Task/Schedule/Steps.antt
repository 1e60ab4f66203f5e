-- ===== src/Task/Schedule/Steps.antt =====
-- Every call of the scheduler keeps each task in one place.
use dionysus.Prelude.{
  ℕ, ◌≡◌, ◌≢◌, refl, Bool, true, false, not, ◌&&◌, List, [], ◌∷◌, ◌++◌, ◌==◌, if◌then◌else◌, arith,
  Bool-cases, inl, inr, ◌∙◌, sym, ap,
}
use dionysus.Prelude.Int.{ℤ}
use dionysus.Task.Schedule.{
  Task, Kernel, update, get_ready_task, requeued, switch_task, sleep_thread, exit_task,
  tasklet_finish,
}
use dionysus.Task.Schedule.Places.{
  Place, running, ready, sleeping, nowhere, is_running, is_ready, sleeps_in, elem, distinct, Placed,
  no_one, IsValid, Placed-tasks, Placed-ready, Placed-sleeping, Placed-nowhere,
}

-- the next task and the queue without it
abbrev pub dispatched : Kernel → List ℕ → Kernel
dispatched k queue =
    let (next, rest) = get_ready_task k.kidle queue in record k { current = next; run_queue = rest }

ready_awake : (q : ℕ) (p : Place) → is_ready p ≡ true → sleeps_in q p ≡ false
ready_awake q ready h = refl
ready_awake q running h = refl
ready_awake q (sleeping r) h = ground arith
ready_awake q nowhere h = refl

dispatched-IsValid :
    (k : Kernel) (place : ℕ → Place) (queue : List ℕ)
    → k.run_queue ≡ queue
    → Placed no_one k place
    → IsValid (dispatched k queue) (update place (dispatched k queue).current running)
unfolding update get_ready_task
dispatched-IsValid k place [] e p = record {
  runs = λ a. ground (arith, p.runs a);
  is_ready = λ a. ground (arith, p.is_ready a, e, p.idle_ready);
  sleeps = λ q a. ground (arith, p.sleeps q a, p.idle_sleeps q);
  once = refl;
  once_each = p.once_each;
  idle_ready = refl;
  idle_sleeps = p.idle_sleeps;
  idle_pid = p.idle_pid;
}
dispatched-IsValid k place (t ∷ queue) e p =
    let in_queue : (a : ℕ) → is_ready (place a) ≡ elem a (t ∷ queue) = λ a. p.is_ready a ∙ rw e in
    let once : distinct (t ∷ queue) ≡ true = ap distinct (sym e) ∙ p.once in
    let idle : elem k.kidle (t ∷ queue) ≡ false = ap (elem k.kidle) (sym e) ∙ p.idle_ready in
    record {
      runs = λ a. ground (arith, p.runs a);
      is_ready = λ a. ground (arith, in_queue a, once);
      sleeps = λ q a. ground (arith, p.sleeps q a, in_queue t, ready_awake q (place t));
      once = ground (arith, once);
      once_each = p.once_each;
      idle_ready = ground (arith, idle);
      idle_sleeps = p.idle_sleeps;
      idle_pid = p.idle_pid;
    }

running_apart :
    (p : Place) → is_running p ≡ true → (is_ready p ≡ false) × ((q : ℕ) → sleeps_in q p ≡ false)
running_apart running h = (refl, λ q. refl)
running_apart ready h = ground arith
running_apart (sleeping r) h = ground arith
running_apart nowhere h = ground arith

module _ {k : Kernel} {place : ℕ → Place} (v : IsValid k place) where
  current_runs : is_running (place k.current) ≡ true
  current_runs = ground (arith, v.runs k.current)

  pub current_unready : elem k.current k.run_queue ≡ false
  current_unready = sym (v.is_ready k.current) ∙ (running_apart (place k.current) current_runs).0

  pub current_awake : (q : ℕ) → elem k.current (k.queues q) ≡ false
  current_awake q = sym (v.sleeps q k.current) ∙ (running_apart (place k.current) current_runs).1 q

  -- only the current task ran
  stopped : (a : ℕ) → (not (a == k.current) && (a == k.current)) ≡ false
  stopped a = ground arith

pub Placed-run :
    {run stop : ℕ → Bool} {k : Kernel} {place : ℕ → Place}
    → ((a : ℕ) → run a ≡ stop a)
    → Placed run k place
    → Placed stop k place
Placed-run same p = record {
  runs = λ a. p.runs a ∙ same a;
  is_ready = p.is_ready;
  sleeps = p.sleeps;
  once = p.once;
  once_each = p.once_each;
  idle_ready = p.idle_ready;
  idle_sleeps = p.idle_sleeps;
  idle_pid = p.idle_pid;
}

-- where a task goes that gives up the processor
abbrev pub left_to : (reschedule : Bool) → Kernel → Place
left_to reschedule k = if reschedule && not (k.current == k.kidle) then ready else nowhere

requeued_ready :
    {k : Kernel} {place : ℕ → Place}
    → IsValid k place
    → k.current == k.kidle ≡ false
    → requeued true k ≡ k.run_queue ++ k.current ∷ []
unfolding requeued
requeued_ready {k} v other =
    let pid : (k.tasks k.current).is_idle ≡ false = v.idle_pid k.current ∙ other in rw pid

requeued_nowhere :
    {k : Kernel} {place : ℕ → Place}
    → IsValid k place
    → k.current == k.kidle ≡ true
    → requeued true k ≡ k.run_queue
unfolding requeued
requeued_nowhere {k} v same =
    let pid : (k.tasks k.current).is_idle ≡ true = v.idle_pid k.current ∙ same in rw pid

vacated :
    (reschedule : Bool) {k : Kernel} {place : ℕ → Place}
    → IsValid k place
    → Placed no_one
        (record k { run_queue = requeued reschedule k })
        (update place k.current (left_to reschedule k))
unfolding requeued
vacated false {k} v =
    Placed-run (stopped v) (Placed-nowhere k.current v (current_unready v) (current_awake v))
vacated true {k} {place} v = elim (Bool-cases (k.current == k.kidle)) [
  | inl same ↦
      rw (same, requeued_nowhere v same)
        (Placed-run (stopped v) (Placed-nowhere k.current v (current_unready v) (current_awake v)))
  | inr other ↦
      rw (other, requeued_ready v other)
        (Placed-run (stopped v)
          (Placed-ready k.current v (current_unready v) (current_awake v) (ground arith)))
]

-- `switch_task` keeps every task in one place: the task that gives up the processor is ready if it is
-- to be run again and is not the idle task, and else is nowhere; the new current task runs.
pub switch_task-IsValid :
    (reschedule : Bool) {k : Kernel} {place : ℕ → Place}
    → IsValid k place
    → IsValid (switch_task reschedule k) (
        update
          (update place k.current (left_to reschedule k))
          (switch_task reschedule k).current
          running)
unfolding switch_task
switch_task-IsValid reschedule {k} v =
    dispatched-IsValid (record k { run_queue = requeued reschedule k }) _ (requeued reschedule k)
      refl (vacated reschedule v)

-- a change of a task that leaves its pid
pub same_pid :
    (k : Kernel) (t : ℕ) (task : Task)
    → task.is_idle ≡ (k.tasks t).is_idle
    → (a : ℕ) → (update k.tasks t task a).is_idle ≡ (k.tasks a).is_idle
unfolding update
same_pid k t task e a = ground (arith, e)

-- A task other than the idle one that goes to sleep is then in that queue, and nowhere else.
pub sleep_thread-IsValid :
    (q : ℕ) (interruptable : Bool) {k : Kernel} {place : ℕ → Place}
    → IsValid k place
    → k.current ≢ k.kidle
    → IsValid (sleep_thread q interruptable k) (
        update
          (update place k.current (sleeping q))
          (sleep_thread q interruptable k).current
          running)
unfolding sleep_thread switch_task requeued
sleep_thread-IsValid q interruptable {k} v busy = dispatched-IsValid _ _ k.run_queue refl (
    Placed-tasks _
      (Placed-run (stopped v)
        (Placed-sleeping q k.current v (current_unready v) (current_awake v) busy))
      (same_pid k k.current _ refl))

-- `exit_task` and the end of a tasklet leave the current task nowhere.
pub exit_task-IsValid :
    (status : ℤ) {k : Kernel} {place : ℕ → Place}
    → IsValid k place
    → IsValid
        (exit_task status k)
        (update (update place k.current nowhere) (exit_task status k).current running)
      × IsValid
          (tasklet_finish k)
          (update (update place k.current nowhere) (tasklet_finish k).current running)
unfolding exit_task tasklet_finish switch_task requeued
exit_task-IsValid status {k} v =
    let left =
      Placed-run (stopped v) (Placed-nowhere k.current v (current_unready v) (current_awake v)) in
    (
      dispatched-IsValid _ _ k.run_queue refl (Placed-tasks _ left (same_pid k k.current _ refl)),
      dispatched-IsValid _ _ k.run_queue refl (Placed-tasks _ left (same_pid k k.current _ refl)),
    )
