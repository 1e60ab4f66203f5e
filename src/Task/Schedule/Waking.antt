-- ===== src/Task/Schedule/Waking.antt =====
-- Waking tasks, and what holds after any calls of the scheduler.
use dionysus.Prelude.{
  ℕ, ◌≡◌, ◌≢◌, refl, Bool, true, false, none, List, [], ◌∷◌, ◌++◌, ◌==◌, if◌then◌else◌, arith,
  Bool-cases, inl, inr, ◌∙◌, sym, ap,
}
use dionysus.Prelude.Int.{pos}
use dionysus.Task.Schedule.{
  Task, Kernel, update, wake_loop, wake_queue, start_task, schedule_tasklet,
}
use dionysus.Task.Schedule.Places.{
  Place, running, ready, sleeping, nowhere, is_running, is_ready, sleeps_in, elem, distinct, Placed,
  IsValid, Placed-tasks, Placed-ready,
}
use dionysus.Task.Schedule.Steps.{same_pid, Placed-run}

abbrev pub is_nowhere : Place → Bool
is_nowhere nowhere = true
is_nowhere _ = false

nowhere_apart :
    (p : Place)
    → is_nowhere p ≡ true
    → (is_running p ≡ false) × (is_ready p ≡ false) × ((q : ℕ) → sleeps_in q p ≡ false)
nowhere_apart nowhere h = (refl, refl, λ q. refl)
nowhere_apart running h = ground arith
nowhere_apart ready h = ground arith
nowhere_apart (sleeping r) h = ground arith

-- a task that was nowhere is made ready
joins :
    {run : ℕ → Bool} {k : Kernel} {place : ℕ → Place} (t : ℕ)
    → Placed run k place
    → is_nowhere (place t) ≡ true
    → t ≢ k.kidle
    → Placed run (record k { run_queue = k.run_queue ++ t ∷ [] }) (update place t ready)
joins {run} {k} {place} t p away ne =
    let (still, unready, awake) = nowhere_apart (place t) away in
    let stop : run t ≡ false = sym (p.runs t) ∙ still in
    Placed-run (λ a. ground (arith, stop))
      (Placed-ready t p (sym (p.is_ready t) ∙ unready) (λ q. sym (p.sleeps q t) ∙ awake q) ne)

-- `schedule_tasklet` of a tasklet that is nowhere makes it ready, once; without memory for the node, or
-- if it is scheduled, nothing changes. A new task of `fork` is ready.
pub schedule_tasklet-IsValid :
    (t : ℕ) {k : Kernel} {place : ℕ → Place}
    → IsValid k place
    → is_nowhere (place t) ≡ true
    → t ≢ k.kidle
    → (k.tasks t).scheduled ≡ false
    → IsValid (schedule_tasklet true t k).1 (update place t ready)
      × (schedule_tasklet true t (schedule_tasklet true t k).1
          ≡ (pos 0, (schedule_tasklet true t k).1))
unfolding schedule_tasklet update
schedule_tasklet-IsValid t {k} v away ne fresh =
    let self : t == t ≡ true = ground arith in
    (rw fresh (Placed-tasks _ (joins t v away ne) (same_pid k t _ refl)), rw (fresh, self))

pub start_task-IsValid :
    (t : ℕ) (task : Task) {k : Kernel} {place : ℕ → Place}
    → IsValid k place
    → is_nowhere (place t) ≡ true
    → t ≢ k.kidle
    → task.is_idle ≡ false
    → IsValid (start_task t task k) (update place t ready)
unfolding start_task
start_task-IsValid t task {k} v away ne busy =
    let other : t == k.kidle ≡ false = ground arith in
    Placed-tasks _ (joins t v away ne) (same_pid k t task (busy ∙ sym (v.idle_pid t ∙ other)))

-- the places with equal ones in their stead
Placed-place :
    {run : ℕ → Bool} {k : Kernel} {place other : ℕ → Place}
    → ((a : ℕ) → place a ≡ other a)
    → Placed run k place
    → Placed run k other
Placed-place same p = record {
  runs = λ a. ap is_running (sym (same a)) ∙ p.runs a;
  is_ready = λ a. ap is_ready (sym (same a)) ∙ p.is_ready a;
  sleeps = λ q a. ap (sleeps_in q) (sym (same a)) ∙ p.sleeps q a;
  once = p.once;
  once_each = p.once_each;
  idle_ready = p.idle_ready;
  idle_sleeps = p.idle_sleeps;
  idle_pid = p.idle_pid;
}

-- the places after `ts` are woken
abbrev pub woken : List ℕ → (ℕ → Place) → ℕ → Place
woken ts place a = if elem a ts then ready else place a

wake_loop-Placed :
    (ts : List ℕ) {run : ℕ → Bool} {k : Kernel} {place : ℕ → Place}
    → Placed run k place
    → distinct ts ≡ true
    → ((a : ℕ) → elem a ts ≡ true → is_nowhere (place a) ≡ true)
    → elem k.kidle ts ≡ false
    → Placed run (wake_loop ts k) (woken ts place)
unfolding wake_loop
wake_loop-Placed [] p once away busy = p
wake_loop-Placed (t ∷ ts) {run} {k} {place} p once away busy =
    let ne : t ≢ k.kidle = ground arith in
    let step =
      Placed-tasks _ (joins t p (away t (ground arith)) ne)
        (same_pid k t (record (k.tasks t) { asleep = false; wq = none }) refl) in
    Placed-place {place = woken ts (update place t ready)} (λ a. unfold update in ground arith)
      (wake_loop-Placed ts step (ground arith) (λ a i. unfold update in ground (arith, away a))
        (ground arith))

-- the queue is emptied: its tasks are nowhere
abbrev pub emptied : List ℕ → (ℕ → Place) → ℕ → Place
emptied ts place a = if elem a ts then nowhere else place a

sleeper_apart :
    (q : ℕ) (p : Place)
    → sleeps_in q p ≡ true
    → (is_running p ≡ false) × (is_ready p ≡ false) × ((r : ℕ) → sleeps_in r p ≡ (q == r))
sleeper_apart q (sleeping r) h = (refl, refl, λ s. ground arith)
sleeper_apart q running h = ground arith
sleeper_apart q ready h = ground arith
sleeper_apart q nowhere h = ground arith

asleep_at :
    (q : ℕ) {run : ℕ → Bool} {k : Kernel} {place : ℕ → Place}
    → Placed run k place
    → (a : ℕ) → elem a (k.queues q) ≡ true
    → (is_running (place a) ≡ false)
      × (is_ready (place a) ≡ false)
      × ((r : ℕ) → sleeps_in r (place a) ≡ (q == r))
asleep_at q {run} {k} {place} p a i = sleeper_apart q (place a) (p.sleeps q a ∙ i)

Placed-emptied :
    (q : ℕ) {run : ℕ → Bool} {k : Kernel} {place : ℕ → Place}
    → Placed run k place
    → Placed run (record k { queues = update k.queues q [] }) (emptied (k.queues q) place)
unfolding update
Placed-emptied q {run} {k} {place} p = record {
  runs = λ a. elim (Bool-cases (elem a (k.queues q))) [
    | inl i ↦ rw i (sym (asleep_at q p a i).0 ∙ p.runs a)
    | inr out ↦ rw out (p.runs a)
  ];
  is_ready = λ a. elim (Bool-cases (elem a (k.queues q))) [
    | inl i ↦ rw i (sym (asleep_at q p a i).1 ∙ p.is_ready a)
    | inr out ↦ rw out (p.is_ready a)
  ];
  sleeps = λ r a. elim (Bool-cases (elem a (k.queues q))) [
    | inl i ↦ rw i (ground (arith, (asleep_at q p a i).2 r, p.sleeps r a))
    | inr out ↦ rw out (ground (arith, out, p.sleeps r a))
  ];
  once = p.once;
  once_each = λ r. ground (arith, p.once_each r);
  idle_ready = p.idle_ready;
  idle_sleeps = λ r. ground (arith, p.idle_sleeps r);
  idle_pid = p.idle_pid;
}

wake_loop-current : (ts : List ℕ) (k : Kernel) → (wake_loop ts k).current ≡ k.current
unfolding wake_loop
wake_loop-current [] k = refl
wake_loop-current (t ∷ ts) k = wake_loop-current ts _

-- `wake_queue` makes every task of the queue ready, and no other task changes its place.
pub wake_queue-IsValid :
    (q : ℕ) {k : Kernel} {place : ℕ → Place}
    → IsValid k place
    → IsValid (wake_queue q k) (woken (k.queues q) (emptied (k.queues q) place))
unfolding wake_queue
wake_queue-IsValid q {k} v =
    rw (wake_loop-current (k.queues q) (record k { queues = update k.queues q [] })) (
      wake_loop-Placed (k.queues q) (Placed-emptied q v) (v.once_each q) (λ a i. rw i refl)
        (v.idle_sleeps q))
