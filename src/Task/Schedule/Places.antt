-- ===== src/Task/Schedule/Places.antt =====
-- Every task is in one place: it runs, is ready, sleeps in one queue, or is nowhere.
use dionysus.Prelude.{
  ℕ, ◌≡◌, ◌≢◌, refl, Bool, true, false, not, ◌&&◌, ◌||◌, List, [], ◌∷◌, ◌++◌, ◌==◌, arith, ◌∙◌,
}
use mathlib.Core.Bool.{or_assoc}
use dionysus.Task.Schedule.{Task, Kernel, update}

pub data Place : Type 0 where
  running : Place
  ready : Place
  sleeping : ℕ → Place
  nowhere : Place

abbrev pub is_running : Place → Bool
is_running running = true
is_running _ = false

abbrev pub is_ready : Place → Bool
is_ready ready = true
is_ready _ = false

abbrev pub sleeps_in : ℕ → Place → Bool
sleeps_in q (sleeping p) = p == q
sleeps_in q _ = false

abbrev pub elem : ℕ → List ℕ → Bool
elem a [] = false
elem a (x ∷ xs) = (a == x) || elem a xs

abbrev pub distinct : List ℕ → Bool
distinct [] = true
distinct (x ∷ xs) = not (elem x xs) && distinct xs

pub elem-append : (a : ℕ) (xs ys : List ℕ) → elem a (xs ++ ys) ≡ (elem a xs || elem a ys)
elem-append a [] ys = refl
elem-append a (x ∷ xs) ys = rw (elem-append a xs ys, or_assoc)

pub distinct-snoc :
    (xs : List ℕ) (a : ℕ) → distinct xs ≡ true → elem a xs ≡ false → distinct (xs ++ a ∷ []) ≡ true
distinct-snoc [] a d out = refl
distinct-snoc (x ∷ xs) a d out = ground (arith, elem-append x xs (a ∷ []), distinct-snoc xs a)

-- The places are those that the queues say, and the tasks that `run` tells are running. The idle
-- task is in no queue.
pub record Placed (run : ℕ → Bool) (k : Kernel) (place : ℕ → Place) : Type 0 where
  pub runs : (a : ℕ) → is_running (place a) ≡ run a
  pub is_ready : (a : ℕ) → is_ready (place a) ≡ elem a k.run_queue
  pub sleeps : (q a : ℕ) → sleeps_in q (place a) ≡ elem a (k.queues q)
  pub once : distinct k.run_queue ≡ true
  pub once_each : (q : ℕ) → distinct (k.queues q) ≡ true
  pub idle_ready : elem k.kidle k.run_queue ≡ false
  pub idle_sleeps : (q : ℕ) → elem k.kidle (k.queues q) ≡ false
  pub idle_pid : (a : ℕ) → (k.tasks a).is_idle ≡ (a == k.kidle)

abbrev pub no_one : ℕ → Bool
no_one a = false

-- the state of the scheduler between two of its calls
abbrev pub IsValid : Kernel → (ℕ → Place) → Type 0
IsValid k place = Placed (λ a. a == k.current) k place

-- the fields that the places do not read may change
pub Placed-tasks :
    {run : ℕ → Bool} {k : Kernel} {place : ℕ → Place} (tasks : ℕ → Task)
    → Placed run k place
    → ((a : ℕ) → (tasks a).is_idle ≡ (k.tasks a).is_idle)
    → Placed run (record k { tasks = tasks }) place
Placed-tasks tasks p same = record {
  runs = p.runs;
  is_ready = p.is_ready;
  sleeps = p.sleeps;
  once = p.once;
  once_each = p.once_each;
  idle_ready = p.idle_ready;
  idle_sleeps = p.idle_sleeps;
  idle_pid = λ a. same a ∙ p.idle_pid a;
}

-- a task joins the end of the run queue
pub Placed-ready :
    {run : ℕ → Bool} {k : Kernel} {place : ℕ → Place} (t : ℕ)
    → Placed run k place
    → elem t k.run_queue ≡ false
    → ((q : ℕ) → elem t (k.queues q) ≡ false)
    → t ≢ k.kidle
    → Placed
        (λ a. not (a == t) && run a)
        (record k { run_queue = k.run_queue ++ t ∷ [] })
        (update place t ready)
unfolding update
Placed-ready {run} {k} {place} t p out awake ne = record {
  runs = λ a. ground (arith, p.runs a);
  is_ready = λ a. ground (arith, p.is_ready a, elem-append a k.run_queue (t ∷ []));
  sleeps = λ q a. ground (arith, p.sleeps q a, awake q);
  once = distinct-snoc k.run_queue t p.once out;
  once_each = p.once_each;
  idle_ready = ground (arith, p.idle_ready, elem-append k.kidle k.run_queue (t ∷ []));
  idle_sleeps = p.idle_sleeps;
  idle_pid = p.idle_pid;
}

-- a task joins the end of a wait queue
pub Placed-sleeping :
    {run : ℕ → Bool} {k : Kernel} {place : ℕ → Place} (q t : ℕ)
    → Placed run k place
    → elem t k.run_queue ≡ false
    → ((r : ℕ) → elem t (k.queues r) ≡ false)
    → t ≢ k.kidle
    → Placed
        (λ a. not (a == t) && run a)
        (record k { queues = update k.queues q (k.queues q ++ t ∷ []) })
        (update place t (sleeping q))
unfolding update
Placed-sleeping {run} {k} {place} q t p out awake ne = record {
  runs = λ a. ground (arith, p.runs a);
  is_ready = λ a. ground (arith, p.is_ready a, out);
  sleeps = λ r a. ground (arith, p.sleeps r a, awake r, elem-append a (k.queues q) (t ∷ []));
  once = p.once;
  once_each =
      λ r. ground (arith, p.once_each r, distinct-snoc (k.queues q) t (p.once_each q) (awake q));
  idle_ready = p.idle_ready;
  idle_sleeps = λ r. ground (arith, p.idle_sleeps r, elem-append k.kidle (k.queues q) (t ∷ []));
  idle_pid = p.idle_pid;
}

-- a running task stops
pub Placed-nowhere :
    {run : ℕ → Bool} {k : Kernel} {place : ℕ → Place} (t : ℕ)
    → Placed run k place
    → elem t k.run_queue ≡ false
    → ((r : ℕ) → elem t (k.queues r) ≡ false)
    → Placed (λ a. not (a == t) && run a) k (update place t nowhere)
unfolding update
Placed-nowhere {run} {k} {place} t p out awake = record {
  runs = λ a. ground (arith, p.runs a);
  is_ready = λ a. ground (arith, p.is_ready a, out);
  sleeps = λ r a. ground (arith, p.sleeps r a, awake r);
  once = p.once;
  once_each = p.once_each;
  idle_ready = p.idle_ready;
  idle_sleeps = p.idle_sleeps;
  idle_pid = p.idle_pid;
}
