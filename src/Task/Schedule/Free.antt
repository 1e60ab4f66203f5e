-- ===== src/Task/Schedule/Free.antt =====
-- The addresses under which no task runs, is ready or sleeps, and the tasklets that are not scheduled.
use dionysus.Prelude.{
  ℕ, ◌≡◌, ◌≢◌, refl, Bool, true, false, List, [], ◌∷◌, ◌++◌, ◌==◌, arith, Bool-cases, inl, inr, sym,
  ◌∙◌,
}
use dionysus.Prelude.Int.{ℤ}
use dionysus.Task.Schedule.{
  Task, Kernel, update, get_ready_task, requeued, switch_task, sleep_thread, wake_loop, wake_queue,
  exit_task, start_task, tasklet_finish,
}
use dionysus.Task.Schedule.Places.{Place, elem, elem-append, IsValid}
use dionysus.Task.Schedule.Steps.{dispatched, current_unready, current_awake}

-- no task runs, is ready or sleeps under the address
pub record IsFree (k : Kernel) (t : ℕ) : Type 0 where
  pub stopped : t == k.current ≡ false
  pub unready : elem t k.run_queue ≡ false
  pub awake : (q : ℕ) → elem t (k.queues q) ≡ false
  pub other : t ≢ k.kidle

dispatched-IsFree :
    (k : Kernel) (tasks : ℕ → Task) (queues : ℕ → List ℕ) (t : ℕ) (queue : List ℕ)
    → elem t queue ≡ false
    → ((q : ℕ) → elem t (queues q) ≡ false)
    → t ≢ k.kidle
    → IsFree (dispatched (record k { tasks = tasks; queues = queues }) queue) t
unfolding get_ready_task
dispatched-IsFree k tasks queues t [] out awake ne = record {
  stopped = ground arith;
  unready = refl;
  awake = awake;
  other = ne;
}
dispatched-IsFree k tasks queues t (x ∷ queue) out awake ne = record {
  stopped = ground arith;
  unready = ground arith;
  awake = awake;
  other = ne;
}

requeued-free : (r : Bool) (k : Kernel) (t : ℕ) → IsFree k t → elem t (requeued r k) ≡ false
unfolding requeued
requeued-free r k t f =
    ground (arith, f.stopped, f.unready, elem-append t k.run_queue (k.current ∷ []))

switch_task-IsFree : (r : Bool) (k : Kernel) (t : ℕ) → IsFree k t → IsFree (switch_task r k) t
unfolding switch_task
switch_task-IsFree r k t f =
    dispatched-IsFree k _ _ t (requeued r k) (requeued-free r k t f) f.awake f.other

sleep_thread-IsFree :
    (q : ℕ) (i : Bool) (k : Kernel) (t : ℕ) → IsFree k t → IsFree (sleep_thread q i k) t
unfolding sleep_thread switch_task requeued update
sleep_thread-IsFree q i k t f =
    dispatched-IsFree k _ _ t k.run_queue f.unready
      (λ r.
        ground
          (arith, f.awake r, f.awake q, f.stopped, elem-append t (k.queues q) (k.current ∷ [])))
      f.other

wake_loop-IsFree :
    (ts : List ℕ) (k : Kernel) (t : ℕ) → elem t ts ≡ false → IsFree k t → IsFree (wake_loop ts k) t
unfolding wake_loop
wake_loop-IsFree [] k t out f = f
wake_loop-IsFree (x ∷ ts) k t out f = wake_loop-IsFree ts _ t (ground arith) record {
  stopped = f.stopped;
  unready = ground (arith, f.unready, elem-append t k.run_queue (x ∷ []));
  awake = f.awake;
  other = f.other;
}

wake_queue-IsFree : (q : ℕ) (k : Kernel) (t : ℕ) → IsFree k t → IsFree (wake_queue q k) t
unfolding wake_queue update
wake_queue-IsFree q k t f = wake_loop-IsFree (k.queues q) _ t (f.awake q) record {
  stopped = f.stopped;
  unready = f.unready;
  awake = λ r. ground (arith, f.awake r);
  other = f.other;
}

-- a task other than the one that joins the run queue
joined-IsFree :
    (k : Kernel) (tasks : ℕ → Task) (x t : ℕ)
    → t == x ≡ false
    → IsFree k t
    → IsFree (record k { tasks = tasks; run_queue = k.run_queue ++ x ∷ [] }) t
joined-IsFree k tasks x t ne f = record {
  stopped = f.stopped;
  unready = ground (arith, f.unready, elem-append t k.run_queue (x ∷ []));
  awake = f.awake;
  other = f.other;
}

wake_loop-scheduled :
    (ts : List ℕ) (k : Kernel) (a : ℕ)
    → ((wake_loop ts k).tasks a).scheduled ≡ (k.tasks a).scheduled
unfolding wake_loop update
wake_loop-scheduled [] k a = refl
wake_loop-scheduled (t ∷ ts) k a = wake_loop-scheduled ts _ a ∙ elim (Bool-cases (a == t)) [
  | inl e ↦ let same : a ≡ t = ground arith in rw (e, same)
  | inr e ↦ rw e
]

wake_loop-kidle : (ts : List ℕ) (k : Kernel) → (wake_loop ts k).kidle ≡ k.kidle
unfolding wake_loop
wake_loop-kidle [] k = refl
wake_loop-kidle (t ∷ ts) k = wake_loop-kidle ts _

-- The addresses of tasklets, none of which is the idle task: a tasklet that is not scheduled has no place.
pub record AreTasklets (is_tasklet : ℕ → Bool) (k : Kernel) : Type 0 where
  pub idle : is_tasklet k.kidle ≡ false
  pub rest : (t : ℕ) → is_tasklet t ≡ true → (k.tasks t).scheduled ≡ false → IsFree k t

module _ {is_tasklet : ℕ → Bool} (k : Kernel) (a : AreTasklets is_tasklet k) where
  pub switch_task-AreTasklets : (r : Bool) → AreTasklets is_tasklet (switch_task r k)
  unfolding switch_task
  switch_task-AreTasklets r = record {
    idle = a.idle;
    rest = λ t is off. switch_task-IsFree r k t (a.rest t is off);
  }

  pub sleep_thread-AreTasklets : (q : ℕ) (i : Bool) → AreTasklets is_tasklet (sleep_thread q i k)
  unfolding sleep_thread switch_task
  sleep_thread-AreTasklets q i = record {
    idle = a.idle;
    rest = λ t is off.
        sleep_thread-IsFree q i k t (a.rest t is (unfold update in ground (arith, off)));
  }

  pub wake_queue-AreTasklets : (q : ℕ) → AreTasklets is_tasklet (wake_queue q k)
  unfolding wake_queue
  wake_queue-AreTasklets q = record {
    idle = rw (wake_loop-kidle (k.queues q) (record k { queues = update k.queues q [] })) a.idle;
    rest = λ t is off. wake_queue-IsFree q k t (
        a.rest t is (
          sym (wake_loop-scheduled (k.queues q) (record k { queues = update k.queues q [] }) t)
          ∙ off));
  }

  pub exit_task-AreTasklets : (status : ℤ) → AreTasklets is_tasklet (exit_task status k)
  unfolding exit_task
  exit_task-AreTasklets status = record {
    idle = a.idle;
    rest = λ t is off.
        (let f = a.rest t is (unfold update in ground (arith, off)) in
          dispatched-IsFree k _ _ t k.run_queue f.unready f.awake f.other);
  }

  pub start_task-AreTasklets :
      (t : ℕ) (task : Task) → is_tasklet t ≡ false → AreTasklets is_tasklet (start_task t task k)
  unfolding start_task
  start_task-AreTasklets t task plain = record {
    idle = a.idle;
    rest = λ s is off.
        (let ne : s == t ≡ false = ground (arith, is, plain) in
          joined-IsFree k _ t s ne (a.rest s is (unfold update in rw ne at off)));
  }

  pub scheduled-AreTasklets :
      (t : ℕ)
      → AreTasklets is_tasklet (record k {
        tasks = update k.tasks t (record (k.tasks t) { scheduled = true });
        run_queue = k.run_queue ++ t ∷ [];
      })
  unfolding update
  scheduled-AreTasklets t = record {
    idle = a.idle;
    rest = λ s is off. elim (Bool-cases (s == t)) [
      | inl e ↦ let c : true ≡ false = rw e at off in ground (arith, c)
      | inr ne ↦ joined-IsFree k _ t s ne (a.rest s is (rw ne at off))
    ];
  }

  -- At its end a tasklet has no place, since a task that runs is in no queue.
  pub tasklet_finish-AreTasklets :
      {place : ℕ → Place} → IsValid k place → AreTasklets is_tasklet (tasklet_finish k)
  unfolding tasklet_finish switch_task requeued
  tasklet_finish-AreTasklets v = record {
    idle = a.idle;
    rest = λ t is off. elim (Bool-cases (t == k.current)) [
      | inl e ↦
          let same : t ≡ k.current = ground arith in
          dispatched-IsFree k _ _ t k.run_queue (rw same (current_unready v))
            (λ q. rw same (current_awake v q)) (ground (arith, is, a.idle))
      | inr ne ↦
          let f = a.rest t is (unfold update in rw ne at off) in
          dispatched-IsFree k _ _ t k.run_queue f.unready f.awake f.other
    ];
  }
