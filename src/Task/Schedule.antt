-- ===== src/Task/Schedule.antt =====
-- kernel/task.c: which task runs, which ones are ready, and which ones sleep. A task is known by its
-- address, and a list of the kernel is the list of its payloads in order. The registers that a switch
-- saves and loads are not modelled: after a switch the code goes on in the new current task.
pub mod Places
pub mod Steps
pub mod Waking
pub mod Free
pub mod Reach
pub mod Turns
mod Examples
use dionysus.Prelude.{
  ℕ, zero, suc, Bool, true, false, not, ◌&&◌, ◌||◌, Option, none, some, List, [], ◌∷◌, ◌++◌, ◌==◌,
  if◌then◌else◌,
}
use dionysus.Prelude.Int.{ℤ, pos}
use dionysus.Errno.{err, enomem}

-- the fields of a task_t that these calls use, `scheduled` of a tasklet_t among them
pub record Task : Type 0 where
  pub is_idle : Bool  -- `pid == -1`
  pub asleep : Bool  -- SLEEP_ASLEEP
  pub interruptable : Bool  -- SLEEP_INTERRUPTABLE
  pub interrupted : Bool  -- SLEEP_INTERRUPTED
  pub wq : Option ℕ
  pub exit : ℤ
  pub scheduled : Bool

pub record Kernel : Type 0 where
  pub tasks : ℕ → Task
  pub current : ℕ  -- `current_task`
  pub kidle : ℕ
  pub run_queue : List ℕ
  pub queues : ℕ → List ℕ  -- the queue of each waitqueue

unfoldable pub update {ℓ} : {A : Type ℓ} → (ℕ → A) → ℕ → A → ℕ → A
update f i v j = if j == i then v else f j

-- the head of the run queue, or the idle task; and the queue without it
pub get_ready_task : (kidle : ℕ) → List ℕ → ℕ × List ℕ
get_ready_task kidle [] = (kidle, [])
get_ready_task kidle (t ∷ queue) = (t, queue)

-- the run queue when the task gives up the processor
pub requeued : (reschedule : Bool) → Kernel → List ℕ
requeued reschedule k =
    if reschedule && not (k.tasks k.current).is_idle
    then k.run_queue ++ k.current ∷ []
    else k.run_queue

pub switch_task : (reschedule : Bool) → Kernel → Kernel
unfolding requeued
switch_task reschedule k =
    let (next, queue) = get_ready_task k.kidle (requeued reschedule k) in
    record k { current = next; run_queue = queue }

pub sleep_thread : (wq : ℕ) (interruptable : Bool) → Kernel → Kernel
sleep_thread wq interruptable k =
    let sleeper = record (k.tasks k.current) {
      asleep = true;
      interruptable = interruptable;
      interrupted = false;
      wq = some wq;
    } in
    switch_task false record k {
      tasks = update k.tasks k.current sleeper;
      queues = update k.queues wq (k.queues wq ++ k.current ∷ []);
    }

-- the loop of `wake_queue` over the tasks of the queue
pub wake_loop : List ℕ → Kernel → Kernel
wake_loop [] k = k
wake_loop (t ∷ ts) k = wake_loop ts record k {
  tasks = update k.tasks t (record (k.tasks t) { asleep = false; wq = none });
  run_queue = k.run_queue ++ t ∷ [];
}

-- Each round takes the head off the queue, which is empty at the end.
pub wake_queue : (wq : ℕ) → Kernel → Kernel
unfolding wake_loop
wake_queue wq k = wake_loop (k.queues wq) record k { queues = update k.queues wq [] }

-- What `exit_task` does to the schedule, for a task that is not init: its exit is a failed ASSERT. Its memory,
-- files and children are not part of it.
pub exit_task : (status : ℤ) → Kernel → Kernel
exit_task status k =
    let (next, queue) = get_ready_task k.kidle k.run_queue in
    record k {
      tasks = update k.tasks k.current (record (k.tasks k.current) { exit = status });
      current = next;
      run_queue = queue;
    }

-- the place of a new task of `fork` in the run queue
pub start_task : (t : ℕ) → Task → Kernel → Kernel
start_task t task k = record k { tasks = update k.tasks t task; run_queue = k.run_queue ++ t ∷ [] }

-- `alloc` tells whether the node of the queue can be allocated
pub schedule_tasklet : (alloc : Bool) (t : ℕ) → Kernel → ℤ × Kernel
schedule_tasklet alloc t k =
    if (k.tasks t).scheduled then (pos 0, k) else if not alloc then (err enomem, k) else (
      pos 0,
      record k {
        tasks = update k.tasks t (record (k.tasks t) { scheduled = true });
        run_queue = k.run_queue ++ t ∷ [];
      },
    )

-- `_tasklet_finish`, at the end of a tasklet's body
pub tasklet_finish : Kernel → Kernel
tasklet_finish k =
    switch_task false record k {
      tasks = update k.tasks k.current (record (k.tasks k.current) { scheduled = false });
    }
