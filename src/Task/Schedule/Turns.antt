-- ===== src/Task/Schedule/Turns.antt =====
-- The run queue is served in order.
use dionysus.Prelude.{
  ℕ, zero, suc, ◌≡◌, true, List, [], ◌∷◌, ◌++◌, length, Bool-cases, inl, inr, ap, ◌∙◌,
}
use mathlib.Core.List.{append_assoc, append-nil}
use dionysus.Task.Schedule.{Kernel, get_ready_task, requeued, switch_task}

-- the processor is given up `n` times by tasks that stay ready
unfoldable pub turns : ℕ → Kernel → Kernel
turns zero k = k
turns (suc n) k = turns n (switch_task true k)

-- what is put behind the queue
requeued-append : (k : Kernel) → (more : List ℕ) × (requeued true k ≡ k.run_queue ++ more)
unfolding requeued
requeued-append k = elim (Bool-cases (k.tasks k.current).is_idle) [
  | inl idle ↦ ([], rw (idle, append-nil))
  | inr busy ↦ (k.current ∷ [], rw busy)
]

switch_task-head :
    (k : Kernel) (t : ℕ) (ts : List ℕ)
    → k.run_queue ≡ t ∷ ts
    → (more : List ℕ) × ((switch_task true k).current ≡ t)
      × ((switch_task true k).run_queue ≡ ts ++ more)
unfolding switch_task get_ready_task
switch_task-head k t ts e =
    let (more, added) = requeued-append k in
    let queue : requeued true k ≡ t ∷ (ts ++ more) = added ∙ ap (λ (q : List ℕ). q ++ more) e in
    (more, rw queue, rw queue)

-- A task with `n` others before it in the run queue is the one that runs after `n + 1` tasks have given
-- up the processor and stayed ready.
pub turns-current :
    (front back : List ℕ) (t : ℕ) (k : Kernel)
    → k.run_queue ≡ front ++ t ∷ back
    → (turns (suc (length front)) k).current ≡ t
unfolding turns
turns-current [] back t k e = (switch_task-head k t back e).1
turns-current (s ∷ front) back t k e =
    let (more, current, queue) = switch_task-head k s (front ++ t ∷ back) e in
    turns-current front (back ++ more) t (switch_task true k)
      (queue ∙ append_assoc front (t ∷ back) more)
