-- ===== src/Task/Pids/Examples.antt =====
-- A session of two processes: number 4 is in the group of number 3, which has moved to its parent's group 2.
use dionysus.Prelude.{
  ℕ, zero, suc, ◌==◌, if◌then◌else◌, ◌≡◌, ◌≢◌, refl, sym, ap, ◌∙◌, some, List, [], ◌∷◌, arith, inl,
  inr, ◌⊎◌,
}
use dionysus.Prelude.Int.{pos}
use dionysus.Task.Pids.{Process, nextpid, child_of, fork_process, setpgid}
use dionysus.Task.Pids.Groups.{In, IsGrouped}
use dionysus.Task.Pids.Calls.{IsRooted, Sets, setpgid-IsAnswer}

abbrev leader : Process
leader = record { pid = 3; gid = 2; sid = 2; treenode = 300 }

abbrev worker : Process
worker = record { pid = 4; gid = 3; sid = 2; treenode = 400 }

abbrev session : List Process
session = leader ∷ worker ∷ []

-- the process tree: 4 below 3 below the root
abbrev above : ℕ → ℕ
above node = if node == 400 then 300 else if node == 300 then 100 else 0

In-session : (p : Process) → In session p → (p ≡ leader) ⊎ (p ≡ worker)
In-session p (zero, e) = inl (ground arith)
In-session p (suc zero, e) = inr (ground arith)
In-session p (suc (suc i), e) = ground arith

sid-session : (p : Process) → In session p → p.sid ≡ 2
sid-session p h = elim (In-session p h) [
  | inl e ↦ ap (λ (x : Process). x.sid) e
  | inr e ↦ ap (λ (x : Process). x.sid) e
]

distinct-session : (p q : Process) → In session p → In session q → p.pid ≡ q.pid → p ≡ q
distinct-session p q h k e = elim (In-session p h) [
  | inl a ↦ elim (In-session q k) [ inl b ↦ a ∙ sym b | inr b ↦ ground arith ]
  | inr a ↦ elim (In-session q k) [ inl b ↦ ground arith | inr b ↦ a ∙ sym b ]
]

session-IsGrouped : IsGrouped session
session-IsGrouped = record {
  distinct = distinct-session;
  group = λ p q h k e. sid-session p h ∙ sym (sid-session q k);
  leader = λ p q h k e. sid-session p h ∙ sym (sid-session q k);
}

session-IsRooted : IsRooted 3 above session
session-IsRooted p h = elim (In-session p h) [ inl e ↦ rw e refl | inr e ↦ rw e refl ]

not_one : (q : Process) → In session q → q.gid ≢ nextpid session
unfolding nextpid
not_one q h = elim (In-session q h) [
  | inl e ↦ rw e (λ g. absurd (omega arith))
  | inr e ↦ rw e (λ g. absurd (omega arith))
]

forked : fork_process worker session 500 ≡ some (child_of worker 1 500)
unfolding fork_process
forked = refl

not_four : (q : Process) → In session q → q.gid ≡ 4 → q.pid ≡ 4
not_four q h = elim (In-session q h) [
  | inl e ↦ rw e (λ g. absurd (omega arith))
  | inr e ↦ rw e (λ g. absurd (omega arith))
]

nextpid_test : nextpid session ≡ 1
unfolding nextpid
nextpid_test = refl

-- a task's own group, as `setpgid(0, 0)`
setpgid_test :
    setpgid 4 above worker session (pos 0) (pos 0)
    ≡ some (pos 4, leader ∷ record worker { gid = 4 } ∷ [])
unfolding setpgid
setpgid_test = refl

-- Number 3 moves number 4, which is below it, to the group 2, whose leader is gone.
setpgid_child_test :
    setpgid 4 above leader session (pos 4) (pos 2)
    ≡ some (pos 2, leader ∷ record worker { gid = 2 } ∷ [])
unfolding setpgid
setpgid_child_test = refl

setpgid-IsAnswer_example : Sets leader session (setpgid 4 above leader session (pos 4) (pos 4))
setpgid-IsAnswer_example =
    setpgid-IsAnswer leader session 3 above (pos 4) (pos 4) session-IsGrouped (0, refl)
      session-IsRooted
