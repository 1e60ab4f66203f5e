-- ===== src/Task/Pids/Calls.antt =====
-- `setpgid` and `setsid` over the processes.
use dionysus.Prelude.{
  ℕ, zero, suc, ◌≡◌, ◌≢◌, refl, sym, ap, ◌∙◌, Bool, true, false, not, ◌||◌, Option, none, some,
  List, ◌==◌, if◌then◌else◌, arith, Bool-cases, Option-cases, inl, inr,
}
use dionysus.Prelude.Int.{ℤ, pos, negsuc}
use dionysus.Errno.{err}
use dionysus.Task.Pids.{
  Process, get_task, set_gid, climb, Called, join_group, group_leader, set_group, set_group_if,
  set_group_of, setpgid,
}
use dionysus.Task.Pids.Groups.{
  In, IsGrouped, MayJoin, set_gid-IsGrouped, get_task-In, find_group-In,
}

-- What a call of `setpgid` may do: nothing, with an error, or move a task of the caller's session, which
-- does not lead it, to a group that it may join_group.
pub data IsAnswer (current : Process) (ps : List Process) : Called → Type 0 where
  refused : (n : ℕ) → IsAnswer current ps (err n, ps)
  moved :
      {t : Process} {gid : ℕ}
      → MayJoin ps t gid
      → t.sid ≡ current.sid
      → t.pid ≢ t.sid
      → IsAnswer current ps (pos gid, set_gid t.pid gid ps)

IsAnswer-if :
    {current : Process} {ps : List Process} (r q : Called) (b : Bool)
    → (b ≡ true → IsAnswer current ps r)
    → (b ≡ false → IsAnswer current ps q)
    → IsAnswer current ps (if b then r else q)
IsAnswer-if r q true h k = h refl
IsAnswer-if r q false h k = k refl

group_leader-In :
    (pgid : ℕ) (ps : List Process) (p : Process)
    → group_leader pgid ps (get_task pgid ps) ≡ some p
    → In ps p
unfolding group_leader
group_leader-In pgid ps p e = elim (Option-cases (get_task pgid ps)) [
  | inl none_there ↦ (find_group-In pgid ps p (rw none_there at e)).0
  | inr (q, there) ↦
      let e' : some q ≡ some p = rw there at e in
      let same : q ≡ p = ground arith in rw (← same) (get_task-In pgid ps q there).0
]

module _ (current : Process) (ps : List Process) (ok : IsGrouped ps) (task : Process)
    (at : In ps task) where
  join_group-IsAnswer :
      (pgid : ℕ) (o : Option Process)
      → task.sid ≡ current.sid
      → task.pid ≢ task.sid
      → ((p : Process) → o ≡ some p → In ps p)
      → IsAnswer current ps (join_group ps task pgid o)
  unfolding join_group
  join_group-IsAnswer pgid none same follows h = refused 3
  join_group-IsAnswer pgid (some leader) same follows h =
      let in_ps = h leader refl in
      IsAnswer-if _ _ (not (leader.gid == pgid)) (λ _. refused 1)
        (λ group.
          IsAnswer-if _ _ (not (leader.sid == task.sid)) (λ _. refused 1)
            (λ session.
              let g : leader.gid ≡ pgid = ground arith in
              let s : leader.sid ≡ task.sid = ground arith in
              moved
                (record {
                  member = at;
                  group = λ q in_q e. ok.group q leader in_q in_ps (e ∙ sym g) ∙ s;
                  leader = λ q in_q e. ok.leader q leader in_q in_ps (e ∙ sym g) ∙ s;
                })
                same follows))

  set_group-IsAnswer : (pgid : ℕ) → IsAnswer current ps (set_group current ps task pgid)
  unfolding set_group
  set_group-IsAnswer pgid =
      IsAnswer-if _ _ (task.pid == task.sid) (λ _. refused 1)
        (λ follows.
          IsAnswer-if _ _ (not (task.sid == current.sid)) (λ _. refused 1)
            (λ session.
              let s : task.sid ≡ current.sid = ground arith in
              let f : task.pid ≢ task.sid = ground arith in
              IsAnswer-if _ _ ((pgid == 0) || (pgid == task.pid))
                (λ _.
                  moved
                    (record {
                      member = at;
                      group = λ q in_q e. sym (ok.leader task q at in_q (sym e));
                      leader =
                          λ q in_q e. ap (λ (x : Process). x.sid) (ok.distinct q task in_q at e);
                    })
                    s f)
                (λ _.
                  join_group-IsAnswer pgid (group_leader pgid ps (get_task pgid ps)) s f
                    (group_leader-In pgid ps))))

-- the walk up the tree
abbrev pub ancestor : (depth : ℕ) → (parent : ℕ → ℕ) → ℕ → ℕ
ancestor zero parent node = node
ancestor (suc depth) parent node = ancestor depth parent (parent node)

climb-returns :
    (depth : ℕ) (parent : ℕ → ℕ) (node target : ℕ)
    → ancestor depth parent node ≡ 0
    → (b : Bool) × (climb (suc depth) parent node target ≡ some b)
unfolding climb
climb-returns zero parent node target e =
    (false, let z : node == 0 ≡ true = ground arith in rw z refl)
climb-returns (suc depth) parent node target e = elim (Bool-cases (node == 0)) [
  | inl top ↦ (false, rw top refl)
  | inr below ↦ elim (Bool-cases (node == target)) [
    | inl met ↦ (true, rw (below, met) refl)
    | inr other ↦
        let (b, r) = climb-returns depth parent (parent node) target e in (b, rw (below, other) r)
  ]
]

IsAnswer-IsGrouped :
    (current : Process) (ps : List Process) (r : Called)
    → IsGrouped ps
    → IsAnswer current ps r
    → IsGrouped r.1
IsAnswer-IsGrouped current ps _ ok (refused n) = ok
IsAnswer-IsGrouped current ps _ ok (moved {t} {gid} may same follows) =
    set_gid-IsGrouped ps t gid ok may

-- every process is at most `depth` steps below the root of the tree
abbrev pub IsRooted : (depth : ℕ) → (parent : ℕ → ℕ) → List Process → Type 0
IsRooted depth parent ps = (p : Process) → In ps p → ancestor depth parent p.treenode ≡ 0

abbrev pub Sets : (current : Process) → List Process → Option Called → Type 0
Sets current ps o = (r : Called) × (o ≡ some r) × IsAnswer current ps r × IsGrouped r.1

module _ (current : Process) (ps : List Process) (ok : IsGrouped ps) (at : In ps current) where
  sets : (r : Called) → IsAnswer current ps r → Sets current ps (some r)
  sets r h = (r, refl, h, IsAnswer-IsGrouped current ps r ok h)

  set_group_if-Sets :
      (task : Process) (pgid : ℕ) (b : Bool)
      → In ps task
      → Sets current ps (set_group_if (some b) current ps task pgid)
  unfolding set_group_if
  set_group_if-Sets task pgid false h = sets _ (refused 3)
  set_group_if-Sets task pgid true h = sets _ (set_group-IsAnswer current ps ok task h pgid)

  set_group_of-Sets :
      (depth : ℕ) (parent : ℕ → ℕ) (o : Option Process) (pgid : ℕ)
      → IsRooted depth parent ps
      → ((p : Process) → o ≡ some p → In ps p)
      → Sets current ps (set_group_of (suc depth) parent current ps o pgid)
  unfolding set_group_of
  set_group_of-Sets depth parent none pgid rooted h = sets _ (refused 3)
  set_group_of-Sets depth parent (some task) pgid rooted h =
      let in_ps = h task refl in
      let (b, e) = climb-returns depth parent task.treenode current.treenode (rooted task in_ps) in
      rw e (set_group_if-Sets task pgid b in_ps)

Sets-if :
    {current : Process} {ps : List Process} (b : Bool) (o o' : Option Called)
    → Sets current ps o
    → Sets current ps o'
    → Sets current ps (if b then o else o')
Sets-if true o o' h k = h
Sets-if false o o' h k = k

-- With one step of fuel more than the tree is deep, `setpgid` returns. It gives an error and changes
-- nothing, or it moves a task of the caller's session that does not lead it to a group in that session;
-- the processes stay grouped in both cases.
pub setpgid-IsAnswer :
    (current : Process) (ps : List Process) (depth : ℕ) (parent : ℕ → ℕ) (pid pgid : ℤ)
    → IsGrouped ps
    → In ps current
    → IsRooted depth parent ps
    → Sets current ps (setpgid (suc depth) parent current ps pid pgid)
unfolding setpgid
setpgid-IsAnswer current ps depth parent (negsuc n) pgid ok at rooted =
    sets current ps ok at _ (refused 22)
setpgid-IsAnswer current ps depth parent (pos pid) (negsuc n) ok at rooted =
    sets current ps ok at _ (refused 22)
setpgid-IsAnswer current ps depth parent (pos pid) (pos pgid) ok at rooted =
    Sets-if (pid == 0) _ _
      (sets current ps ok at _ (set_group-IsAnswer current ps ok current at pgid))
      (set_group_of-Sets current ps ok at depth parent (get_task pid ps) pgid rooted
        (λ p e. (get_task-In pid ps p e).0))
