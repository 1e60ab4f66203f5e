-- ===== src/Task/Pids/Fork.antt =====
-- The number and the ids of a new process.
use dionysus.Prelude.{
  ℕ, zero, suc, ◌+◌, ◌≡◌, ◌≢◌, refl, sym, ap, ◌∙◌, false, Option, none, some, List, [], ◌∷◌, ◌==◌,
  get_elem?, arith, Bool-cases, Option-cases, inl, inr,
}
use dionysus.Prelude.Search.{AllUsed, FirstFree, free_at, all_used, FirstFree-after, some_of}
use dionysus.Task.Pids.{Process, max_pid, in_use, pid_loop, nextpid, child_of, fork_process}
use dionysus.Task.Pids.Groups.{In, IsGrouped}

-- 0 for no number
abbrev pub to_pid : Option ℕ → ℕ
to_pid none = 0
to_pid (some pid) = pid

pid_loop-FirstFree :
    (left pid : ℕ) (ps : List Process)
    → (o : Option ℕ) × FirstFree (λ (k : ℕ). in_use k ps) pid (pid + left) o
      × (pid_loop left pid ps ≡ to_pid o)
unfolding pid_loop
pid_loop-FirstFree zero pid ps = (none, all_used (λ k low high. absurd (omega arith)), refl)
pid_loop-FirstFree (suc left) pid ps = elim (Bool-cases (in_use pid ps)) [
  | inl used ↦
      let (o, free, e) = pid_loop-FirstFree left (suc pid) ps in
      let here : AllUsed (λ (k : ℕ). in_use k ps) pid (suc pid) =
        λ k low high. (let same : k ≡ pid = omega arith in rw (same, used) refl) in
      let n : suc pid + left ≡ pid + suc left = omega arith in
      (o, FirstFree-after here (omega arith) (rw n at free), rw used e)
  | inr unused ↦ (
    some pid,
    free_at unused (omega arith) (omega arith) (λ k low high. absurd (omega arith)),
    rw unused refl,
  )
]

-- `nextpid` returns the least number from 1 to MAX_PID that no process has, or 0 if they have them all.
pub nextpid-FirstFree :
    (ps : List Process)
    → (o : Option ℕ) × FirstFree (λ (k : ℕ). in_use k ps) 1 (1 + max_pid) o
      × (nextpid ps ≡ to_pid o)
unfolding nextpid
nextpid-FirstFree ps = pid_loop-FirstFree max_pid 1 ps

in_use-In :
    (pid : ℕ) (ps : List Process) (q : Process) → in_use pid ps ≡ false → In ps q → q.pid ≢ pid
unfolding in_use
in_use-In pid [] q h (i, at) = ground arith
in_use-In pid (p ∷ ps) q h (zero, at) = let e : p ≡ q = ground arith in rw (← e) (ground arith)
in_use-In pid (p ∷ ps) q h (suc i, at) = in_use-In pid ps q (ground arith) (i, at)

nextpid-unused : (ps : List Process) (q : Process) → nextpid ps ≢ 0 → In ps q → q.pid ≢ nextpid ps
nextpid-unused ps q some_left h =
    let (o, free, e) = nextpid-FirstFree ps in
    elim (Option-cases o) [
      | inl full ↦ absurd (some_left (e ∙ ap to_pid full))
      | inr (pid, found) ↦
          let (unused, less, rest) = some_of pid free found in
          rw (e ∙ ap to_pid found) (in_use-In pid ps q unused h)
    ]

-- what a new process must be for the groups to stay
record MayStart (ps : List Process) (new : Process) : Type 0 where
  number : (q : Process) → In ps q → q.pid ≢ new.pid
  group : (q : Process) → In ps q → q.gid ≡ new.gid → q.sid ≡ new.sid
  leader : (q : Process) → In ps q → q.pid ≡ new.gid → q.sid ≡ new.sid
  follower : (q : Process) → In ps q → q.gid ≢ new.pid

module _ (ps : List Process) (new : Process) (ok : IsGrouped ps) (may : MayStart ps new) where
  first : (p : Process) → get_elem? (new ∷ ps) 0 ≡ some p → new ≡ p
  first p e = ground arith

  distinct_cons : (p q : Process) → In (new ∷ ps) p → In (new ∷ ps) q → p.pid ≡ q.pid → p ≡ q
  distinct_cons p q (zero, e) (zero, e') same = sym (first p e) ∙ first q e'
  distinct_cons p q (zero, e) (suc j, e') same =
      absurd (may.number q (j, e') (sym same ∙ sym (ap (λ (x : Process). x.pid) (first p e))))
  distinct_cons p q (suc i, e) (zero, e') same =
      absurd (may.number p (i, e) (same ∙ sym (ap (λ (x : Process). x.pid) (first q e'))))
  distinct_cons p q (suc i, e) (suc j, e') same = ok.distinct p q (i, e) (j, e') same

  group_cons : (p q : Process) → In (new ∷ ps) p → In (new ∷ ps) q → p.gid ≡ q.gid → p.sid ≡ q.sid
  group_cons p q (zero, e) (zero, e') same =
      ap (λ (x : Process). x.sid) (sym (first p e) ∙ first q e')
  group_cons p q (zero, e) (suc j, e') same =
      rw (← first p e)
        (sym (may.group q (j, e') (sym same ∙ sym (ap (λ (x : Process). x.gid) (first p e)))))
  group_cons p q (suc i, e) (zero, e') same =
      rw (← first q e') (may.group p (i, e) (same ∙ sym (ap (λ (x : Process). x.gid) (first q e'))))
  group_cons p q (suc i, e) (suc j, e') same = ok.group p q (i, e) (j, e') same

  leader_cons : (p q : Process) → In (new ∷ ps) p → In (new ∷ ps) q → p.pid ≡ q.gid → p.sid ≡ q.sid
  leader_cons p q (zero, e) (zero, e') same =
      ap (λ (x : Process). x.sid) (sym (first p e) ∙ first q e')
  leader_cons p q (zero, e) (suc j, e') same =
      absurd (may.follower q (j, e') (sym same ∙ sym (ap (λ (x : Process). x.pid) (first p e))))
  leader_cons p q (suc i, e) (zero, e') same =
      rw (← first q e')
        (may.leader p (i, e) (same ∙ sym (ap (λ (x : Process). x.gid) (first q e'))))
  leader_cons p q (suc i, e) (suc j, e') same = ok.leader p q (i, e) (j, e') same

MayStart-IsGrouped :
    (ps : List Process) (new : Process) → IsGrouped ps → MayStart ps new → IsGrouped (new ∷ ps)
MayStart-IsGrouped ps new ok may = record {
  distinct = distinct_cons ps new ok may;
  group = group_cons ps new ok may;
  leader = leader_cons ps new ok may;
}

child_of-MayStart :
    (ps : List Process) (current : Process) (treenode : ℕ)
    → IsGrouped ps
    → In ps current
    → nextpid ps ≢ 0
    → ((q : Process) → In ps q → q.gid ≢ nextpid ps)
    → MayStart ps (child_of current (nextpid ps) treenode)
unfolding child_of
child_of-MayStart ps current treenode ok at some_left no_group =
    let pid = nextpid ps in
    let other = λ (q : Process). λ (h : In ps q). nextpid-unused ps q some_left h in
    let alone : (sid : ℕ)
        → MayStart ps (record { pid = pid; gid = pid; sid = sid; treenode = treenode }) =
      λ sid. record {
        number = other;
        group = λ q h e. absurd (no_group q h e);
        leader = λ q h e. absurd (other q h e);
        follower = no_group;
      } in
    elim (Bool-cases (current.pid == 1)) [
      | inl init ↦ rw init (alone pid)
      | inr user ↦ elim (Bool-cases (current.pid == current.sid)) [
        | inl leads ↦ rw (user, leads) (alone current.sid)
        | inr follows ↦
            rw (user, follows)
              (record {
                number = other;
                group = λ q h e. ok.group q current h at e;
                leader = λ q h e. ok.leader q current h at e;
                follower = no_group;
              })
      ]
    ]

same_of : (p q : Process) → some p ≡ some q → p ≡ q
same_of p q e = ground arith

ne_of : (n : ℕ) → (n == 0) ≡ false → n ≢ 0
ne_of n h = ground arith

-- The process that `fork` makes keeps the groups, if no process is in a group with its number: `nextpid`
-- looks at the processes' numbers alone.
pub fork_process-IsGrouped :
    (ps : List Process) (current new : Process) (treenode : ℕ)
    → IsGrouped ps
    → In ps current
    → ((q : Process) → In ps q → q.gid ≢ nextpid ps)
    → fork_process current ps treenode ≡ some new
    → IsGrouped (new ∷ ps)
unfolding fork_process
fork_process-IsGrouped ps current new treenode ok at no_group e =
    elim (Bool-cases (nextpid ps == 0)) [
      | inl full ↦ let e' : none ≡ some new = rw full at e in ground arith
      | inr some_left ↦
          let e' : some (child_of current (nextpid ps) treenode) ≡ some new = rw some_left at e in
          let eq : child_of current (nextpid ps) treenode ≡ new = same_of _ _ e' in
          rw (← eq) (
            MayStart-IsGrouped ps (child_of current (nextpid ps) treenode) ok
              (child_of-MayStart ps current treenode ok at (ne_of (nextpid ps) some_left) no_group))
    ]
