-- ===== src/Task/Pids/Groups.antt =====
-- Process groups within sessions: what the calls on process ids keep.
use dionysus.Prelude.{
  ℕ, zero, suc, ◌≡◌, refl, sym, ap, ◌∙◌, some, List, [], ◌∷◌, ◌==◌, ◌||◌, ltb, map, get_elem?,
  arith, Bool-cases, inl, inr, ◌⊎◌,
}
use dionysus.Task.Pids.{max_pid, Process, find_pid, find_group, get_task, regroup, set_gid}

-- a process of the list, at its place
abbrev pub In : List Process → Process → Type 0
In ps p = (i : ℕ) × (get_elem? ps i ≡ some p)

-- Each number belongs to one process, the processes of a group are in one session, and so is the process
-- with the group's number.
pub record IsGrouped (ps : List Process) : Type 0 where
  pub distinct : (p q : Process) → In ps p → In ps q → p.pid ≡ q.pid → p ≡ q
  pub group : (p q : Process) → In ps p → In ps q → p.gid ≡ q.gid → p.sid ≡ q.sid
  pub leader : (p q : Process) → In ps p → In ps q → p.pid ≡ q.gid → p.sid ≡ q.sid

pub In-map :
    (f : Process → Process) (ps : List Process) (q : Process)
    → In (map f ps) q
    → (p : Process) × In ps p × (q ≡ f p)
In-map f [] q (i, e) = ground arith
In-map f (p ∷ ps) q (zero, e) = (p, (0, refl), ground arith)
In-map f (p ∷ ps) q (suc i, e) = let (o, (j, at), eq) = In-map f ps q (i, e) in (o, (suc j, at), eq)

pub map-In :
    (f : Process → Process) (ps : List Process) (p : Process) → In ps p → In (map f ps) (f p)
map-In f [] p (i, e) = ground arith
map-In f (o ∷ ps) p (zero, e) =
    let same : o ≡ p = ground arith in (0, ap (λ (x : Process). some (f x)) same)
map-In f (o ∷ ps) p (suc i, e) = let (j, at) = map-In f ps p (i, e) in (suc j, at)

find_pid-In :
    (pid : ℕ) (ps : List Process) (p : Process) → find_pid pid ps ≡ some p → In ps p × (p.pid ≡ pid)
unfolding find_pid
find_pid-In pid [] p e = ground arith
find_pid-In pid (o ∷ ps) p e = elim (Bool-cases (o.pid == pid)) [
  | inl same ↦ let e' : some o ≡ some p = rw same at e in ((0, e'), ground arith)
  | inr other ↦
      let e' : find_pid pid ps ≡ some p = rw other at e in
      let ((i, at), eq) = find_pid-In pid ps p e' in ((suc i, at), eq)
]

pub find_group-In :
    (pgid : ℕ) (ps : List Process) (p : Process)
    → find_group pgid ps ≡ some p
    → In ps p × (p.gid ≡ pgid)
unfolding find_group
find_group-In pgid [] p e = ground arith
find_group-In pgid (o ∷ ps) p e = elim (Bool-cases (o.gid == pgid)) [
  | inl same ↦ let e' : some o ≡ some p = rw same at e in ((0, e'), ground arith)
  | inr other ↦
      let e' : find_group pgid ps ≡ some p = rw other at e in
      let ((i, at), eq) = find_group-In pgid ps p e' in ((suc i, at), eq)
]

pub get_task-In :
    (pid : ℕ) (ps : List Process) (p : Process) → get_task pid ps ≡ some p → In ps p × (p.pid ≡ pid)
unfolding get_task
get_task-In pid ps p e = elim (Bool-cases ((pid == 0) || ltb max_pid pid)) [
  | inl out ↦ ground arith
  | inr in_range ↦ find_pid-In pid ps p (rw in_range at e)
]

-- what may join the group `gid`: a process of the session that all members, and its leader, are in
pub record MayJoin (ps : List Process) (t : Process) (gid : ℕ) : Type 0 where
  pub member : In ps t
  pub group : (q : Process) → In ps q → q.gid ≡ gid → q.sid ≡ t.sid
  pub leader : (q : Process) → In ps q → q.pid ≡ gid → q.sid ≡ t.sid

record IsRegrouped (ps : List Process) (t : Process) (gid : ℕ) (p q : Process) : Type 0 where
  before : In ps q
  pid : p.pid ≡ q.pid
  sid : p.sid ≡ q.sid
  which : ((p.gid ≡ gid) × (p.sid ≡ t.sid)) ⊎ (p.gid ≡ q.gid)
  equal : p ≡ regroup t.pid gid q

regroup_split :
    (ps : List Process) (t : Process) (gid : ℕ)
    → IsGrouped ps
    → In ps t
    → (p : Process) → In (set_gid t.pid gid ps) p
    → (q : Process) × IsRegrouped ps t gid p q
unfolding set_gid
regroup_split ps t gid ok at p h =
    let (q, in_q, e) = In-map (regroup t.pid gid) ps p h in
    elim (Bool-cases (q.pid == t.pid)) [
      | inl same ↦
          let e' : p ≡ record q { gid = gid } = rw same at e in
          let eq : q ≡ t = ok.distinct q t in_q at (ground arith) in
          (
            q,
            record {
              before = in_q;
              pid = ap (λ (x : Process). x.pid) e';
              sid = ap (λ (x : Process). x.sid) e';
              which = inl (
                ap (λ (x : Process). x.gid) e',
                ap (λ (x : Process). x.sid) e' ∙ ap (λ (x : Process). x.sid) eq,
              );
              equal = e;
            },
          )
      | inr other ↦
          let e' : p ≡ q = rw other at e in
          (
            q,
            record {
              before = in_q;
              pid = ap (λ (x : Process). x.pid) e';
              sid = ap (λ (x : Process). x.sid) e';
              which = inr (ap (λ (x : Process). x.gid) e');
              equal = e;
            },
          )
    ]

-- A process that may join a group keeps the groups when it joins.
pub set_gid-IsGrouped :
    (ps : List Process) (t : Process) (gid : ℕ)
    → IsGrouped ps
    → MayJoin ps t gid
    → IsGrouped (set_gid t.pid gid ps)
set_gid-IsGrouped ps t gid ok may = record {
  distinct = λ p p' h h' e.
      let (q, r) = regroup_split ps t gid ok may.member p h in
      let (q', r') = regroup_split ps t gid ok may.member p' h' in
      let same : q ≡ q' = ok.distinct q q' r.before r'.before (sym r.pid ∙ e ∙ r'.pid) in
      r.equal ∙ ap (regroup t.pid gid) same ∙ sym r'.equal;
  group = λ p p' h h' e.
      let (q, r) = regroup_split ps t gid ok may.member p h in
      let (q', r') = regroup_split ps t gid ok may.member p' h' in
      elim r.which [
        | inl (g, s) ↦ elim r'.which [
          | inl (g', s') ↦ s ∙ sym s'
          | inr g' ↦ s ∙ sym (may.group q' r'.before (sym g' ∙ sym e ∙ g)) ∙ sym r'.sid
        ]
        | inr g ↦ elim r'.which [
          | inl (g', s') ↦ r.sid ∙ may.group q r.before (sym g ∙ e ∙ g') ∙ sym s'
          | inr g' ↦ r.sid ∙ ok.group q q' r.before r'.before (sym g ∙ e ∙ g') ∙ sym r'.sid
        ]
      ];
  leader = λ p p' h h' e.
      let (q, r) = regroup_split ps t gid ok may.member p h in
      let (q', r') = regroup_split ps t gid ok may.member p' h' in
      elim r'.which [
        | inl (g', s') ↦ r.sid ∙ may.leader q r.before (sym r.pid ∙ e ∙ g') ∙ sym s'
        | inr g' ↦ r.sid ∙ ok.leader q q' r.before r'.before (sym r.pid ∙ e ∙ g') ∙ sym r'.sid
      ];
}
