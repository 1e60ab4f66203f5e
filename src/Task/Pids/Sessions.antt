-- ===== src/Task/Pids/Sessions.antt =====
-- `setsid` over the processes.
use dionysus.Prelude.{
  ℕ, ◌≡◌, ◌≢◌, sym, ap, ◌∙◌, false, List, ◌==◌, map, arith, Bool-cases, inl, inr, ◌⊎◌,
}
use dionysus.Task.Pids.{Process, setsid, resession}
use dionysus.Task.Pids.Groups.{In, IsGrouped, In-map, map-In}

-- a process after `setsid`, by the process as it was
record IsMoved (ps : List Process) (n : ℕ) (p q : Process) : Type 0 where
  before : In ps q
  pid : p.pid ≡ q.pid
  which :
      ((p.gid ≡ n) × (p.sid ≡ n) × (q.pid ≡ n)) ⊎ ((p.gid ≡ q.gid) × (p.sid ≡ q.sid) × (q.pid ≢ n))
  equal : p ≡ resession n q

resession_split :
    (ps : List Process) (n : ℕ) (p : Process)
    → In (map (resession n) ps) p
    → (q : Process) × IsMoved ps n p q
resession_split ps n p h =
    let (q, in_q, e) = In-map (resession n) ps p h in
    elim (Bool-cases (q.pid == n)) [
      | inl same ↦
          let e' : p ≡ record q { gid = n; sid = n } = rw same at e in
          (
            q,
            record {
              before = in_q;
              pid = ap (λ (x : Process). x.pid) e';
              which =
                  inl
                    (ap (λ (x : Process). x.gid) e', ap (λ (x : Process). x.sid) e', ground arith);
              equal = e;
            },
          )
      | inr other ↦
          let e' : p ≡ q = rw other at e in
          (
            q,
            record {
              before = in_q;
              pid = ap (λ (x : Process). x.pid) e';
              which =
                  inr
                    (ap (λ (x : Process). x.gid) e', ap (λ (x : Process). x.sid) e', ground arith);
              equal = e;
            },
          )
    ]

resession-IsGrouped :
    (ps : List Process) (n : ℕ)
    → IsGrouped ps
    → ((q : Process) → In ps q → q.gid ≡ n → q.pid ≡ n)
    → IsGrouped (map (resession n) ps)
resession-IsGrouped ps n ok alone = record {
  distinct = λ p p' h h' e.
      let (q, r) = resession_split ps n p h in
      let (q', r') = resession_split ps n p' h' in
      let same : q ≡ q' = ok.distinct q q' r.before r'.before (sym r.pid ∙ e ∙ r'.pid) in
      r.equal ∙ ap (resession n) same ∙ sym r'.equal;
  group = λ p p' h h' e.
      let (q, r) = resession_split ps n p h in
      let (q', r') = resession_split ps n p' h' in
      elim r.which [
        | inl (g, s, m) ↦ elim r'.which [
          | inl (g', s', m') ↦ s ∙ sym s'
          | inr (g', s', o') ↦ absurd (o' (alone q' r'.before (sym g' ∙ sym e ∙ g)))
        ]
        | inr (g, s, o) ↦ elim r'.which [
          | inl (g', s', m') ↦ absurd (o (alone q r.before (sym g ∙ e ∙ g')))
          | inr (g', s', o') ↦ s ∙ ok.group q q' r.before r'.before (sym g ∙ e ∙ g') ∙ sym s'
        ]
      ];
  leader = λ p p' h h' e.
      let (q, r) = resession_split ps n p h in
      let (q', r') = resession_split ps n p' h' in
      elim r.which [
        | inl (g, s, m) ↦ elim r'.which [
          | inl (g', s', m') ↦ s ∙ sym s'
          | inr (g', s', o') ↦ absurd (o' (alone q' r'.before (sym g' ∙ sym e ∙ r.pid ∙ m)))
        ]
        | inr (g, s, o) ↦ elim r'.which [
          | inl (g', s', m') ↦ absurd (o (sym r.pid ∙ e ∙ g'))
          | inr (g', s', o') ↦ s ∙ ok.leader q q' r.before r'.before (sym r.pid ∙ e ∙ g') ∙ sym s'
        ]
      ];
}

-- A task in a group with its own number gets an error from `setsid`, and any other leads a new session: the
-- processes stay grouped if no other process is in a group with the task's number.
pub setsid-IsGrouped :
    (current : Process) (ps : List Process)
    → IsGrouped ps
    → ((q : Process) → In ps q → q.gid ≡ current.pid → q.pid ≡ current.pid)
    → IsGrouped (setsid current ps).1
unfolding setsid
setsid-IsGrouped current ps ok alone = elim (Bool-cases (current.gid == current.pid)) [
  | inl leads ↦ rw leads ok
  | inr follows ↦ rw follows (resession-IsGrouped ps current.pid ok alone)
]

resession_other : (n : ℕ) (q : Process) → q.pid ≢ n → resession n q ≡ q
resession_other n q h = ground arith

resession_self : (p : Process) → resession p.pid p ≡ record p { gid = p.pid; sid = p.pid }
resession_self p = ground arith

-- `setsid` does not look at the other processes: if one of another session is in a group with the task's
-- number, then the group spreads over two sessions.
pub setsid-splits :
    (current q : Process) (ps : List Process)
    → In ps current
    → In ps q
    → current.gid ≢ current.pid
    → q.pid ≢ current.pid
    → q.gid ≡ current.pid
    → q.sid ≢ current.pid
    → ¬ IsGrouped (setsid current ps).1
unfolding setsid
setsid-splits current q ps at in_q follows other joined elsewhere ok =
    let n = current.pid in
    let f : current.gid == n ≡ false = ground arith in
    let ok' : IsGrouped (map (resession n) ps) = rw f at ok in
    let in_p = map-In (resession n) ps current at in
    let in_q' = rw (resession_other n q other) at (map-In (resession n) ps q in_q) in
    let p = resession n current in
    let g = ap (λ (x : Process). x.gid) (resession_self current) in
    let s = ap (λ (x : Process). x.sid) (resession_self current) in
    elsewhere (sym (ok'.group p q in_p in_q' (g ∙ sym joined)) ∙ s)
