-- ===== src/Task/Pids.antt =====
-- kernel/task.c: process ids, groups and sessions. The list of processes holds the fields that these calls
-- use, and a node of the process tree is its address, with 0 for NULL.
pub mod Groups
pub mod Fork
pub mod Calls
pub mod Sessions
mod Examples
use dionysus.Prelude.{
  ℕ, zero, suc, Bool, true, false, not, ◌||◌, Option, none, some, List, [], ◌∷◌, ltb, ◌==◌,
  if◌then◌else◌, map,
}
use dionysus.Prelude.Int.{ℤ, pos, negsuc}
use dionysus.Errno.{err, einval, eperm, esrch}

pub record Process : Type 0 where
  pub pid : ℕ
  pub gid : ℕ
  pub sid : ℕ
  pub treenode : ℕ

abbrev pub max_pid : ℕ
max_pid = 32768

-- the loops over the processes
pub in_use : ℕ → List Process → Bool
in_use pid [] = false
in_use pid (p ∷ ps) = (p.pid == pid) || in_use pid ps

pub find_pid : ℕ → List Process → Option Process
find_pid pid [] = none
find_pid pid (p ∷ ps) = if p.pid == pid then some p else find_pid pid ps

pub find_group : ℕ → List Process → Option Process
find_group pgid [] = none
find_group pgid (p ∷ ps) = if p.gid == pgid then some p else find_group pgid ps

-- `left` counts the numbers up to MAX_PID
pub pid_loop : (left pid : ℕ) → List Process → ℕ
unfolding in_use
pid_loop zero pid ps = 0
pid_loop (suc left) pid ps =
    let rest = pid_loop left (suc pid) ps in if in_use pid ps then rest else pid

pub nextpid : List Process → ℕ
unfolding pid_loop
nextpid ps = pid_loop max_pid 1 ps

pub get_task : ℕ → List Process → Option Process
unfolding find_pid
get_task pid ps = if (pid == 0) || ltb max_pid pid then none else find_pid pid ps

-- the ids of a new process, with its node in the tree
pub child_of : (current : Process) → (pid treenode : ℕ) → Process
child_of current pid treenode =
    if current.pid == 1
    then record { pid = pid; gid = pid; sid = pid; treenode = treenode }
    else if current.pid == current.sid
    then record { pid = pid; gid = pid; sid = current.sid; treenode = treenode }
    else record { pid = pid; gid = current.gid; sid = current.sid; treenode = treenode }

-- The new process, or the code of `fork`'s failure for want of a number.
pub fork_process : (current : Process) → List Process → (treenode : ℕ) → Option Process
unfolding nextpid child_of
fork_process current ps treenode =
    let pid = nextpid ps in if pid == 0 then none else some (child_of current pid treenode)

-- assignments to the process with a number
abbrev pub regroup : (pid gid : ℕ) → Process → Process
regroup pid gid p = if p.pid == pid then record p { gid = gid } else p

abbrev pub resession : (pid : ℕ) → Process → Process
resession pid p = if p.pid == pid then record p { gid = pid; sid = pid } else p

pub set_gid : (pid gid : ℕ) → List Process → List Process
set_gid pid gid ps = map (regroup pid gid) ps

-- the walk up the tree, from a node until `target` or NULL; `none` if the fuel is used up
pub climb : (fuel : ℕ) → (parent : ℕ → ℕ) → (node target : ℕ) → Option Bool
climb zero parent node target = none
climb (suc fuel) parent node target =
    let rest = climb fuel parent (parent node) target in
    if node == 0 then some false else if node == target then some true else rest

-- a call's result, and the processes after it
abbrev pub Called : Type 0
Called = ℤ × List Process

-- the process to whose group `setpgid` adds the task
pub join_group : List Process → (task : Process) → (pgid : ℕ) → Option Process → Called
unfolding set_gid
join_group ps task pgid none = (err esrch, ps)
join_group ps task pgid (some leader) =
    if not (leader.gid == pgid)
    then (err eperm, ps)
    else if not (leader.sid == task.sid)
    then (err eperm, ps)
    else (pos pgid, set_gid task.pid pgid ps)

pub group_leader : (pgid : ℕ) → List Process → Option Process → Option Process
unfolding find_group
group_leader pgid ps none = find_group pgid ps
group_leader pgid ps (some p) = some p

pub set_group : (current : Process) → List Process → (task : Process) → (pgid : ℕ) → Called
unfolding join_group group_leader get_task
set_group current ps task pgid =
    if task.pid == task.sid
    then (err eperm, ps)
    else if not (task.sid == current.sid)
    then (err eperm, ps)
    else if (pgid == 0) || (pgid == task.pid)
    then (pos task.pid, set_gid task.pid task.pid ps)
    else join_group ps task pgid (group_leader pgid ps (get_task pgid ps))

-- after the walk
pub set_group_if :
    Option Bool → (current : Process) → List Process → (task : Process) → (pgid : ℕ) → Option Called
unfolding set_group
set_group_if none current ps task pgid = none
set_group_if (some false) current ps task pgid = some (err esrch, ps)
set_group_if (some true) current ps task pgid = some (set_group current ps task pgid)

pub set_group_of :
    (fuel : ℕ)
    → (parent : ℕ → ℕ) → (current : Process) → List Process
    → Option Process
    → (pgid : ℕ) → Option Called
unfolding set_group_if climb
set_group_of fuel parent current ps none pgid = some (err esrch, ps)
set_group_of fuel parent current ps (some task) pgid =
    set_group_if (climb fuel parent task.treenode current.treenode) current ps task pgid

-- `none` is the walk that has not come to an end.
pub setpgid :
    (fuel : ℕ)
    → (parent : ℕ → ℕ) → (current : Process) → List Process
    → (pid pgid : ℤ) → Option Called
unfolding set_group_of
setpgid fuel parent current ps (negsuc n) pgid = some (err einval, ps)
setpgid fuel parent current ps (pos pid) (negsuc n) = some (err einval, ps)
setpgid fuel parent current ps (pos pid) (pos pgid) =
    if pid == 0
    then some (set_group current ps current pgid)
    else set_group_of fuel parent current ps (get_task pid ps) pgid

abbrev pub gid_or : Option Process → ℤ
gid_or none = err esrch
gid_or (some p) = pos p.gid

pub getpgid : (current : Process) → List Process → (pid : ℤ) → ℤ
unfolding get_task
getpgid current ps (negsuc n) = err einval
getpgid current ps (pos pid) = if pid == 0 then pos current.gid else gid_or (get_task pid ps)

-- `setsid`, less its move of the tree's node
pub setsid : (current : Process) → List Process → Called
setsid current ps =
    if current.gid == current.pid
    then (err eperm, ps)
    else (pos current.pid, map (resession current.pid) ps)
