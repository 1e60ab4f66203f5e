-- ===== src/Task/Ids.antt =====
-- kernel/task.c: the user and group ids of a task, and its niceness. An id is a 32-bit number.
pub mod Laws
mod Examples
use dionysus.Prelude.{ℕ, Bool, ◌||◌, ◌&&◌, not, ◌==◌, if◌then◌else◌}
use dionysus.Prelude.Int.{ℤ, pos, negsuc, ◌+ℤ◌, ltb_ℤ}
use dionysus.Errno.{err, eperm}

-- the real, effective and saved id of one kind
pub record Ids : Type 0 where
  pub real : ℕ
  pub effective : ℕ
  pub saved : ℕ

abbrev ids : ℕ → ℕ → ℕ → Ids
ids r e s = record { real = r; effective = e; saved = s }

-- `new == set_r || new == set_e || new == set_s`
abbrev pub held : ℕ → Ids → Bool
held new set = (new == set.real) || (new == set.effective) || (new == set.saved)

-- Each test sees the locals as the assignments before it have left them.
pub set_saved : ℕ → Ids → Ids → ℤ × Ids
set_saved new set old =
    if held new set then (pos 0, record set { saved = new }) else (err eperm, old)

pub set_effective : ℕ → ℕ → Ids → Ids → ℤ × Ids
unfolding set_saved
set_effective new_e new_s set old =
    if held new_e set
    then set_saved new_s (record set { effective = new_e }) old
    else (err eperm, old)

pub set_real : ℕ → ℕ → ℕ → Ids → Ids → ℤ × Ids
unfolding set_effective
set_real new_r new_e new_s set old =
    if held new_r set
    then set_effective new_e new_s (record set { real = new_r }) old
    else (err eperm, old)

-- `setresuid` and `setresgid`, on the ids of their kind.
pub setresuid : ℕ → ℕ → ℕ → Ids → ℤ × Ids
unfolding set_real
setresuid new_ruid new_euid new_suid task =
    if not (task.effective == 0)
    then set_real new_ruid new_euid new_suid task task
    else (pos 0, ids new_ruid new_euid new_suid)

pub setresgid : ℕ → ℕ → ℕ → Ids → ℤ × Ids
unfolding set_real
setresgid new_rgid new_egid new_sgid task =
    if not (task.effective == 0)
    then set_real new_rgid new_egid new_sgid task task
    else (pos 0, ids new_rgid new_egid new_sgid)

-- `nice`: the result, and the niceness afterwards.
pub nice : ℤ → (euid : ℕ) → (niceness : ℤ) → ℤ × ℤ
nice inc euid niceness =
    if ltb_ℤ inc (pos 0) && not (euid == 0)
    then (negsuc 0, niceness)
    else if ltb_ℤ (pos 19) (niceness +ℤ inc)
    then (pos 19, pos 19)
    else if ltb_ℤ (niceness +ℤ inc) (negsuc 19)
    then (negsuc 19, negsuc 19)
    else (niceness +ℤ inc, niceness +ℤ inc)
