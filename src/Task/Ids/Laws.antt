-- ===== src/Task/Ids/Laws.antt =====
-- What `setresuid`, `setresgid` and `nice` allow.
use dionysus.Prelude.{ℕ, ◌≡◌, ◌≢◌, ◌⊎◌, Bool, ◌&&◌, not, arith, ◌==◌, if◌then◌else◌, ◌||◌}
use dionysus.Prelude.Int.{ℤ, pos, negsuc, ◌+ℤ◌, ◌≤ℤ◌, ltb_ℤ}
use dionysus.Errno.{err, eperm}
use dionysus.Task.Ids.{Ids, set_saved, set_effective, set_real, setresuid, setresgid, nice}

abbrev pub Among : ℕ → Ids → Type 0
Among id old = (id ≡ old.real) ⊎ ((id ≡ old.effective) ⊎ (id ≡ old.saved))

-- A change of ids that a task without privilege may make.
pub record Allowed (old new : Ids) : Type 0 where
  pub real : Among new.real old
  pub effective : Among new.effective old
  pub saved : Among new.saved old

-- What the three tests ask of a task without privilege: the id that was replaced is gone.
abbrev pub permitted : ℕ → ℕ → ℕ → Ids → Bool
permitted r e s old =
    (old.effective == 0)
    || ((r == old.real) || (r == old.effective) || (r == old.saved))
      && ((e == r) || (e == old.effective) || (e == old.saved))
      && ((s == r) || (s == e) || (s == old.saved))

abbrev pub decided : ℕ → ℕ → ℕ → Ids → ℤ × Ids
decided r e s old =
    if permitted r e s old
    then (pos 0, record { real = r; effective = e; saved = s })
    else (err eperm, old)

-- `setresuid` and `setresgid` set all three ids and return 0 for a task whose effective id is 0, and
-- where each new id is, in order, among the ids as they then stand; otherwise they return -EPERM
-- and change none.
pub setresuid-permitted :
    (r e s : ℕ) (old : Ids)
    → (setresuid r e s old ≡ decided r e s old) × (setresgid r e s old ≡ decided r e s old)
unfolding setresuid setresgid set_real set_effective set_saved
setresuid-permitted r e s old = (ground arith, ground arith)

-- A task whose effective id is not 0 never gains an id by `setresuid` or `setresgid`: afterwards
-- each of its three ids is one of the three that it had.
pub setresuid-Allowed :
    (r e s : ℕ) (old : Ids)
    → old.effective ≢ 0
    → Allowed old (setresuid r e s old).1 × Allowed old (setresgid r e s old).1
unfolding setresuid setresgid set_real set_effective set_saved
setresuid-Allowed r e s old h = (ground arith, ground arith)

-- `nice` keeps the niceness between -20 and 19 and returns what it sets; only for a negative
-- increment without privilege does it return -1 and leave the niceness alone. Without privilege the
-- niceness never falls.
pub nice_bounds :
    (inc : ℤ) (euid : ℕ) (niceness : ℤ)
    → negsuc 19 ≤ℤ niceness
    → niceness ≤ℤ pos 19
    → (negsuc 19 ≤ℤ (nice inc euid niceness).1)
      × ((nice inc euid niceness).1 ≤ℤ pos 19)
      × ((nice inc euid niceness).0
          ≡ (if ltb_ℤ inc (pos 0) && not (euid == 0) then negsuc 0 else (nice inc euid niceness).1))
      × ((euid ≡ 0) ⊎ (niceness ≤ℤ (nice inc euid niceness).1))
unfolding nice ◌+ℤ◌
nice_bounds inc euid niceness lo hi = (ground arith, ground arith, ground arith, ground arith)
