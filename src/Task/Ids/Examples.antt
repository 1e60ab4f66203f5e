-- ===== src/Task/Ids/Examples.antt =====
-- The theorems about the ids and the niceness of a task at concrete tasks, and tests.
use dionysus.Prelude.{◌≡◌, refl, arith}
use dionysus.Errno.{err, eperm}
use dionysus.Task.Ids.{Ids, ids, setresuid, setresgid, set_real}
use dionysus.Task.Ids.Laws.{Allowed, setresuid-Allowed}

abbrev user : Ids
user = ids 1000 1001 1002

-- The real id is lost once it is replaced, so the real and the effective id cannot change places.
setresuid_swap : setresuid 1001 1000 1002 user ≡ (err eperm, user)
unfolding setresuid set_real
setresuid_swap = refl

setresuid-Allowed_example :
    Allowed user (setresuid 1001 1001 1002 user).1 × Allowed user (setresgid 1001 1001 1002 user).1
setresuid-Allowed_example = setresuid-Allowed 1001 1001 1002 user (omega arith)
