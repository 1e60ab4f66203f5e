-- ===== src/Errno.antt =====
-- kernel/Include/errno.h: the error numbers that the modelled code returns, negated.
use dionysus.Prelude.{ℕ, ◌-◌}
use dionysus.Prelude.Int.{ℤ, negsuc}

-- `-n`, for an error number
abbrev pub err : ℕ → ℤ
err n = negsuc (n - 1)

abbrev pub eperm : ℕ
eperm = 1

abbrev pub enoent : ℕ
enoent = 2

abbrev pub esrch : ℕ
esrch = 3

abbrev pub eintr : ℕ
eintr = 4

abbrev pub enoexec : ℕ
enoexec = 8

abbrev pub ebadf : ℕ
ebadf = 9

abbrev pub eagain : ℕ
eagain = 11

abbrev pub enomem : ℕ
enomem = 12

abbrev pub eacces : ℕ
eacces = 13

abbrev pub efault : ℕ
efault = 14

abbrev pub ebusy : ℕ
ebusy = 16

abbrev pub eexist : ℕ
eexist = 17

abbrev pub exdev : ℕ
exdev = 18

abbrev pub enotdir : ℕ
enotdir = 20

abbrev pub enotblk : ℕ
enotblk = 15

abbrev pub enodev : ℕ
enodev = 19

abbrev pub einval : ℕ
einval = 22

abbrev pub enfile : ℕ
enfile = 23

abbrev pub enotty : ℕ
enotty = 25

abbrev pub erofs : ℕ
erofs = 30
