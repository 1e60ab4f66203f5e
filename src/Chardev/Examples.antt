-- ===== src/Chardev/Examples.antt =====
-- The theorems about kernel/char.c at the first table and at a full one.
use dionysus.Prelude.{◌≡◌, refl, true, false, [], ◌∷◌, replicate}
use dionysus.Prelude.Str.{str_eq}
use dionysus.Chardev.{Driver, Table, is_default, default_driver}
use dionysus.Chardev.Laws.{all_taken}

-- "tty"
abbrev tty : Driver
tty = record { name = 116 ∷ 116 ∷ 121 ∷ []; ops = 1 }

abbrev first_table : Table
first_table = record { drivers = replicate 256 default_driver; locked = false }

tty_named : is_default tty ≡ false
unfolding is_default str_eq
tty_named = refl

abbrev full_table : Table
full_table = record { drivers = replicate 256 tty; locked = false }

full_table_taken : all_taken full_table.drivers ≡ true
unfolding is_default str_eq
full_table_taken = refl
