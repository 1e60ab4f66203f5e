-- ===== src/Chardev.antt =====
-- kernel/char.c: the table of the drivers of character devices, one for each major number from 1 to
-- 256. `printf` is left out, and a driver's operations are a number.
pub mod Laws
mod Examples
use dionysus.Prelude.{
  ℕ, suc, ◌-◌, Bool, true, false, ◌||◌, Option, none, some, List, [], ◌∷◌, ltb, ◌==◌, if◌then◌else◌,
  get_elem?, replicate, set,
}
use dionysus.Prelude.Int.{ℤ, pos, negsuc}
use dionysus.Prelude.Str.{Str, str_eq}

-- struct chrdev_driver
pub record Driver : Type 0 where
  pub name : Str
  pub ops : ℕ

-- `char_drivers` and `char_lock`
pub record Table : Type 0 where
  pub drivers : List Driver
  pub locked : Bool

-- "Default"
abbrev pub default_name : Str
default_name = 68 ∷ 101 ∷ 102 ∷ 97 ∷ 117 ∷ 108 ∷ 116 ∷ []

abbrev pub default_driver : Driver
default_driver = record { name = default_name; ops = 0 }

pub is_default : Driver → Bool
is_default d = str_eq d.name default_name

pub init_chardev : Table
init_chardev = record { drivers = replicate 256 default_driver; locked = false }

driver_in : Option Driver → Option Driver
driver_in none = none
driver_in (some d) = if is_default d then none else some d

pub get_chrdev_driver : (major : ℕ) → Table → Option Driver
unfolding driver_in
get_chrdev_driver major t =
    if (major == 0) || ltb 256 major then none else driver_in (get_elem? t.drivers (major - 1))

-- the loop for a free major number, over the rest of the table from the number on
free_major : (major : ℕ) → List Driver → Option ℕ
free_major major [] = none
free_major major (d ∷ ds) =
    let rest = free_major (suc major) ds in if is_default d then some major else rest

register_at : Option ℕ → Driver → Table → ℤ × Table
register_at none d t = (negsuc 0, record t { locked = true })
register_at (some major) d t =
    (pos major, record { drivers = set t.drivers (major - 1) d; locked = false })

-- `none` for a write outside the table
pub register_chrdev : (major : ℕ) → Driver → Table → Option (ℤ × Table)
unfolding register_at free_major
register_chrdev major d t =
    if ltb 256 major
    then none
    else some (register_at (if major == 0 then free_major 1 t.drivers else some major) d t)
