-- ===== src/Chardev/Laws.antt =====
-- Registration and search of character drivers.
use dionysus.Prelude.{
  ℕ, suc, ◌-◌, ◌≤◌, ◌≡◌, ◌≢◌, refl, Bool, true, false, not, ◌||◌, ◌&&◌, none, some, List, [], ◌∷◌,
  ltb, ◌==◌, if◌then◌else◌, set, length, get_elem?-set_self, get_elem?-set_ne, arith, Bool-cases,
  inl, inr,
}
use dionysus.Prelude.Int.{pos, negsuc}
use dionysus.Chardev.{
  Driver, Table, is_default, driver_in, get_chrdev_driver, free_major, register_at, register_chrdev,
}

get_after :
    (k major : ℕ) (d : Driver) (t : Table)
    → length t.drivers ≡ 256
    → is_default d ≡ false
    → major ≢ 0
    → major ≤ 256
    → get_chrdev_driver k record { drivers = set t.drivers (major - 1) d; locked = false }
      ≡ (if k == major then some d else get_chrdev_driver k t)
unfolding get_chrdev_driver driver_in
get_after k major d t size named positive small = elim (Bool-cases (k == major)) [
  | inl same ↦
      let e : k ≡ major = ground arith in
      let inside : (major == 0) || ltb 256 major ≡ false = ground arith in
      rw
        (
          same,
          e,
          inside,
          get_elem?-set_self t.drivers (major - 1) d (omega (arith, size)),
          driver_in,
          named,
        )
        refl
  | inr other ↦ elim (Bool-cases ((k == 0) || ltb 256 k)) [
    | inl outside ↦ rw (other, outside) refl
    | inr inside ↦
        let ne : major - 1 ≢ k - 1 = ground arith in
        rw (other, inside, get_elem?-set_ne t.drivers d ne) refl
  ]
]

-- After a driver with a name of its own is registered at a major number from 1 to 256, the search
-- finds it there, and at every other number what it found before; the lock is released.
pub get_chrdev_driver-register_chrdev :
    (major : ℕ) (d : Driver) (t : Table)
    → length t.drivers ≡ 256
    → is_default d ≡ false
    → major ≢ 0
    → major ≤ 256
    → (after : Table) × (register_chrdev major d t ≡ some (pos major, after))
      × (after.locked ≡ false)
      × ((k : ℕ)
          → get_chrdev_driver k after ≡ (if k == major then some d else get_chrdev_driver k t))
unfolding register_chrdev register_at get_chrdev_driver driver_in
get_chrdev_driver-register_chrdev major d t size named positive small =
    let inside : ltb 256 major ≡ false = ground arith in
    let given : major == 0 ≡ false = ground arith in
    (
      record { drivers = set t.drivers (major - 1) d; locked = false },
      rw (inside, given),
      refl,
      λ k. get_after k major d t size named positive small,
    )

-- every slot is taken
abbrev pub all_taken : List Driver → Bool
all_taken [] = true
all_taken (d ∷ ds) = not (is_default d) && all_taken ds

free_major-full : (major : ℕ) (ds : List Driver) → all_taken ds ≡ true → free_major major ds ≡ none
unfolding free_major
free_major-full major [] full = refl
free_major-full major (d ∷ ds) full = ground (arith, free_major-full (suc major) ds)

-- When every slot is taken, asking for any number returns -1 with the lock still held.
pub register_chrdev-full :
    (d : Driver) (t : Table)
    → all_taken t.drivers ≡ true
    → register_chrdev 0 d t ≡ some (negsuc 0, record t { locked = true })
unfolding register_chrdev register_at
register_chrdev-full d t full = rw (free_major-full 1 t.drivers full)
