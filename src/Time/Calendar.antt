-- ===== src/Time/Calendar.antt =====
-- The calendar that the loops of `gmtime` follow: days before a year and before a month.
use dionysus.Prelude.{
  ℕ, zero, suc, ◌+◌, ◌-◌, ◌*◌, ◌/◌, ◌≤◌, ◌<◌, ◌≡◌, refl, inl, inr, Bool, true, false, some, List,
  [], ◌∷◌, arith, leb, ◌==◌, Bool-cases, get_elem?, get_or, length, leb→le, ==_iff,
}
use dionysus.Prelude.Table.{holds_below, of-holds_below}
use dionysus.Time.{year_size, leap_year, year_loop, month_loop, ytab}

-- Days from 1970-01-01 to the first of January of `y`, by the Gregorian rule.
abbrev pub days_before : ℕ → ℕ
days_before y = 365 * (y - 1970) + (y - 1969) / 4 + (y - 1601) / 400 - (y - 1901) / 100

pub year_size_range : (y : ℕ) → (365 ≤ year_size y) × (year_size y ≤ 366)
unfolding year_size
year_size_range y = ground arith

pub days_before-suc : (y : ℕ) → 1970 ≤ y → days_before (y + 1) ≡ days_before y + year_size y
unfolding year_size leap_year
days_before-suc y h = ground arith

-- Where the loop over the years stops: at the year that holds the day.
pub record InYear (total year yday : ℕ) : Type 0 where
  pub since : 1970 ≤ year
  pub split : days_before year + yday ≡ total
  pub within : yday < year_size year

pub year_loop-InYear :
    (fuel dayno year : ℕ)
    → 1970 ≤ year
    → dayno < fuel
    → (y d : ℕ) × (year_loop fuel dayno year ≡ some (y, d)) × InYear (days_before year + dayno) y d
unfolding year_loop
year_loop-InYear zero dayno year since enough = absurd (omega arith)
year_loop-InYear (suc fuel) dayno year since enough =
    elim (Bool-cases (leb (year_size year) dayno)) [
      | inl more ↦
          let size = year_size_range year in
          let le = leb→le (year_size year) dayno more in
          let (y, d, run, at) =
            year_loop-InYear fuel (dayno - year_size year) (year + 1) (omega arith) (omega arith) in
          (
            y,
            d,
            rw more run,
            record {
              since = at.since;
              split = omega (arith, at.split, days_before-suc year since);
              within = at.within;
            },
          )
      | inr last ↦
          (year, dayno, rw last, record { since = since; split = refl; within = ground arith })
    ]

-- Days before each month, from 0, in a year whose leap test is `leap`; then the days of the year.
abbrev pub starts : Bool → List ℕ
starts false = 0 ∷ 31 ∷ 59 ∷ 90 ∷ 120 ∷ 151 ∷ 181 ∷ 212 ∷ 243 ∷ 273 ∷ 304 ∷ 334 ∷ 365 ∷ []
starts true = 0 ∷ 31 ∷ 60 ∷ 91 ∷ 121 ∷ 152 ∷ 182 ∷ 213 ∷ 244 ∷ 274 ∷ 305 ∷ 335 ∷ 366 ∷ []

abbrev pub month_start : Bool → ℕ → ℕ
month_start leap mon = get_or (starts leap) mon 0

abbrev pub month_size : Bool → ℕ → ℕ
month_size leap mon = get_or (ytab leap) mon 0

month_start_check :
    (leap : Bool)
    → holds_below 12 (λ m. month_start leap (m + 1) == month_start leap m + month_size leap m)
      ≡ true
unfolding holds_below
month_start_check false = refl
month_start_check true = refl

pub month_start-suc :
    (leap : Bool) (m : ℕ)
    → m < 12
    → month_start leap (m + 1) ≡ month_start leap m + month_size leap m
month_start-suc leap m h = (==_iff _ _).0 (of-holds_below 12 _ m (month_start_check leap) h)

pub row_get : (row : List ℕ) (m : ℕ) → m < length row → get_elem? row m ≡ some (get_or row m 0)
row_get [] m h = absurd (omega arith)
row_get (x ∷ row) zero h = refl
row_get (x ∷ row) (suc m) h = row_get row m (omega arith)

length-ytab : (leap : Bool) → length (ytab leap) ≡ 12
length-ytab false = refl
length-ytab true = refl

pub record InMonth (leap : Bool) (yday mon rest : ℕ) : Type 0 where
  pub named : mon < 12
  pub split : month_start leap mon + rest ≡ yday
  pub within : rest < month_size leap mon

pub month_loop-InMonth :
    (leap : Bool) (fuel mon rest : ℕ)
    → fuel + mon ≡ 12
    → month_start leap mon + rest < month_start leap 12
    → (m r : ℕ) × (month_loop fuel (ytab leap) rest mon ≡ some (m, r))
      × InMonth leap (month_start leap mon + rest) m r
unfolding month_loop
month_loop-InMonth leap zero mon rest e h =
    let last : mon ≡ 12 = omega arith in absurd (past (rw last at h))
  where
    past : month_start leap 12 + rest < month_start leap 12 → ⊥
    past q = omega arith
month_loop-InMonth leap (suc fuel) mon rest e h =
    let read = row_get (ytab leap) mon (omega (arith, length-ytab leap)) in
    elim (Bool-cases (leb (month_size leap mon) rest)) [
      | inl more ↦
          let next = month_start-suc leap mon (omega arith) in
          let le = leb→le (month_size leap mon) rest more in
          let (m, r, run, at) =
            month_loop-InMonth leap fuel (mon + 1) (rest - month_size leap mon) (omega arith)
              (omega arith) in
          (
            m,
            r,
            rw (read, month_loop, more) run,
            record { named = at.named; split = omega (arith, at.split); within = at.within },
          )
      | inr last ↦ (
        mon,
        rest,
        rw (read, month_loop, last),
        record { named = omega arith; split = refl; within = ground arith },
      )
    ]
