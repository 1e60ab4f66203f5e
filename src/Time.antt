-- ===== src/Time.antt =====
-- kernel/time.c: `mktime` and `gmtime`. A `time_t` is a 32-bit word. The fields of a `struct tm`
-- are natural numbers, which they are in every `struct tm` that the kernel builds; `tm_year - 70`
-- may still be negative. Products of `int` are taken modulo 2 ^ 32, as the target computes them.
-- The two loops of `gmtime` run on fuel, the day number and the twelve months.
pub mod Calendar
pub mod Split
pub mod RoundTrip
mod Examples
use dionysus.Prelude.{
  ℕ, zero, suc, ◌+◌, ◌-◌, ◌*◌, ◌/◌, ◌%◌, ◌^◌, Bool, true, false, not, ◌&&◌, ◌||◌, Option, none,
  some, List, [], ◌∷◌, ltb, leb, ◌==◌, if◌then◌else◌, get_elem?,
}
use dionysus.Prelude.Int.{ℤ, pos, negsuc, sub_ℕ}

pub record Tm : Type 0 where
  pub tm_sec : ℕ
  pub tm_min : ℕ
  pub tm_hour : ℕ
  pub tm_mday : ℕ
  pub tm_mon : ℕ
  pub tm_year : ℕ
  pub tm_wday : ℕ
  pub tm_yday : ℕ
  pub tm_isdst : ℕ

abbrev pub minute : ℕ
minute = 60

abbrev pub hour : ℕ
hour = 60 * minute

abbrev pub day : ℕ
day = 24 * hour

abbrev pub year_seconds : ℕ
year_seconds = 365 * day

abbrev pub u32 : ℕ → ℕ
u32 n = n % 2 ^ 32

-- `-n` in a 32-bit word
abbrev pub neg32 : ℕ → ℕ
neg32 n = (2 ^ 32 - n % 2 ^ 32) % 2 ^ 32

-- LEAPYEAR
pub leap_year : ℕ → Bool
leap_year year = year % 4 == 0 && (not (year % 100 == 0) || year % 400 == 0)

-- YEARSIZE
pub year_size : ℕ → ℕ
unfolding leap_year
year_size year = if leap_year year then 366 else 365

-- The table `month` of a leap year.
abbrev pub month : List ℕ
month =
    0
    ∷ day * 31
    ∷ day * (31 + 29)
    ∷ day * (31 + 29 + 31)
    ∷ day * (31 + 29 + 31 + 30)
    ∷ day * (31 + 29 + 31 + 30 + 31)
    ∷ day * (31 + 29 + 31 + 30 + 31 + 30)
    ∷ day * (31 + 29 + 31 + 30 + 31 + 30 + 31)
    ∷ day * (31 + 29 + 31 + 30 + 31 + 30 + 31 + 31)
    ∷ day * (31 + 29 + 31 + 30 + 31 + 30 + 31 + 31 + 30)
    ∷ day * (31 + 29 + 31 + 30 + 31 + 30 + 31 + 31 + 30 + 31)
    ∷ day * (31 + 29 + 31 + 30 + 31 + 30 + 31 + 31 + 30 + 31 + 30)
    ∷ []

-- The rows of `_ytab`.
abbrev pub ytab : Bool → List ℕ
ytab false = 31 ∷ 28 ∷ 31 ∷ 30 ∷ 31 ∷ 30 ∷ 31 ∷ 31 ∷ 30 ∷ 31 ∷ 30 ∷ 31 ∷ []
ytab true = 31 ∷ 29 ∷ 31 ∷ 30 ∷ 31 ∷ 30 ∷ 31 ∷ 31 ∷ 30 ∷ 31 ∷ 30 ∷ 31 ∷ []

-- `YEAR * year + DAY * ((year + 1) / 4)`; `/` rounds towards zero.
abbrev pub year_offset : ℤ → ℕ
year_offset (pos y) = u32 (year_seconds * y + day * ((y + 1) / 4))
year_offset (negsuc k) = neg32 (year_seconds * (k + 1) + day * (k / 4))

-- `(year + 2) % 4`, as a truth value.
abbrev pub not_fourth : ℤ → Bool
not_fourth (pos y) = not ((y + 2) % 4 == 0)
not_fourth (negsuc k) = not ((k + 3) % 4 == 0)

-- The body of `mktime`, from `year` and the entry `start` of `month`.
count_seconds : ℤ → ℕ → Tm → ℕ
count_seconds year start tp =
    let res₀ = u32 (year_offset year + start) in
    let res₁ = if ltb 1 tp.tm_mon && not_fourth year then u32 (res₀ + neg32 day) else res₀ in
    u32 (
      res₁
      + u32 (day * (tp.tm_mday + (2 ^ 32 - 1)))
      + hour * tp.tm_hour
      + minute * tp.tm_min
      + tp.tm_sec)

-- `none` is the read of `month` past its end.
pub mktime : Tm → Option ℕ
unfolding count_seconds
mktime tp = elim (get_elem? month tp.tm_mon) [
  | none ↦ none
  | some start ↦ some (count_seconds (sub_ℕ tp.tm_year 70) start tp)
]

-- `while (dayno >= YEARSIZE(year))`: the year and the day in it.
pub year_loop : ℕ → ℕ → ℕ → Option (ℕ × ℕ)
year_loop zero dayno year = none
year_loop (suc fuel) dayno year =
    let later = year_loop fuel (dayno - year_size year) (year + 1) in
    if leb (year_size year) dayno then later else some (year, dayno)

-- `while (dayno >= _ytab[LEAPYEAR(year)][retp->tm_mon])`: the month and the day in it.
pub month_loop : ℕ → List ℕ → ℕ → ℕ → Option (ℕ × ℕ)
month_loop zero row dayno mon = none
month_loop (suc fuel) row dayno mon = elim (get_elem? row mon) [
  | none ↦ none
  | some size ↦
      let later = month_loop fuel row (dayno - size) (mon + 1) in
      if leb size dayno then later else some (mon, dayno)
]

abbrev fill : ℕ → ℕ → ℕ → ℕ → Option (ℕ × ℕ) → Option Tm
fill clock weekday year yday none = none
fill clock weekday year yday (some (mon, rest)) = some (record {
  tm_sec = clock % minute;
  tm_min = clock % hour / minute;
  tm_hour = clock / hour;
  tm_mday = rest + 1;
  tm_mon = mon;
  tm_year = year - 1900;
  tm_wday = weekday;
  tm_yday = yday;
  tm_isdst = 0;
})

-- `none` is a loop without end, or a read past the end of a row.
pub gmtime : ℕ → Option Tm
gmtime time =
    let clock = time % day in
    let dayno = time / day in
    elim (year_loop (dayno + 1) dayno 1970) [
      | none ↦ none
      | some (year, yday) ↦
          fill clock ((dayno + 4) % 7) year yday (month_loop 12 (ytab (leap_year year)) yday 0)
    ]
