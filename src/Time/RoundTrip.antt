-- ===== src/Time/RoundTrip.antt =====
-- `mktime` after `gmtime`: the identity until the end of February 2100, a day late from then on.
use dionysus.Prelude.{
  ℕ, ◌+◌, ◌-◌, ◌*◌, ◌/◌, ◌^◌, ◌≤◌, ◌<◌, ◌≡◌, refl, Bool, true, false, ◌&&◌, some, arith, ◌==◌,
  ==_iff, ltb, if◌then◌else◌, get_elem?, get_or, ◌∙◌, ap,
}
use dionysus.Prelude.Int.{pos, sub_ℕ}
use dionysus.Prelude.Table.{holds_below, of-holds_below}
use dionysus.Time.{
  Tm, minute, hour, day, month, leap_year, year_size, gmtime, mktime, u32, not_fourth,
  count_seconds,
}
use dionysus.Time.Calendar.{month_start, row_get, InYear, InMonth}
use dionysus.Time.Split.{Splits, gmtime-Splits}

month_check : holds_below 12 (λ m. get_or month m 0 == day * month_start true m) ≡ true
unfolding holds_below
month_check = refl

month_get : (mon : ℕ) → mon < 12 → get_elem? month mon ≡ some (day * month_start true mon)
month_get mon h =
    row_get month mon h ∙ ap some ((==_iff _ _).0 (of-holds_below 12 _ mon month_check h))

-- `mktime` subtracts a day for the 29th of February in three years out of four.
abbrev correction : ℕ → ℕ → ℕ
correction y mon = if ltb 1 mon && not_fourth (pos y) then 1 else 0

-- The days that `mktime` counts, `y` years after 1970.
abbrev counted_days : ℕ → Tm → ℕ
counted_days y tm =
    365 * y + (y + 1) / 4 + month_start true tm.tm_mon + (tm.tm_mday - 1) - correction y tm.tm_mon

count_seconds_lem :
    (tm : Tm) (y : ℕ)
    → tm.tm_mon < 12
    → 1 ≤ tm.tm_mday
    → count_seconds (pos y) (day * month_start true tm.tm_mon) tm
      ≡ u32 (day * counted_days y tm + (hour * tm.tm_hour + minute * tm.tm_min + tm.tm_sec))
unfolding count_seconds
count_seconds_lem tm y named mday = ground arith

mktime_lem :
    (tm : Tm) (y : ℕ)
    → tm.tm_year ≡ y + 70
    → tm.tm_mon < 12
    → 1 ≤ tm.tm_mday
    → mktime tm
      ≡ some (u32 (day * counted_days y tm + (hour * tm.tm_hour + minute * tm.tm_min + tm.tm_sec)))
unfolding mktime
mktime_lem tm y e named mday =
    let base : sub_ℕ tm.tm_year 70 ≡ pos y = ground arith in
    rw (month_get tm.tm_mon named, mktime)
      (ap (λ z. some (count_seconds z (day * month_start true tm.tm_mon) tm)) base
        ∙ ap some (count_seconds_lem tm y named mday))

month_shift_check :
    (leap : Bool)
    → holds_below 12 (λ m.
      month_start true m == month_start leap m + (if leap then 0 else if ltb 1 m then 1 else 0))
      ≡ true
unfolding holds_below
month_shift_check false = refl
month_shift_check true = refl

-- A leap year's months start a day later from March on.
month_shift :
    (leap : Bool) (mon : ℕ)
    → mon < 12
    → month_start true mon ≡ month_start leap mon + (if leap then 0 else if ltb 1 mon then 1 else 0)
month_shift leap mon h = (==_iff _ _).0 (of-holds_below 12 _ mon (month_shift_check leap) h)

-- The first of March 2100, in days since 1970.
abbrev pub skipped_day : ℕ
skipped_day = 47541

late : ℕ → ℕ
late days = if ltb days skipped_day then 0 else 1

counted_days_lem :
    (tm : Tm) (days y rest : ℕ)
    → y + 1970 ≡ tm.tm_year + 1900
    → tm.tm_mday ≡ rest + 1
    → days < 49711
    → InYear days (y + 1970) tm.tm_yday
    → InMonth (leap_year (y + 1970)) tm.tm_yday tm.tm_mon rest
    → counted_days y tm ≡ days + late days
unfolding leap_year year_size late
counted_days_lem tm days y rest e d h in_year in_month =
    ground (arith, month_shift (leap_year (y + 1970)) tm.tm_mon)

mktime-Splits :
    (time : ℕ) (tm : Tm)
    → time < 2 ^ 32
    → Splits time tm
    → mktime tm ≡ some (u32 (time + day * late (time / day)))
mktime-Splits time tm bound s =
    let y = tm.tm_year - 70 in
    let shifted : y + 1970 ≡ tm.tm_year + 1900 = omega (arith, s.in_year.since) in
    let counted =
      counted_days_lem tm (time / day) y (tm.tm_mday - 1) shifted (omega (arith, s.mday_pos))
        (omega arith) (rw shifted s.in_year) (rw shifted s.in_month) in
    mktime_lem tm y (omega arith) s.in_month.named s.mday_pos
    ∙ ap some (rw (counted, s.clock) (omega arith))

-- Until the end of February 2100 `mktime` turns the date that `gmtime` returns back into its time.
pub mktime-gmtime :
    (time : ℕ)
    → time < day * skipped_day
    → (tm : Tm) × (gmtime time ≡ some tm) × (mktime tm ≡ some time)
unfolding late
mktime-gmtime time h =
    let (tm, run, s) = gmtime-Splits time in
    (tm, run, mktime-Splits time tm (omega arith) s ∙ ap some (ground arith))

-- From the first of March 2100 on, as far as 32 bits go, `mktime` returns a time one day late,
-- modulo 2 ^ 32: it takes 2100 for a leap year, which `gmtime` does not.
pub mktime-gmtime_late :
    (time : ℕ)
    → day * skipped_day ≤ time
    → time < 2 ^ 32
    → (tm : Tm) × (gmtime time ≡ some tm) × (mktime tm ≡ some (u32 (time + day)))
unfolding late
mktime-gmtime_late time h bound =
    let (tm, run, s) = gmtime-Splits time in
    (tm, run, mktime-Splits time tm bound s ∙ ap some (ground arith))
