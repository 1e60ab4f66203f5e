-- ===== src/Time/Split.antt =====
-- What `gmtime` returns: the civil date and the clock of every time.
use dionysus.Prelude.{
  ℕ, ◌+◌, ◌-◌, ◌*◌, ◌/◌, ◌%◌, ◌≤◌, ◌<◌, ◌≡◌, refl, Bool, true, false, some, arith,
}
use dionysus.Time.{Tm, minute, hour, day, leap_year, year_size, gmtime}
use dionysus.Time.Calendar.{
  days_before, month_start, InYear, InMonth, year_loop-InYear, month_loop-InMonth,
}

-- `tm` is the date and the clock of `time`, by the Gregorian calendar.
pub record Splits (time : ℕ) (tm : Tm) : Type 0 where
  pub in_year : InYear (time / day) (tm.tm_year + 1900) tm.tm_yday
  pub in_month : InMonth (leap_year (tm.tm_year + 1900)) tm.tm_yday tm.tm_mon (tm.tm_mday - 1)
  pub mday_pos : 1 ≤ tm.tm_mday
  pub clock : hour * tm.tm_hour + minute * tm.tm_min + tm.tm_sec ≡ time % day
  pub hours : tm.tm_hour < 24
  pub minutes : tm.tm_min < 60
  pub seconds : tm.tm_sec < 60
  pub weekday : tm.tm_wday ≡ (time / day + 4) % 7

year_size-start : (y : ℕ) → year_size y ≡ month_start (leap_year y) 12
unfolding year_size
year_size-start y = ground arith

module _ (time : ℕ) {year yday mon rest : ℕ} (in_year : InYear (time / day) year yday)
    (in_month : InMonth (leap_year year) yday mon rest) where
  abbrev date : Tm
  date = record {
    tm_sec = time % day % minute;
    tm_min = time % day % hour / minute;
    tm_hour = time % day / hour;
    tm_mday = rest + 1;
    tm_mon = mon;
    tm_year = year - 1900;
    tm_wday = (time / day + 4) % 7;
    tm_yday = yday;
    tm_isdst = 0;
  }

  date-Splits : Splits time date
  date-Splits =
      let back : year - 1900 + 1900 ≡ year = omega (arith, in_year.since) in
      let kept : rest + 1 - 1 ≡ rest = omega arith in
      record {
        in_year = rw back in_year;
        in_month = rw (back, kept) in_month;
        mday_pos = omega arith;
        clock = omega arith;
        hours = omega arith;
        minutes = omega arith;
        seconds = omega arith;
        weekday = refl;
      }

month_start_zero : (leap : Bool) (d : ℕ) → month_start leap 0 + d ≡ d
month_start_zero false d = omega arith
month_start_zero true d = omega arith

-- `gmtime` always returns, and what it returns is the date and the clock of its argument.
pub gmtime-Splits : (time : ℕ) → (tm : Tm) × (gmtime time ≡ some tm) × Splits time tm
unfolding gmtime
gmtime-Splits time =
    let start : days_before 1970 + time / day ≡ time / day = omega arith in
    let (y, d, run, at) =
      year_loop-InYear (time / day + 1) (time / day) 1970 (omega arith) (omega arith) in
    let in_year : InYear (time / day) y d = rw start at at in
    let first : month_start (leap_year y) 0 + d ≡ d = month_start_zero (leap_year y) d in
    let (m, r, walk, found) =
      month_loop-InMonth (leap_year y) 12 0 d (omega arith)
        (rw first (omega (arith, year_size-start y, in_year.within))) in
    (
      date time in_year (rw first at found),
      rw (run, gmtime) (rw (walk, gmtime)),
      date-Splits time in_year (rw first at found),
    )
