-- ===== src/Time/Examples.antt =====
-- The theorems about kernel/time.c at concrete times, and tests of both functions.
use dionysus.Prelude.{◌≡◌, refl, some, arith}
use dionysus.Time.{Tm, gmtime, mktime, year_loop, month_loop, year_size, leap_year}
use dionysus.Time.Split.{Splits, gmtime-Splits}
use dionysus.Time.RoundTrip.{mktime-gmtime}

-- 2015-03-14 09:26:53, a Saturday
abbrev pi_day : Tm
pi_day = record {
  tm_sec = 53;
  tm_min = 26;
  tm_hour = 9;
  tm_mday = 14;
  tm_mon = 2;
  tm_year = 115;
  tm_wday = 6;
  tm_yday = 72;
  tm_isdst = 0;
}

gmtime-pi_day : gmtime 1426325213 ≡ some pi_day
unfolding gmtime year_loop month_loop year_size leap_year
gmtime-pi_day = refl

mktime-pi_day : mktime pi_day ≡ some 1426325213
unfolding mktime
mktime-pi_day = refl

mktime-gmtime_example : (tm : Tm) × (gmtime 1426325213 ≡ some tm) × (mktime tm ≡ some 1426325213)
mktime-gmtime_example = mktime-gmtime 1426325213 (omega arith)

gmtime-Splits_example : (tm : Tm) × (gmtime 1426325213 ≡ some tm) × Splits 1426325213 tm
gmtime-Splits_example = gmtime-Splits 1426325213
