-- ===== src/Timer/Examples.antt =====
-- A task that sleeps from tick 100 to 103, and a minute of the real-time clock.
use dionysus.Prelude.{ℕ, ◌+◌, ◌-◌, ◌<◌, ◌≡◌, true, false, [], ◌∷◌, arith}
use dionysus.Timer.{Timer, Clock, sleep_until, sleep_ticks}
use dionysus.Timer.Sleep.{at_tick, sleep_until-wakes}

abbrev alarm : Timer
alarm = record { address = 16; expires = 103 }

abbrev other : Timer
other = record { address = 32; expires = 102 }

abbrev clock : Clock
clock = record { tick = 100; timers = other ∷ [] }

sleep_until-wakes_example :
    ((n : ℕ) → 100 + n < 103 → (sleep_ticks n alarm (sleep_until true alarm clock)).0 ≡ true)
    × (sleep_ticks (103 - 100) alarm (sleep_until true alarm clock) ≡ (false, at_tick 103 clock))
sleep_until-wakes_example =
    sleep_until-wakes alarm clock (omega arith) (omega arith) ((λ h. absurd (omega arith)), tt)
