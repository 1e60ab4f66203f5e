-- ===== src/Timer.antt =====
-- kernel/timer.c: the ticks of the two clocks, the timers, and a task that sleeps until a tick. Every
-- timer's callback is `wake_timers`, the only one in the kernel.
pub mod Sleep
pub mod Seconds
mod Examples
use dionysus.Prelude.{
  ℕ, zero, suc, ◌+◌, ◌-◌, ◌*◌, ◌%◌, ◌^◌, Bool, true, false, not, ◌&&◌, List, [], ◌∷◌, ◌++◌, ltb,
  leb, ◌==◌, if◌then◌else◌,
}
use dionysus.Prelude.Int.{ℤ, pos, negsuc}

-- struct timer, with its address
pub record Timer : Type 0 where
  pub address : ℕ
  pub expires : ℕ

pub record Clock : Type 0 where
  pub tick : ℕ
  pub timers : List Timer

-- whether the loop over the timers calls a callback
pub due : (tick : ℕ) → List Timer → Bool
due tick [] = false
due tick (t ∷ ts) = if t.expires == tick then true else due tick ts

-- the clock after it, and whether it has woken the queue
pub pit_callback : Clock → Clock × Bool
unfolding due
pit_callback c = let tick = (c.tick + 1) % 2 ^ 32 in (record c { tick = tick }, due tick c.timers)

pub add_timer : (alloc : Bool) → Timer → Clock → ℤ × Clock
add_timer alloc t c =
    if alloc then (pos 0, record c { timers = c.timers ++ t ∷ [] }) else (negsuc 0, c)

pub remove_timer : (address : ℕ) → List Timer → List Timer
remove_timer address [] = []
remove_timer address (t ∷ ts) =
    let rest = remove_timer address ts in if t.address == address then ts else t ∷ rest

pub del_timer : (address : ℕ) → Clock → Clock
unfolding remove_timer
del_timer address c = record c { timers = remove_timer address c.timers }

-- `sleep_until` up to its first sleep: whether the task sleeps. The result of `add_timer` is not used. The test
-- of the tick and the falling asleep are one step; the source has interrupts on between them, and a timer that
-- fires there wakes no one.
pub sleep_until : (alloc : Bool) → Timer → Clock → Bool × Clock
unfolding add_timer
sleep_until alloc t c = if leb t.expires c.tick then (false, c) else (true, (add_timer alloc t c).1)

-- A tick while the task may sleep. A task that is woken tests the tick before the next one comes, and when
-- it has come takes its timer off.
pub sleep_tick : Timer → Bool × Clock → Bool × Clock
unfolding pit_callback del_timer
sleep_tick t (asleep, c) =
    let (c', wakes) = pit_callback c in
    if asleep && wakes && leb t.expires c'.tick
    then (false, del_timer t.address c')
    else (asleep, c')

pub sleep_ticks : ℕ → Timer → Bool × Clock → Bool × Clock
unfolding sleep_tick
sleep_ticks zero t s = s
sleep_ticks (suc n) t s = sleep_tick t (sleep_ticks n t s)

-- `rtc_tick` and `current_time`
pub record Rtc : Type 0 where
  pub rtc_tick : ℕ
  pub current_time : ℕ

-- what `rtc_callback` does to the time
pub rtc_callback : Rtc → Rtc
rtc_callback r =
    let left = (r.rtc_tick + 2 ^ 32 - 1) % 2 ^ 32 in
    if leb left 0
    then record { rtc_tick = 4096; current_time = (r.current_time + 1) % 2 ^ 32 }
    else record r { rtc_tick = left }

pub rtc_callbacks : ℕ → Rtc → Rtc
unfolding rtc_callback
rtc_callbacks zero r = r
rtc_callbacks (suc n) r = rtc_callbacks n (rtc_callback r)
