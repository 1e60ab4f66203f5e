-- ===== src/Timer/Sleep.antt =====
-- A task that sleeps until a tick is woken at that tick.
use dionysus.Prelude.{
  ℕ, zero, suc, ◌+◌, ◌-◌, ◌%◌, ◌^◌, ◌<◌, ◌≡◌, ◌≢◌, refl, ap, ◌∙◌, Bool, true, false, List, [], ◌∷◌,
  ◌++◌, leb, ◌==◌, arith, Bool-cases, inl, inr,
}
use dionysus.Timer.{
  Timer, Clock, due, pit_callback, add_timer, remove_timer, del_timer, sleep_until, sleep_tick,
  sleep_ticks,
}

due-append :
    (tick : ℕ) (ts : List Timer) (t : Timer) → t.expires ≡ tick → due tick (ts ++ t ∷ []) ≡ true
unfolding due
due-append tick [] t e = let h : t.expires == tick ≡ true = ground arith in rw h refl
due-append tick (s ∷ ts) t e = elim (Bool-cases (s.expires == tick)) [
  | inl now ↦ rw now refl
  | inr other ↦ rw other (due-append tick ts t e)
]

abbrev pub at_tick : ℕ → Clock → Clock
at_tick n c = record c { tick = n }

-- a tick that the task sleeps through
sleep_tick-early :
    (t : Timer) (c : Clock)
    → c.tick + 1 < t.expires
    → t.expires < 2 ^ 32
    → sleep_tick t (true, c) ≡ (true, at_tick (c.tick + 1) c)
unfolding sleep_tick pit_callback
sleep_tick-early t c early fits =
    let n : (c.tick + 1) % 2 ^ 32 ≡ c.tick + 1 = omega arith in
    let l : leb t.expires (c.tick + 1) ≡ false = ground arith in
    rw (n, l)
      (elim (Bool-cases (due (c.tick + 1) c.timers)) [
        | inl now ↦ rw now refl
        | inr other ↦ rw other refl
      ])

sleep_ticks-early :
    (n : ℕ) (t : Timer) (c : Clock)
    → c.tick + n < t.expires
    → t.expires < 2 ^ 32
    → sleep_ticks n t (true, c) ≡ (true, at_tick (c.tick + n) c)
unfolding sleep_ticks
sleep_ticks-early zero t c early fits = ap (λ (k : ℕ). (true, at_tick k c)) (omega arith)
sleep_ticks-early (suc n) t c early fits =
    ap (sleep_tick t) (sleep_ticks-early n t c (omega arith) fits)
    ∙ sleep_tick-early t (at_tick (c.tick + n) c) (omega arith) fits
    ∙ ap (λ (k : ℕ). (true, at_tick k c)) (omega arith)

-- an address that no timer has
abbrev pub IsFresh : ℕ → List Timer → Type 0
IsFresh address [] = Unit
IsFresh address (t ∷ ts) = (t.address ≢ address) × IsFresh address ts

remove_timer-append :
    (ts : List Timer) (t : Timer)
    → IsFresh t.address ts
    → remove_timer t.address (ts ++ t ∷ []) ≡ ts
unfolding remove_timer
remove_timer-append [] t fresh = let h : t.address == t.address ≡ true = ground arith in rw h refl
remove_timer-append (s ∷ ts) t (other, fresh) =
    let h : s.address == t.address ≡ false = ground arith in
    rw (h, remove_timer-append ts t fresh) refl

-- the tick that wakes the task
sleep_tick-wakes :
    (t : Timer) (c : Clock)
    → c.tick + 1 ≡ t.expires
    → t.expires < 2 ^ 32
    → IsFresh t.address c.timers
    → sleep_tick t (true, record c { timers = c.timers ++ t ∷ [] }) ≡ (false, at_tick t.expires c)
unfolding sleep_tick pit_callback del_timer
sleep_tick-wakes t c e fits fresh =
    let n : (c.tick + 1) % 2 ^ 32 ≡ t.expires = omega arith in
    let l : leb t.expires t.expires ≡ true = ground arith in
    rw (n, l, due-append t.expires c.timers t refl, remove_timer-append c.timers t fresh) refl

module _ (t : Timer) (c : Clock) (later : c.tick < t.expires) (fits : t.expires < 2 ^ 32) where
  added : Clock
  added = record c { timers = c.timers ++ t ∷ [] }

  asleep_at :
      (n : ℕ)
      → c.tick + n < t.expires
      → sleep_ticks n t (sleep_until true t c) ≡ (true, at_tick (c.tick + n) added)
  unfolding sleep_until add_timer added
  asleep_at n h =
      let l : leb t.expires c.tick ≡ false = ground arith in
      rw l (sleep_ticks-early n t added h fits)

-- A task that asks to sleep until a later tick, with a timer of its own, sleeps through every tick before
-- that one and is woken at it, and its timer is gone then, if no tick comes between its test of the tick and
-- its falling asleep, and it runs before the tick after the one that wakes it.
pub sleep_until-wakes :
    (t : Timer) (c : Clock)
    → c.tick < t.expires
    → t.expires < 2 ^ 32
    → IsFresh t.address c.timers
    → ((n : ℕ) → c.tick + n < t.expires → (sleep_ticks n t (sleep_until true t c)).0 ≡ true)
      × (sleep_ticks (t.expires - c.tick) t (sleep_until true t c) ≡ (false, at_tick t.expires c))
unfolding sleep_ticks added
sleep_until-wakes t c later fits fresh =
    let n = t.expires - c.tick - 1 in
    let e : t.expires - c.tick ≡ suc n = omega arith in
    (
      λ k h. ap (λ (s : Bool × Clock). s.0) (asleep_at t c later fits k h),
      rw e (
          ap (sleep_tick t) (asleep_at t c later fits n (omega arith))
          ∙ sleep_tick-wakes t (at_tick (c.tick + n) c) (omega arith) fits fresh),
    )

abbrev no_timers : ℕ → Clock
no_timers n = record { tick = n; timers = [] }

abbrev the_clock : ℕ → List Timer → Clock
the_clock n ts = record { tick = n; timers = ts }

sleep_tick-no_timers :
    (t : Timer) (k : ℕ) → sleep_tick t (true, no_timers k) ≡ (true, no_timers ((k + 1) % 2 ^ 32))
unfolding sleep_tick pit_callback due
sleep_tick-no_timers t k = refl

sleep_ticks-no_timers :
    (n : ℕ) (t : Timer) (m : ℕ)
    → (k : ℕ) × (sleep_ticks n t (true, no_timers m) ≡ (true, no_timers k))
unfolding sleep_ticks
sleep_ticks-no_timers zero t m = (m, refl)
sleep_ticks-no_timers (suc n) t m =
    let (k, e) = sleep_ticks-no_timers n t m in
    ((k + 1) % 2 ^ 32, ap (sleep_tick t) e ∙ sleep_tick-no_timers t k)

not_added :
    (t : Timer) (c : Clock)
    → c.tick < t.expires
    → c.timers ≡ []
    → sleep_until false t c ≡ (true, no_timers c.tick)
unfolding sleep_until add_timer
not_added t c later none_there =
    let l : leb t.expires c.tick ≡ false = ground arith in
    rw l (ap (λ (ts : List Timer). (true, the_clock c.tick ts)) none_there)

-- A task whose timer cannot be added while there is no other timer sleeps for ever: the result of
-- `add_timer` is not used.
pub sleep_until-forever :
    (n : ℕ) (t : Timer) (c : Clock)
    → c.tick < t.expires
    → c.timers ≡ []
    → (sleep_ticks n t (sleep_until false t c)).0 ≡ true
sleep_until-forever n t c later none_there =
    let (k, e) = sleep_ticks-no_timers n t c.tick in
    ap (λ (s : Bool × Clock). (sleep_ticks n t s).0) (not_added t c later none_there)
    ∙ ap (λ (s : Bool × Clock). s.0) e
