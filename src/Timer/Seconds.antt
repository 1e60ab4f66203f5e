-- ===== src/Timer/Seconds.antt =====
-- The seconds that the ticks of the real-time clock count.
use dionysus.Prelude.{
  ℕ, zero, suc, ◌+◌, ◌-◌, ◌*◌, ◌%◌, ◌^◌, ◌<◌, ◌≡◌, refl, ap, ◌∙◌, false, leb, arith,
}
use dionysus.Timer.{Rtc, rtc_callback, rtc_callbacks}

abbrev pub rtc : ℕ → ℕ → Rtc
rtc ticks time = record { rtc_tick = ticks; current_time = time }

rtc_callback-counts :
    (ticks time : ℕ)
    → 1 < ticks
    → ticks < 2 ^ 32
    → rtc_callback (rtc ticks time) ≡ rtc (ticks - 1) time
unfolding rtc_callback
rtc_callback-counts ticks time more fits =
    let n : (ticks + 2 ^ 32 - 1) % 2 ^ 32 ≡ ticks - 1 = omega arith in
    let l : leb (ticks - 1) 0 ≡ false = ground arith in rw (n, l) refl

rtc_callback-second :
    (time : ℕ) → time + 1 < 2 ^ 32 → rtc_callback (rtc 1 time) ≡ rtc 4096 (time + 1)
unfolding rtc_callback
rtc_callback-second time fits = ap (rtc 4096) (omega arith)

rtc_callbacks-counts :
    (n ticks time : ℕ)
    → n < ticks
    → ticks < 2 ^ 32
    → rtc_callbacks n (rtc ticks time) ≡ rtc (ticks - n) time
unfolding rtc_callbacks
rtc_callbacks-counts zero ticks time more fits = ap (λ (k : ℕ). rtc k time) (omega arith)
rtc_callbacks-counts (suc n) ticks time more fits =
    ap (rtc_callbacks n) (rtc_callback-counts ticks time (omega arith) fits)
    ∙ rtc_callbacks-counts n (ticks - 1) time (omega arith) (omega arith)
    ∙ ap (λ (k : ℕ). rtc k time) (omega arith)

rtc_callbacks-add :
    (m n : ℕ) (r : Rtc) → rtc_callbacks (m + n) r ≡ rtc_callbacks n (rtc_callbacks m r)
unfolding rtc_callbacks
rtc_callbacks-add zero n r = let e : 0 + n ≡ n = omega arith in ap (λ (k : ℕ). rtc_callbacks k r) e
rtc_callbacks-add (suc m) n r =
    let e : suc m + n ≡ suc (m + n) = omega arith in
    ap (λ (k : ℕ). rtc_callbacks k r) e ∙ rtc_callbacks-add m n (rtc_callback r)

rtc_callbacks-suc : (n : ℕ) (r : Rtc) → rtc_callbacks (n + 1) r ≡ rtc_callback (rtc_callbacks n r)
unfolding rtc_callbacks
rtc_callbacks-suc n r = rtc_callbacks-add n 1 r

rtc_callbacks-second :
    (ticks time : ℕ)
    → ticks < 2 ^ 32 - 1
    → time + 1 < 2 ^ 32
    → rtc_callbacks (ticks + 1) (rtc (ticks + 1) time) ≡ rtc 4096 (time + 1)
rtc_callbacks-second ticks time small fits =
    rtc_callbacks-suc ticks (rtc (ticks + 1) time)
    ∙ ap rtc_callback (
        rtc_callbacks-counts ticks (ticks + 1) time (omega arith) (omega arith)
        ∙ ap (λ (k : ℕ). rtc k time) (omega arith))
    ∙ rtc_callback-second time fits

-- Each 4096 ticks of the real-time clock from a full count are one second more, as long as the seconds
-- fit in 32 bits.
pub rtc_callbacks-seconds :
    (k time : ℕ)
    → time + k < 2 ^ 32
    → rtc_callbacks (k * 4096) (rtc 4096 time) ≡ rtc 4096 (time + k)
unfolding rtc_callbacks
rtc_callbacks-seconds zero time fits = ap (rtc 4096) (omega arith)
rtc_callbacks-seconds (suc k) time fits =
    let e : suc k * 4096 ≡ 4096 + k * 4096 = omega arith in
    ap (λ (n : ℕ). rtc_callbacks n (rtc 4096 time)) e
    ∙ rtc_callbacks-add 4096 (k * 4096) (rtc 4096 time)
    ∙ ap (rtc_callbacks (k * 4096)) (rtc_callbacks-second 4095 time (omega arith) (omega arith))
    ∙ rtc_callbacks-seconds k (time + 1) (omega arith)
    ∙ ap (rtc 4096) (omega arith)
