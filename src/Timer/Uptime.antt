-- ===== src/Timer/Uptime.antt =====
-- The uptime by kernel/timer.c, and the divisor that it gives the device.
use mars_os.Base.{ℕ, zero, suc, ◌+◌, ◌/◌, ◌%◌, ◌^◌, ◌<◌, ◌≡◌, refl, ◌==◌, if◌then◌else◌, arith}
use mars_os.Scheduler.{Scheduler, on_tick}
use mars_os.Timer.{Timer, init, isr, get_hz, get_ticks, get_ticks32, get_uptime_seconds}

-- A number of the timer's interrupts, one after the other.
unfoldable pub interrupts : ℕ → Timer × Scheduler → Timer × Scheduler
unfolding isr
interrupts zero w = w
interrupts (suc n) w = interrupts n (isr w)

interrupts-ticks :
    (n : ℕ) (t : Timer) (s : Scheduler)
    → t.timer_ticks < 2 ^ 64
    → ((interrupts n (t, s)).0.timer_ticks ≡ (t.timer_ticks + n) % 2 ^ 64)
      × ((interrupts n (t, s)).0.timer_hz ≡ t.timer_hz)
unfolding interrupts isr
interrupts-ticks zero t s h = (omega arith, refl)
interrupts-ticks (suc n) t s h =
    let (ticks, hz) =
      interrupts-ticks n (record t { timer_ticks = (t.timer_ticks + 1) % 2 ^ 64 }) (on_tick s)
        (omega arith) in
    (omega (arith, ticks), hz)

-- After `n` interrupts of a timer that was started at `hz` a second (0 stands for 100), the counter
-- is `n` in 64 bits, and the uptime is the number of whole seconds in the low 32 bits of it.
pub uptime-interrupts :
    (hz n : ℕ) (s : Scheduler)
    → let rate = if hz == 0 then 100 else hz in
      let t = (interrupts n ((init hz).0, s)).0 in
      (get_ticks t ≡ n % 2 ^ 64) × (get_hz t ≡ rate) × (get_uptime_seconds t ≡ n % 2 ^ 32 / rate)
unfolding init get_ticks get_ticks32 get_hz get_uptime_seconds
uptime-interrupts hz n s =
    let (ticks, rate) = interrupts-ticks n (init hz).0 s (omega arith) in
    let low : (interrupts n ((init hz).0, s)).0.timer_ticks % 2 ^ 32 ≡ n % 2 ^ 32 =
      omega (arith, ticks) in
    (omega (arith, ticks), rate, rw low (rw rate refl))
