-- ===== src/Timer.antt =====
-- kernel/timer.c: the ticks of the interval timer. A 64-bit counter is read with the interrupts off,
-- so a read is one value; the bytes that go to a port are returned with the port.
mod Tests
pub mod Uptime
use mars_os.Base.{
  ℕ, zero, suc, ◌+◌, ◌-◌, ◌*◌, ◌/◌, ◌%◌, ◌^◌, ◌≤◌, ◌<◌, ◌≡◌, Bool, true, false, List, [], ◌∷◌, ◌==◌,
  if◌then◌else◌,
}
use mars_os.Scheduler.{Scheduler, on_tick}

pub record Timer : Type 0 where
  pub timer_ticks : ℕ
  pub timer_hz : ℕ

abbrev pub pit_input_hz : ℕ
pit_input_hz = 1193182

abbrev pub divisor_of : ℕ → ℕ
divisor_of hz = let divisor = pit_input_hz / hz in if divisor == 0 then 1 else divisor

-- The state, and the writes to the ports.
pub init : ℕ → Timer × List (ℕ × ℕ)
init hz =
    let hz' = if hz == 0 then 100 else hz in
    let divisor = divisor_of hz' in
    (
      record { timer_ticks = 0; timer_hz = hz' },
      (0x43, 0x36) ∷ (0x40, divisor % 2 ^ 8) ∷ (0x40, divisor / 2 ^ 8 % 2 ^ 8) ∷ [],
    )

pub isr : Timer × Scheduler → Timer × Scheduler
isr (t, s) = (record t { timer_ticks = (t.timer_ticks + 1) % 2 ^ 64 }, on_tick s)

pub get_ticks : Timer → ℕ
get_ticks t = t.timer_ticks

pub get_ticks32 : Timer → ℕ
unfolding get_ticks
get_ticks32 t = get_ticks t % 2 ^ 32

pub get_hz : Timer → ℕ
get_hz t = t.timer_hz

pub get_uptime_seconds : Timer → ℕ
unfolding get_ticks32
get_uptime_seconds t = get_ticks32 t / t.timer_hz
