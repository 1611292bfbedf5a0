-- ===== src/Timer.antt =====
-- kernel/drivers/timer.c: the ticks of the interval timer. The static variables are the record
-- `Timer`, with the two bytes that the chip was sent last. `HLT` waits for an interrupt, which is
-- the timer's or another; the interrupts to come are a list. A `Wait` is a round of a loop that
-- waits: the timer may tick before `HLT` is reached.
pub mod Sleep
pub mod Divisor
mod Tests
use tark_os.Prelude.{
  ℕ, zero, suc, ◌+◌, ◌*◌, ◌/◌, ◌%◌, ◌^◌, Bool, ltb, ◌==◌, if◌then◌else◌, Option, none, some, List,
  [], ◌∷◌,
}

pub record Timer : Type 0 where
  pub timer_ticks : ℕ
  pub timer_frequency : ℕ
  pub low : ℕ
  pub high : ℕ

abbrev pub pit_frequency : ℕ
pit_frequency = 1193182

unfoldable pub timer_handler : Timer → Timer
timer_handler s = record s { timer_ticks = (s.timer_ticks + 1) % 2 ^ 32 }

-- Nothing, where the code divides by 0. The registration of the handler is not shown.
unfoldable pub timer_init : Timer → ℕ → Option Timer
timer_init s frequency =
    let divisor = pit_frequency / frequency in
    if frequency == 0
    then none
    else some
        (record s { timer_frequency = frequency; low = divisor % 256; high = divisor / 256 % 256 })

unfoldable pub timer_get_uptime_seconds : Timer → ℕ
timer_get_uptime_seconds s = if s.timer_frequency == 0 then 0 else s.timer_ticks / s.timer_frequency

-- How often the timer ticks between the test of a loop and its `HLT`, and whether the interrupt that
-- ends `HLT` is the timer's.
pub record Wait : Type 0 where
  pub early : ℕ
  pub timer : Bool

unfoldable pub tick_times : ℕ → Timer → Timer
unfolding timer_handler
tick_times zero s = s
tick_times (suc n) s = tick_times n (timer_handler s)

abbrev pub hlt : Timer → Wait → Timer
hlt s w = let t = tick_times w.early s in if w.timer then timer_handler t else t

-- The loop of `timer_sleep_ticks`; nothing, where it still waits after the last interrupt.
unfoldable pub wait_until : Timer → ℕ → List Wait → Option Timer
unfolding timer_handler tick_times
wait_until s end [] = if ltb s.timer_ticks end then none else some s
wait_until s end (wait ∷ waits) =
    let rest = wait_until (hlt s wait) end waits in if ltb s.timer_ticks end then rest else some s

unfoldable pub timer_sleep_ticks : Timer → ℕ → List Wait → Option Timer
unfolding wait_until
timer_sleep_ticks s ticks waits = wait_until s ((s.timer_ticks + ticks) % 2 ^ 32) waits

unfoldable pub timer_sleep_ms : Timer → ℕ → List Wait → Option Timer
unfolding timer_sleep_ticks
timer_sleep_ms s ms waits =
    let ticks = ms * s.timer_frequency % 2 ^ 32 / 1000 in
    if s.timer_frequency == 0
    then some s
    else timer_sleep_ticks s (if ticks == 0 then 1 else ticks) waits
