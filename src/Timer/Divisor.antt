-- ===== src/Timer/Divisor.antt =====
-- timer.c: the divisor that `timer_init` sends.
use tark_os.Prelude.{ℕ, ◌+◌, ◌*◌, ◌/◌, ◌%◌, ◌<◌, ◌≤◌, ◌==◌, ◌≡◌, refl, ◌↔◌, false, arith, some}
use native.Mathlib.Nat.{div-add-mod', mod-lt}
use tark_os.Timer.{Timer, timer_init, pit_frequency}

large_enough : (f q r : ℕ) → q * f + r ≡ pit_frequency → r < f → (q < 65536) ↔ (19 ≤ f)
large_enough f q r e h = (λ small. grind arith, λ large. grind arith)

bytes_of : (q : ℕ) → (q / 256 % 256 * 256 + q % 256 ≡ q) ↔ (q < 65536)
bytes_of q = (λ e. omega arith, λ h. omega arith)

-- For a frequency above 0 the driver is set up, and the two bytes sent to the chip are the divisor
-- exactly if the frequency is at least 19 ticks a second.
pub timer_init-divisor :
    (s : Timer) (frequency : ℕ)
    → 0 < frequency
    → (t : Timer) × (timer_init s frequency ≡ some t)
      × ((t.high * 256 + t.low ≡ pit_frequency / frequency) ↔ (19 ≤ frequency))
unfolding timer_init
timer_init-divisor s frequency h =
    let q = pit_frequency / frequency in
    let bytes = bytes_of q in
    let size =
      large_enough frequency q (pit_frequency % frequency) (div-add-mod' pit_frequency frequency)
        (mod-lt pit_frequency h) in
    let some_left : (frequency == 0) ≡ false = ground arith in
    rw some_left (_, refl, (λ e. size.0 (bytes.0 e), λ large. bytes.1 (size.1 large)))
