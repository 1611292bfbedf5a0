-- ===== src/Timer/Tests.antt =====
-- Runs of the timer.
use tark_os.Prelude.{◌+◌, ◌≡◌, ◌≤◌, refl, arith, true, false, some, List, [], ◌∷◌}
use tark_os.Timer.{Timer, Wait, timer_sleep_ticks}
use tark_os.Timer.Sleep.{count_ticks, AtMost, timer_sleep_ticks-ends}

abbrev started : Timer
started = record { timer_ticks = 7; timer_frequency = 100; low = 0x9B; high = 0x2E }

-- A tick in `HLT`, another interrupt, and a tick in front of a `HLT` that a tick ends.
abbrev some_waits : List Wait
some_waits =
    record { early = 0; timer = true }
    ∷ record { early = 0; timer = false }
    ∷ record { early = 1; timer = true }
    ∷ []

three_ticks : count_ticks some_waits ≡ 3
unfolding count_ticks
three_ticks = refl

some_waits-AtMost : AtMost 2 some_waits
unfolding AtMost
some_waits-AtMost = (omega arith, (omega arith, (omega arith, tt)))

timer_sleep_ticks-ends_example :
    (t : Timer) × (timer_sleep_ticks started 2 some_waits ≡ some t)
    × (7 + 2 ≤ t.timer_ticks)
    × (t.timer_ticks ≤ 7 + 2 + 1)
timer_sleep_ticks-ends_example =
    timer_sleep_ticks-ends started 2 1 some_waits (omega (arith, three_ticks))
      (omega (arith, three_ticks)) some_waits-AtMost
