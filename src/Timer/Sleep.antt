-- ===== src/Timer/Sleep.antt =====
-- timer.c: sleeping for some ticks ends.
use tark_os.Prelude.{ℕ, zero, suc, ◌+◌, ◌%◌, ◌^◌, ◌≤◌, ◌<◌, ◌≡◌, refl, ◌∙◌, arith, if◌then◌else◌}
use tark_os.Prelude.{Bool, true, false, ltb, if_intro, Option, some, List, [], ◌∷◌}
use tark_os.Timer.{Timer, Wait, hlt, tick_times, timer_handler, wait_until, timer_sleep_ticks}

-- The ticks of the timer in a round.
abbrev pub ticks_of : Wait → ℕ
ticks_of w = w.early + (if w.timer then 1 else 0)

unfoldable pub count_ticks : List Wait → ℕ
count_ticks [] = 0
count_ticks (w ∷ waits) = ticks_of w + count_ticks waits

-- No round has more than `m` ticks.
unfoldable pub AtMost : ℕ → List Wait → Type 0
AtMost m [] = Unit
AtMost m (w ∷ waits) = (ticks_of w ≤ m) × AtMost m waits

ticks-tick_times :
    (n : ℕ) (s : Timer)
    → s.timer_ticks + n < 2 ^ 32
    → (tick_times n s).timer_ticks ≡ s.timer_ticks + n
unfolding tick_times timer_handler
ticks-tick_times zero s h = omega arith
ticks-tick_times (suc n) s h =
    let one : (s.timer_ticks + 1) % 2 ^ 32 ≡ s.timer_ticks + 1 = omega arith in
    ticks-tick_times n (timer_handler s) (omega (arith, one)) ∙ omega (arith, one)

ticks-hlt :
    (w : Wait) (s : Timer)
    → s.timer_ticks + ticks_of w < 2 ^ 32
    → (hlt s w).timer_ticks ≡ s.timer_ticks + ticks_of w
unfolding timer_handler
ticks-hlt w s h = by_timer w.timer refl
  where
    by_timer : (b : Bool) → w.timer ≡ b → (hlt s w).timer_ticks ≡ s.timer_ticks + ticks_of w
    by_timer true e =
        let early = ticks-tick_times w.early s (ground arith) in rw e (ground (arith, early))
    by_timer false e =
        let early = ticks-tick_times w.early s (ground arith) in rw e (ground (arith, early))

-- The wait is over, at the tick `end` or up to `late` ticks later.
abbrev EndsBy : ℕ → ℕ → Option Timer → Type 0
EndsBy end late o =
    (t : Timer) × (o ≡ some t) × (end ≤ t.timer_ticks) × (t.timer_ticks ≤ end + late)

wait_until-ends :
    (s : Timer) (end late : ℕ) (waits : List Wait)
    → s.timer_ticks ≤ end + late
    → s.timer_ticks + count_ticks waits < 2 ^ 32
    → end ≤ s.timer_ticks + count_ticks waits
    → AtMost (suc late) waits
    → EndsBy end late (wait_until s end waits)
unfolding wait_until count_ticks AtMost
wait_until-ends s end late [] soon small enough few =
    if_intro (EndsBy end late) (ltb s.timer_ticks end) _ _ (λ e. absurd (ground arith))
      (λ e. (s, refl, ground arith, soon))
wait_until-ends s end late (w ∷ waits) soon small enough few =
    let next = ticks-hlt w s (omega arith) in
    if_intro (EndsBy end late) (ltb s.timer_ticks end) _ _
      (λ e.
        let before : s.timer_ticks < end = ground arith in
        wait_until-ends (hlt s w) end late waits (omega (arith, next, few.0, before))
          (omega (arith, next)) (omega (arith, next)) few.1)
      (λ e. (s, refl, ground arith, soon))

at_once :
    (s : Timer) (end : ℕ) (waits : List Wait)
    → end ≤ s.timer_ticks
    → wait_until s end waits ≡ some s
unfolding wait_until
at_once s end [] h =
    if_intro (λ o. o ≡ some s) (ltb s.timer_ticks end) _ _ (λ e. absurd (ground arith)) (λ e. refl)
at_once s end (wait ∷ waits) h =
    if_intro (λ o. o ≡ some s) (ltb s.timer_ticks end) _ _ (λ e. absurd (ground arith)) (λ e. refl)

-- Where the ticks to come do not pass 2 ^ 32 and are at least `ticks`, sleeping for `ticks` ticks
-- returns, whatever other interrupts come between. It returns after that many ticks, and at most
-- `late` later, if no round has more than `late` ticks of the timer besides one: where no tick falls
-- between a test and its `HLT`, exactly after that many.
pub timer_sleep_ticks-ends :
    (s : Timer) (ticks late : ℕ) (waits : List Wait)
    → s.timer_ticks + count_ticks waits < 2 ^ 32
    → ticks ≤ count_ticks waits
    → AtMost (suc late) waits
    → (t : Timer) × (timer_sleep_ticks s ticks waits ≡ some t)
      × (s.timer_ticks + ticks ≤ t.timer_ticks)
      × (t.timer_ticks ≤ s.timer_ticks + ticks + late)
unfolding timer_sleep_ticks
timer_sleep_ticks-ends s ticks late waits small enough few =
    let end : (s.timer_ticks + ticks) % 2 ^ 32 ≡ s.timer_ticks + ticks = omega arith in
    rw end
      (wait_until-ends s (s.timer_ticks + ticks) late waits (omega arith) small (omega arith) few)

-- Where they do pass it, sleeping returns at once.
pub timer_sleep_ticks-wraps :
    (s : Timer) (ticks : ℕ) (waits : List Wait)
    → s.timer_ticks < 2 ^ 32
    → ticks < 2 ^ 32
    → 2 ^ 32 ≤ s.timer_ticks + ticks
    → timer_sleep_ticks s ticks waits ≡ some s
unfolding timer_sleep_ticks
timer_sleep_ticks-wraps s ticks waits small small' wraps =
    at_once s ((s.timer_ticks + ticks) % 2 ^ 32) waits (omega arith)
