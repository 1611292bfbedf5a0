-- ===== src/Interrupts/Ticks.antt =====
-- kernel/arch/i386/isr.c with kernel/drivers/timer.c: the ticks that a run of interrupts counts.
use tark_os.Prelude.{
  ℕ, ◌+◌, ◌%◌, ◌^◌, ◌≤◌, ◌<◌, ◌≡◌, ◌≢◌, refl, sym, ap, ◌∙◌, ◌-◌, Bool, true, false, arith, not, ltb,
  leb, ◌==◌, ◌&&◌, if◌then◌else◌, Option, some, List, [], ◌∷◌, length, if_intro,
}
use tark_os.Prelude.Grid.{get_or-set}
use tark_os.Timer.{Timer, timer_handler}
use tark_os.Interrupts.{Idt, get_interrupt_handler, register_interrupt_handler, idt_entries}
use tark_os.Interrupts.Pic.{Ports, pic1_command, pic2_command, pic_eoi, pic_send_eoi}
use tark_os.Interrupts.Isr.{Registers, Machine, Run, acknowledge, isr_handler}
use tark_os.Interrupts.Dispatch.{interrupts, interrupts-step, AllIrqs}

-- The interrupts of vector `n` in a list.
unfoldable pub count_vector : ℕ → List Registers → ℕ
count_vector n [] = 0
count_vector n (regs ∷ queue) = (if regs.int_no == n then 1 else 0) + count_vector n queue

timer_if :
    (b : Bool) (t : Timer)
    → ((if b then timer_handler t else t).timer_ticks
        ≡ (if b then (t.timer_ticks + 1) % 2 ^ 32 else t.timer_ticks))
      × ((if b then timer_handler t else t).timer_frequency ≡ t.timer_frequency)
unfolding timer_handler
timer_if true t = (refl, refl)
timer_if false t = (refl, refl)

module _ {ℓ} {M : Type ℓ} (ports : Ports M) (run : Run M) (timer : M → Timer) (address : ℕ) where
  -- The code at `address` is `timer_handler`; no other handler and no port changes the timer's
  -- variables, and none changes the table or the number of the interrupt.
  pub record RunsTimer : Type ℓ where
    pub ticks :
        (h : ℕ) (regs : Registers) (m : Machine M)
        → timer (run h regs m).1.rest
          ≡ (if h == address then timer_handler (timer m.rest) else timer m.rest)
    pub same_idt : (h : ℕ) (regs : Registers) (m : Machine M) → (run h regs m).1.idt ≡ m.idt
    pub same_timer : (m : M) (port value : ℕ) → timer (ports.outb m port value) ≡ timer m

  -- The timer's handler is registered for vector 32 and for no other vector.
  pub record Registered (idt : Idt) : Type 0 where
    pub not_null : address ≢ 0
    pub handles : (v : ℕ) → v < 256 → (get_interrupt_handler v idt == address) ≡ (v == 32)

  -- Where no vector has a handler, as after `idt_init`, the registration by `timer_init` gives that.
  pub register-Registered :
      (idt : Idt)
      → length idt.interrupt_handlers ≡ idt_entries
      → ((v : ℕ) → v < 256 → get_interrupt_handler v idt ≡ 0)
      → address ≢ 0
      → Registered (register_interrupt_handler 32 address idt)
  unfolding register_interrupt_handler get_interrupt_handler
  register-Registered idt h unset not_null = record {
    not_null = not_null;
    handles = λ v l.
        rw (get_or-set idt.interrupt_handlers 32 address (v % 256) (omega (arith, h)), unset v l)
          (ground arith);
  }

  unfoldable Ticked : Registers → Machine M → Option (Registers × Machine M) → Type ℓ
  Ticked regs m result =
      (after : Registers × Machine M) × (result ≡ some after)
      × (timer after.1.rest
          ≡ (if regs.int_no == 32 then timer_handler (timer m.rest) else timer m.rest))
      × (after.1.idt ≡ m.idt)

  timer-acknowledge :
      (runs : RunsTimer) (regs : Registers) (m : Machine M)
      → (timer (acknowledge ports run regs m).rest ≡ timer m.rest)
        × ((acknowledge ports run regs m).idt ≡ m.idt)
  unfolding acknowledge pic_send_eoi
  timer-acknowledge runs regs m =
      if_intro (λ (m' : Machine M). (timer m'.rest ≡ timer m.rest) × (m'.idt ≡ m.idt))
        (leb 32 regs.int_no && leb regs.int_no 47) _ _
        (λ e. (sent (leb 8 (regs.int_no - 32)), refl)) (λ e. (refl, refl))
    where
      sent :
          (b : Bool)
          → timer (
              ports.outb
                (if b then ports.outb m.rest pic2_command pic_eoi else m.rest)
                pic1_command
                pic_eoi)
            ≡ timer m.rest
      sent true =
          runs.same_timer _ pic1_command pic_eoi ∙ runs.same_timer m.rest pic2_command pic_eoi
      sent false = runs.same_timer m.rest pic1_command pic_eoi

  isr_handler-Ticked :
      (runs : RunsTimer) (regs : Registers) (m : Machine M)
      → Registered m.idt
      → 32 ≤ regs.int_no
      → regs.int_no ≤ 47
      → Ticked regs m (isr_handler ports run regs m)
  unfolding isr_handler Ticked
  isr_handler-Ticked runs regs m registered low high =
      let handler = get_interrupt_handler regs.int_no m.idt in
      let after = run handler regs m in
      let hardware : ltb regs.int_no 32 ≡ false = ground arith in
      let vector : (handler == address) ≡ (regs.int_no == 32) =
        registered.handles regs.int_no (omega arith) in
      let handled = timer-acknowledge runs after.0 after.1 in
      let ignored = timer-acknowledge runs regs m in
      if_intro (Ticked regs m) (not (handler == 0)) _ _
        (λ e. (
          (after.0, acknowledge ports run after.0 after.1),
          refl,
          handled.0 ∙ runs.ticks handler regs m ∙ rw vector refl,
          handled.1 ∙ runs.same_idt handler regs m,
        ))
        (λ e.
          let null : handler ≡ 0 = ground arith in
          let other : (regs.int_no == 32) ≡ false =
            sym vector ∙ (let ne : address ≢ 0 = registered.not_null in ground arith) in
          rw hardware
            ((regs, acknowledge ports run regs m), refl, ignored.0 ∙ rw other refl, ignored.1))

  -- From the table in which the timer's handler is the one of vector 32, and of no other, a run of
  -- interrupts that all come from the two controllers adds to the timer's ticks, which are
  -- `uint32_t`, the number of those with vector 32, and keeps its frequency. The code at the
  -- handler's address is `timer_handler`; nothing else changes the timer's variables.
  pub interrupts-ticks :
      (runs : RunsTimer) (queue : List Registers) (m : Machine M)
      → Registered m.idt
      → AllIrqs queue
      → (timer m.rest).timer_ticks < 2 ^ 32
      → (m' : Machine M) × (interrupts ports run queue m ≡ some m')
        × ((timer m'.rest).timer_ticks
            ≡ ((timer m.rest).timer_ticks + count_vector 32 queue) % 2 ^ 32)
        × ((timer m'.rest).timer_frequency ≡ (timer m.rest).timer_frequency)
  unfolding AllIrqs count_vector Ticked interrupts
  interrupts-ticks runs [] m registered all low = (m, refl, omega arith, refl)
  interrupts-ticks runs (regs ∷ queue) m registered all low =
      let step = isr_handler-Ticked runs regs m registered all.0 all.1 in
      let now = timer_if (regs.int_no == 32) (timer m.rest) in
      let ticked : (timer step.0.1.rest).timer_ticks ≡ (
          if regs.int_no == 32
          then ((timer m.rest).timer_ticks + 1) % 2 ^ 32
          else (timer m.rest).timer_ticks) =
        ap (λ t. t.timer_ticks) step.2 ∙ now.0 in
      let kept : (timer step.0.1.rest).timer_frequency ≡ (timer m.rest).timer_frequency =
        ap (λ t. t.timer_frequency) step.2 ∙ now.1 in
      let same : Registered step.0.1.idt = rw step.3 registered in
      let rest = interrupts-ticks runs queue step.0.1 same all.2 (ground arith) in
      (
        rest.0,
        interrupts-step ports run regs queue m step.0 step.1 ∙ rest.1,
        rest.2 ∙ ground arith,
        rest.3 ∙ kept,
      )
