-- ===== src/Interrupts/Dispatch.antt =====
-- kernel/arch/i386/isr.c with pic.c, idt.c and kernel/drivers/timer.c: a run of interrupts, one
-- after another, through `isr_handler`.
use tark_os.Prelude.{
  ℕ, ◌+◌, ◌-◌, ◌≤◌, ◌≡◌, refl, ap, ◌∙◌, arith, Bool, true, false, not, ltb, leb, ◌==◌, ◌&&◌,
  if◌then◌else◌, Option, none, some, List, [], ◌∷◌, length, inl, inr, Bool-cases, if_intro,
}
use tark_os.Interrupts.{get_interrupt_handler}
use tark_os.Interrupts.Pic.{Ports, pic1_command, pic2_command, pic_eoi, pic_send_eoi}
use tark_os.Interrupts.Isr.{Registers, Machine, Run, acknowledge, isr_handler}

-- The ends of interrupt in a list of writes that a command port has been sent.
unfoldable pub count_eoi : ℕ → List (ℕ × ℕ) → ℕ
count_eoi port [] = 0
count_eoi port ((p, value) ∷ writes) =
    (if p == port && value == pic_eoi then 1 else 0) + count_eoi port writes

-- The interrupts of a list whose vectors are at least `first`.
unfoldable pub count_at_least : ℕ → List Registers → ℕ
count_at_least first [] = 0
count_at_least first (regs ∷ queue) =
    (if leb first regs.int_no then 1 else 0) + count_at_least first queue

unfoldable pub AllIrqs : List Registers → Type 0
AllIrqs [] = Unit
AllIrqs (regs ∷ queue) = (32 ≤ regs.int_no) × (regs.int_no ≤ 47) × AllIrqs queue

module _ {ℓ} {M : Type ℓ} (ports : Ports M) (run : Run M) where
  -- A run of interrupts; nothing, once one of them halts.
  unfoldable pub interrupts : List Registers → Machine M → Option (Machine M)
  interrupts [] m = some m
  interrupts (regs ∷ queue) m = elim (isr_handler ports run regs m) [
    | none ↦ none
    | some after ↦ interrupts queue after.1
  ]

  pub interrupts-step :
      (regs : Registers) (queue : List Registers) (m : Machine M) (after : Registers × Machine M)
      → isr_handler ports run regs m ≡ some after
      → interrupts (regs ∷ queue) m ≡ interrupts queue after.1
  unfolding interrupts
  interrupts-step regs queue m after e = rw (e, interrupts) refl

-- A machine that keeps the list of its writes, the last one first.
pub record Logs {ℓ} {M : Type ℓ} (ports : Ports M) : Type ℓ where
  pub log : M → List (ℕ × ℕ)
  pub log-outb : (m : M) (port value : ℕ) → log (ports.outb m port value) ≡ (port, value) ∷ log m

module _ {ℓ} {M : Type ℓ} (ports : Ports M) (logs : Logs ports) (run : Run M) where
  -- The handlers leave the number of the interrupt and send no controller an end of interrupt.
  pub record LeavesEoi : Type ℓ where
    pub same_number :
        (h : ℕ) (regs : Registers) (m : Machine M) → (run h regs m).0.int_no ≡ regs.int_no
    pub no_eoi :
        (h port : ℕ) (regs : Registers) (m : Machine M)
        → count_eoi port (logs.log (run h regs m).1.rest) ≡ count_eoi port (logs.log m.rest)

  abbrev pub eois : ℕ → Machine M → ℕ
  eois port m = count_eoi port (logs.log m.rest)

  log_send :
      (m : M) (irq : ℕ)
      → logs.log (pic_send_eoi ports m irq)
        ≡ (pic1_command, pic_eoi)
          ∷ (if leb 8 irq then (pic2_command, pic_eoi) ∷ logs.log m else logs.log m)
  unfolding pic_send_eoi
  log_send m irq = sent (leb 8 irq)
    where
      sent :
          (b : Bool)
          → logs.log
              (ports.outb (if b then ports.outb m pic2_command pic_eoi else m) pic1_command pic_eoi)
            ≡ (pic1_command, pic_eoi)
              ∷ (if b then (pic2_command, pic_eoi) ∷ logs.log m else logs.log m)
      sent true =
          logs.log-outb _ pic1_command pic_eoi
          ∙ ap (λ l. (pic1_command, pic_eoi) ∷ l) (logs.log-outb m pic2_command pic_eoi)
      sent false = logs.log-outb m pic1_command pic_eoi

  -- The ends of interrupt sent to `port` after that of line `irq`.
  eoi-send :
      (m : M) (port irq : ℕ)
      → count_eoi port (logs.log (pic_send_eoi ports m irq))
        ≡ (if pic1_command == port then 1 else 0)
          + ((if leb 8 irq && pic2_command == port then 1 else 0) + count_eoi port (logs.log m))
  unfolding count_eoi
  eoi-send m port irq = elim (Bool-cases (leb 8 irq)) [
    | inl e ↦ ap (count_eoi port) (log_send m irq) ∙ rw e (ground arith)
    | inr e ↦ ap (count_eoi port) (log_send m irq) ∙ rw e (ground arith)
  ]

  eois-acknowledge :
      (regs : Registers) (m : Machine M)
      → 32 ≤ regs.int_no
      → regs.int_no ≤ 47
      → (eois pic1_command (acknowledge ports run regs m) ≡ 1 + eois pic1_command m)
        × (eois pic2_command (acknowledge ports run regs m)
            ≡ (if leb 40 regs.int_no then 1 else 0) + eois pic2_command m)
  unfolding acknowledge pic_send_eoi count_eoi
  eois-acknowledge regs m low high =
      let hardware : leb 32 regs.int_no && leb regs.int_no 47 ≡ true = ground arith in
      let one = eoi-send m.rest pic1_command (regs.int_no - 32) in
      let two = eoi-send m.rest pic2_command (regs.int_no - 32) in
      (rw hardware (ground (arith, one)), rw hardware (ground (arith, two)))

  unfoldable Acknowledged : Registers → Machine M → Option (Registers × Machine M) → Type ℓ
  Acknowledged regs m result =
      (after : Registers × Machine M) × (result ≡ some after)
      × (eois pic1_command after.1 ≡ 1 + eois pic1_command m)
      × (eois pic2_command after.1 ≡ (if leb 40 regs.int_no then 1 else 0) + eois pic2_command m)

  -- One interrupt of a controller does not halt; nothing but its end is sent.
  isr_handler-Acknowledged :
      (leaves : LeavesEoi) (regs : Registers) (m : Machine M)
      → 32 ≤ regs.int_no
      → regs.int_no ≤ 47
      → Acknowledged regs m (isr_handler ports run regs m)
  unfolding isr_handler Acknowledged
  isr_handler-Acknowledged leaves regs m low high =
      let handler = get_interrupt_handler regs.int_no m.idt in
      let after = run handler regs m in
      let same : after.0.int_no ≡ regs.int_no = leaves.same_number handler regs m in
      let hardware : ltb regs.int_no 32 ≡ false = ground arith in
      let handled = eois-acknowledge after.0 after.1 (omega (arith, same)) (omega (arith, same)) in
      let ignored = eois-acknowledge regs m low high in
      if_intro (Acknowledged regs m) (not (handler == 0)) _ _
        (λ e. (
          (after.0, acknowledge ports run after.0 after.1),
          refl,
          handled.0 ∙ ap (λ n. 1 + n) (leaves.no_eoi handler pic1_command regs m),
          ground (arith, handled.1, leaves.no_eoi handler pic2_command regs m),
        ))
        (λ e. rw hardware ((regs, acknowledge ports run regs m), refl, ignored.0, ignored.1))

  -- A run of interrupts that all come from the two controllers (vectors 32 to 47), with or without
  -- handlers for them, does not halt. The first controller is sent one end of interrupt for each of
  -- them, and the second one for each of its own (from vector 40 on). The handlers leave the
  -- interrupt's number and send no end of interrupt themselves.
  pub interrupts-acknowledged :
      (leaves : LeavesEoi) (queue : List Registers) (m : Machine M)
      → AllIrqs queue
      → (m' : Machine M) × (interrupts ports run queue m ≡ some m')
        × (eois pic1_command m' ≡ length queue + eois pic1_command m)
        × (eois pic2_command m' ≡ count_at_least 40 queue + eois pic2_command m)
  unfolding interrupts AllIrqs count_at_least Acknowledged
  interrupts-acknowledged leaves [] m all = (m, refl, omega arith, omega arith)
  interrupts-acknowledged leaves (regs ∷ queue) m all =
      let step = isr_handler-Acknowledged leaves regs m all.0 all.1 in
      let rest = interrupts-acknowledged leaves queue step.0.1 all.2 in
      (
        rest.0,
        interrupts-step ports run regs queue m step.0 step.1 ∙ rest.1,
        omega (arith, step.2, rest.2),
        omega (arith, step.3, rest.3),
      )
