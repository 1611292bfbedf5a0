-- ===== src/Interrupts/Isr.antt =====
-- kernel/arch/i386/isr.c, include/kernel/isr.h: the handler that the stubs call. What the code at a
-- handler's address does to the registers and to the machine is the argument `run`. Nothing, where
-- the code halts for ever.
use tark_os.Prelude.{ℕ, ◌-◌, ltb, leb, ◌==◌, ◌&&◌, not, if◌then◌else◌, Option, none, some}
use tark_os.Interrupts.{Idt, get_interrupt_handler}
use tark_os.Interrupts.Pic.{Ports, pic_send_eoi}

-- `registers_t`
pub record Registers : Type 0 where
  pub ds : ℕ
  pub edi : ℕ
  pub esi : ℕ
  pub ebp : ℕ
  pub esp : ℕ
  pub ebx : ℕ
  pub edx : ℕ
  pub ecx : ℕ
  pub eax : ℕ
  pub int_no : ℕ
  pub err_code : ℕ
  pub eip : ℕ
  pub cs : ℕ
  pub eflags : ℕ
  pub useresp : ℕ
  pub ss : ℕ

-- A machine: the table of handlers and the rest, with the ports.
pub record Machine {ℓ} (M : Type ℓ) : Type ℓ where
  pub idt : Idt
  pub rest : M

abbrev pub Run {ℓ} : Type ℓ → Type ℓ
Run M = ℕ → Registers → Machine M → Registers × Machine M

module _ {ℓ} {M : Type ℓ} (ports : Ports M) (run : Run M) where
  -- The end of `isr_handler`.
  unfoldable pub acknowledge : Registers → Machine M → Machine M
  unfolding pic_send_eoi
  acknowledge regs m =
      if leb 32 regs.int_no && leb regs.int_no 47
      then record m { rest = pic_send_eoi ports m.rest (regs.int_no - 32) }
      else m

  unfoldable pub isr_handler : Registers → Machine M → Option (Registers × Machine M)
  unfolding acknowledge get_interrupt_handler
  isr_handler regs m =
      let handler = get_interrupt_handler regs.int_no m.idt in
      let after = run handler regs m in
      if not (handler == 0)
      then some (after.0, acknowledge after.0 after.1)
      else if ltb regs.int_no 32
      then none
      else some (regs, acknowledge regs m)
