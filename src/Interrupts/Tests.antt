-- ===== src/Interrupts/Tests.antt =====
-- Runs of the interrupt tables and of the controllers.
use tark_os.Prelude.{
  ℕ, ◌+◌, ◌/◌, ◌%◌, ◌^◌, ◌≡◌, refl, arith, true, false, ltb, ◌==◌, if◌then◌else◌, some, List, [],
  ◌∷◌, replicate, length-replicate, get_or-replicate,
}
use tark_os.Timer.{Timer, timer_handler}
use tark_os.Interrupts.{
  Idt, idt_init, kernel_code_segment, get_interrupt_handler, register_interrupt_handler,
}
use tark_os.Interrupts.Gdt.{Gdt, gdt_set_entry, gdt_init}
use tark_os.Interrupts.Pic.{Ports, pic1_command, pic2_command, pic_set_mask, pic_clear_mask}
use tark_os.Interrupts.Isr.{Registers, Machine, Run}
use tark_os.Interrupts.Gates.{gate, gate_target, no_gate, idt_init-gates}
use tark_os.Interrupts.Segments.{
  IsByteSegment, segment, segment_base, segment_limit, segment_flags, no_segment,
  gdt_set_entry-reads, gdt_init-IsByteSegment,
}
use tark_os.Interrupts.Masks.{KeepsMasks, is_masked, masks-lines}
use tark_os.Interrupts.Dispatch.{
  AllIrqs, Logs, LeavesEoi, interrupts, eois, count_at_least, interrupts-acknowledged,
}
use tark_os.Interrupts.Ticks.{
  RunsTimer, Registered, register-Registered, count_vector, interrupts-ticks,
}

abbrev blank : Idt
blank = record {
  idt = replicate 256 no_gate;
  ptr_limit = 0;
  ptr_base = 0;
  interrupt_handlers = replicate 256 0;
}

abbrev isr_at : ℕ → ℕ
isr_at v = 0x100000 + v % 256

idt_init-gates_example :
    (gate_target (gate (idt_init isr_at 0x200000 blank) 33) ≡ (if ltb 33 48 then isr_at 33 else 0))
    × ((gate (idt_init isr_at 0x200000 blank) 33).flags ≡ (if ltb 33 48 then 0x8E else 0))
    × ((gate (idt_init isr_at 0x200000 blank) 33).selector
        ≡ (if ltb 33 48 then kernel_code_segment else 0))
    × ((gate (idt_init isr_at 0x200000 blank) 33).zero_byte ≡ 0)
    × (get_interrupt_handler 33 (idt_init isr_at 0x200000 blank) ≡ 0)
idt_init-gates_example =
    idt_init-gates isr_at 0x200000 33 blank (length-replicate 256 no_gate)
      (length-replicate {A = ℕ} 256 0) (omega arith) (omega arith)

abbrev blank_gdt : Gdt
blank_gdt = record { gdt = replicate 6 no_segment; ptr_limit = 0; ptr_base = 0 }

gdt_set_entry-reads_example :
    (segment_base (segment (gdt_set_entry 5 0x12345678 0xABCDE 0x89 0x40 blank_gdt) 5) ≡ 0x12345678)
    × (segment_limit (segment (gdt_set_entry 5 0x12345678 0xABCDE 0x89 0x40 blank_gdt) 5) ≡ 0xABCDE)
    × ((segment (gdt_set_entry 5 0x12345678 0xABCDE 0x89 0x40 blank_gdt) 5).access ≡ 0x89)
    × (segment_flags (segment (gdt_set_entry 5 0x12345678 0xABCDE 0x89 0x40 blank_gdt) 5)
        ≡ 0x40 / 16)
    × (segment (gdt_set_entry 5 0x12345678 0xABCDE 0x89 0x40 blank_gdt) 1 ≡ segment blank_gdt 1)
gdt_set_entry-reads_example =
    gdt_set_entry-reads 5 0x12345678 0xABCDE 0x89 0x40 1 blank_gdt (omega arith) (omega arith)
      (omega arith) (omega arith) (omega arith) (λ e. absurd (omega arith))

gdt_init-IsByteSegment_example : IsByteSegment 1 (segment (gdt_init 0x300000 blank_gdt) 1)
gdt_init-IsByteSegment_example =
    gdt_init-IsByteSegment 0x300000 1 blank_gdt refl (omega arith) (omega arith)

-- Two mask bytes.
abbrev two_masks : Ports (ℕ × ℕ)
two_masks = record {
  inb = λ m port. if port == 0x21 then m.0 else m.1;
  outb = λ m port value.
      if port == 0x21 then (value, m.1) else if port == 0xA1 then (m.0, value) else m;
}

two_masks-KeepsMasks : KeepsMasks two_masks
two_masks-KeepsMasks = record {
  read_back = λ m v. refl;
  read_back2 = λ m v. refl;
  apart = λ m v. refl;
  apart2 = λ m v. refl;
}

masks-lines_example :
    (is_masked two_masks (pic_set_mask two_masks (0xF8, 0xEF) 12) 9
      ≡ (if 12 == 9 then true else is_masked two_masks (0xF8, 0xEF) 9))
    × (is_masked two_masks (pic_clear_mask two_masks (0xF8, 0xEF) 12) 9
        ≡ (if 12 == 9 then false else is_masked two_masks (0xF8, 0xEF) 9))
masks-lines_example =
    masks-lines two_masks two_masks-KeepsMasks (0xF8, 0xEF) 12 9 (omega arith) (omega arith)

-- The writes so far, and the timer.
record World : Type 0 where
  writes : List (ℕ × ℕ)
  timer : Timer

abbrev world_ports : Ports World
world_ports = record {
  inb = λ w port. 0;
  outb = λ w port value. record w { writes = (port, value) ∷ w.writes };
}

abbrev handler_address : ℕ
handler_address = 0x101000

abbrev run_handler : Run World
run_handler h regs m = (
  regs,
  record m {
    rest = record m.rest {
      timer = if h == handler_address then timer_handler m.rest.timer else m.rest.timer;
    };
  },
)

world-Logs : Logs world_ports
world-Logs = record { log = λ w. w.writes; log-outb = λ w port value. refl }

world-LeavesEoi : LeavesEoi world_ports world-Logs run_handler
unfolding world-Logs
world-LeavesEoi = record { same_number = λ h regs m. refl; no_eoi = λ h port regs m. refl }

abbrev vector : ℕ → Registers
vector n = record {
  ds = 16;
  edi = 0;
  esi = 0;
  ebp = 0;
  esp = 0;
  ebx = 0;
  edx = 0;
  ecx = 0;
  eax = 0;
  int_no = n;
  err_code = 0;
  eip = 0;
  cs = 8;
  eflags = 0;
  useresp = 0;
  ss = 16;
}

abbrev queue : List Registers
queue = vector 32 ∷ vector 44 ∷ vector 32 ∷ []

queue-AllIrqs : AllIrqs queue
unfolding AllIrqs
queue-AllIrqs =
    (omega arith, omega arith, (omega arith, omega arith, (omega arith, omega arith, tt)))

abbrev machine : Machine World
machine = record {
  idt = register_interrupt_handler 32 handler_address blank;
  rest = record {
    writes = [];
    timer = record { timer_ticks = 7; timer_frequency = 100; low = 0; high = 0 };
  };
}

interrupts-acknowledged_example :
    (m' : Machine World) × (interrupts world_ports run_handler queue machine ≡ some m')
    × (eois world_ports world-Logs run_handler pic1_command m'
        ≡ 3 + eois world_ports world-Logs run_handler pic1_command machine)
    × (eois world_ports world-Logs run_handler pic2_command m'
        ≡ count_at_least 40 queue + eois world_ports world-Logs run_handler pic2_command machine)
interrupts-acknowledged_example =
    interrupts-acknowledged world_ports world-Logs run_handler world-LeavesEoi queue machine
      queue-AllIrqs

run_handler-RunsTimer : RunsTimer world_ports run_handler (λ w. w.timer) handler_address
run_handler-RunsTimer = record {
  ticks = λ h regs m. refl;
  same_idt = λ h regs m. refl;
  same_timer = λ w port value. refl;
}

machine-Registered : Registered world_ports run_handler (λ w. w.timer) handler_address machine.idt
unfolding get_interrupt_handler
machine-Registered =
    register-Registered world_ports run_handler (λ w. w.timer) handler_address blank
      (length-replicate {A = ℕ} 256 0) (λ v l. get_or-replicate 256 (v % 256) 0 0 (omega arith))
      (λ e. absurd (omega arith))

interrupts-ticks_example :
    (m' : Machine World) × (interrupts world_ports run_handler queue machine ≡ some m')
    × (m'.rest.timer.timer_ticks ≡ (7 + count_vector 32 queue) % 2 ^ 32)
    × (m'.rest.timer.timer_frequency ≡ 100)
interrupts-ticks_example =
    interrupts-ticks world_ports run_handler (λ w. w.timer) handler_address run_handler-RunsTimer
      queue machine machine-Registered queue-AllIrqs (omega arith)
