-- ===== src/Interrupts.antt =====
-- kernel/arch/i386/idt.c, include/kernel/idt.h: the interrupt descriptor table and the table of
-- handlers. A handler is a pointer, 0 for NULL. The addresses of the stubs `isr0` to `isr47` of
-- boot/boot.asm are a function of their number, and the address of the table is an argument; the
-- instruction of `idt_load` is not shown. No index is negative, and a write past the table changes
-- nothing.
pub mod Gdt
pub mod Pic
pub mod Isr
pub mod Gates
pub mod Segments
pub mod Masks
pub mod Dispatch
pub mod Ticks
mod Tests
use tark_os.Prelude.{ℕ, zero, suc, ◌+◌, ◌-◌, ◌*◌, ◌/◌, ◌%◌, List, get_or, set, bit_or}

abbrev pub idt_entries : ℕ
idt_entries = 256

-- GDT_KERNEL_CODE_SEGMENT
abbrev pub kernel_code_segment : ℕ
kernel_code_segment = 0x08

-- `IDT_FLAG_PRESENT | IDT_FLAG_RING0 | IDT_GATE_INT32`
abbrev pub gate_flags : ℕ
gate_flags = bit_or (bit_or 0x80 0) 0x0E

-- `idt_entry_t`
pub record IdtEntry : Type 0 where
  pub base_low : ℕ
  pub selector : ℕ
  pub zero_byte : ℕ
  pub flags : ℕ
  pub base_high : ℕ

-- The variables of the file: `idt`, the two fields of `idt_ptr`, and `interrupt_handlers`.
pub record Idt : Type 0 where
  pub idt : List IdtEntry
  pub ptr_limit : ℕ
  pub ptr_base : ℕ
  pub interrupt_handlers : List ℕ

-- The entry that `idt_set_entry` writes.
abbrev pub gate_entry : ℕ → ℕ → ℕ → IdtEntry
gate_entry handler selector flags = record {
  base_low = handler % 65536;
  selector = selector % 65536;
  zero_byte = 0;
  flags = flags % 256;
  base_high = handler / 65536 % 65536;
}

unfoldable pub idt_set_entry : ℕ → ℕ → ℕ → ℕ → Idt → Idt
idt_set_entry index handler selector flags s = record s {
  idt = set s.idt index (gate_entry handler selector flags);
}

unfoldable pub register_interrupt_handler : ℕ → ℕ → Idt → Idt
register_interrupt_handler n handler s = record s {
  interrupt_handlers = set s.interrupt_handlers (n % 256) handler;
}

unfoldable pub get_interrupt_handler : ℕ → Idt → ℕ
get_interrupt_handler n s = get_or s.interrupt_handlers (n % 256) 0

-- The loop of `idt_init` that clears `n` entries from `i` on.
unfoldable pub clear_entries : ℕ → ℕ → Idt → Idt
unfolding idt_set_entry
clear_entries i zero s = s
clear_entries i (suc n) s =
    clear_entries (i + 1) n
      (record (idt_set_entry i 0 0 0 s) { interrupt_handlers = set s.interrupt_handlers i 0 })

-- The calls of `idt_init` for `n` stubs from `i` on, which the code writes one by one.
unfoldable pub set_stubs : (ℕ → ℕ) → ℕ → ℕ → Idt → Idt
unfolding idt_set_entry
set_stubs isr i zero s = s
set_stubs isr i (suc n) s =
    set_stubs isr (i + 1) n (idt_set_entry i (isr i) kernel_code_segment gate_flags s)

unfoldable pub idt_init : (ℕ → ℕ) → ℕ → Idt → Idt
unfolding clear_entries set_stubs
idt_init isr address s =
    set_stubs isr 0 48 (
      clear_entries 0 idt_entries
        (record s { ptr_limit = 8 * idt_entries - 1; ptr_base = address }))
