-- ===== src/Interrupts/Pic.antt =====
-- kernel/arch/i386/pic.c, include/kernel/pic.h, include/kernel/ports.h: the two interrupt
-- controllers. The ports are an interface, whose instructions `inb` and `outb` read and write a
-- machine of any type.
use tark_os.Prelude.{ℕ, ◌-◌, ◌%◌, ◌^◌, ltb, leb, if◌then◌else◌, bit_and, bit_or}
use tark_os.Prelude.Bits.{hole}

abbrev pub pic1_command : ℕ
pic1_command = 0x20

abbrev pub pic1_data : ℕ
pic1_data = 0x21

abbrev pub pic2_command : ℕ
pic2_command = 0xA0

abbrev pub pic2_data : ℕ
pic2_data = 0xA1

abbrev pub pic_eoi : ℕ
pic_eoi = 0x20

-- `ICW1_INIT | ICW1_ICW4`
abbrev pub icw1 : ℕ
icw1 = bit_or 0x10 0x01

abbrev pub icw4_8086 : ℕ
icw4_8086 = 0x01

abbrev pub pic1_offset : ℕ
pic1_offset = 0x20

abbrev pub pic2_offset : ℕ
pic2_offset = 0x28

pub record Ports {ℓ} (M : Type ℓ) : Type ℓ where
  pub inb : M → ℕ → ℕ
  pub outb : M → ℕ → ℕ → M

module _ {ℓ} {M : Type ℓ} (ports : Ports M) where
  unfoldable pub io_wait : M → M
  io_wait m = ports.outb m 0x80 0

  abbrev pub outb_wait : M → ℕ → ℕ → M
  unfolding io_wait
  outb_wait m port value = io_wait (ports.outb m port value)

  -- The two masks that are read first are not used.
  unfoldable pub pic_init : M → M
  unfolding io_wait
  pic_init m =
      let m = outb_wait m pic1_command icw1 in
      let m = outb_wait m pic2_command icw1 in
      let m = outb_wait m pic1_data pic1_offset in
      let m = outb_wait m pic2_data pic2_offset in
      let m = outb_wait m pic1_data 0x04 in
      let m = outb_wait m pic2_data 0x02 in
      let m = outb_wait m pic1_data icw4_8086 in
      let m = outb_wait m pic2_data icw4_8086 in
      let m = ports.outb m pic1_data 0xF8 in ports.outb m pic2_data 0xEF

  unfoldable pub pic_send_eoi : M → ℕ → M
  pic_send_eoi m irq =
      ports.outb (if leb 8 irq then ports.outb m pic2_command pic_eoi else m) pic1_command pic_eoi

  abbrev pub data_port : ℕ → ℕ
  data_port irq = if ltb irq 8 then pic1_data else pic2_data

  abbrev pub line : ℕ → ℕ
  line irq = if ltb irq 8 then irq else irq - 8

  -- The value is stored in a byte.
  unfoldable pub pic_set_mask : M → ℕ → M
  pic_set_mask m irq =
      ports.outb m (data_port irq) (bit_or (ports.inb m (data_port irq)) (2 ^ line irq) % 256)

  -- `~(1 << irq)` in the 32 bits of an `int`.
  unfoldable pub pic_clear_mask : M → ℕ → M
  pic_clear_mask m irq =
      ports.outb m (data_port irq)
        (bit_and (ports.inb m (data_port irq)) (hole 32 (line irq)) % 256)

  unfoldable pub pic_disable : M → M
  pic_disable m = ports.outb (ports.outb m pic1_data 0xFF) pic2_data 0xFF
