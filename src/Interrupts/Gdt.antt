-- ===== src/Interrupts/Gdt.antt =====
-- kernel/arch/i386/gdt.c, include/kernel/gdt.h: the global descriptor table. The instruction of
-- `gdt_flush` is not shown; the address of the table is an argument.
use tark_os.Prelude.{ℕ, ◌-◌, ◌*◌, ◌/◌, ◌%◌, List, set, bit_and, bit_or}

abbrev pub gdt_entries : ℕ
gdt_entries = 6

-- The bits of an access byte: GDT_ACCESS_PRESENT, GDT_ACCESS_RING0, GDT_ACCESS_RING3,
-- GDT_ACCESS_CODE_DATA, GDT_ACCESS_EXECUTABLE, GDT_ACCESS_RW.
abbrev pub present : ℕ
present = 0x80

abbrev pub ring0 : ℕ
ring0 = 0

abbrev pub ring3 : ℕ
ring3 = 0x60

abbrev pub code_data : ℕ
code_data = 0x10

abbrev pub executable : ℕ
executable = 0x08

abbrev pub read_write : ℕ
read_write = 0x02

-- GDT_FLAG_GRANULARITY, GDT_FLAG_32BIT
abbrev pub flag_granularity : ℕ
flag_granularity = 0x08

abbrev pub flag_32bit : ℕ
flag_32bit = 0x04

-- `gdt_entry_t`
pub record GdtEntry : Type 0 where
  pub limit_low : ℕ
  pub base_low : ℕ
  pub base_middle : ℕ
  pub access : ℕ
  pub granularity : ℕ
  pub base_high : ℕ

-- `gdt` and the two fields of `gdt_ptr`.
pub record Gdt : Type 0 where
  pub gdt : List GdtEntry
  pub ptr_limit : ℕ
  pub ptr_base : ℕ

-- The entry that `gdt_set_entry` writes.
unfoldable pub descriptor : ℕ → ℕ → ℕ → ℕ → GdtEntry
descriptor base limit access flags = record {
  limit_low = limit % 65536;
  base_low = base % 65536;
  base_middle = base / 65536 % 256;
  access = access % 256;
  granularity = bit_or (limit / 65536 % 16) (bit_and (flags % 256) 0xF0);
  base_high = base / 16777216 % 256;
}

unfoldable pub gdt_set_entry : ℕ → ℕ → ℕ → ℕ → ℕ → Gdt → Gdt
unfolding descriptor
gdt_set_entry index base limit access flags s = record s {
  gdt = set s.gdt index (descriptor base limit access flags);
}

abbrev pub code_access : ℕ → ℕ
code_access ring = bit_or (bit_or (bit_or (bit_or present ring) code_data) executable) read_write

abbrev pub data_access : ℕ → ℕ
data_access ring = bit_or (bit_or (bit_or present ring) code_data) read_write

abbrev pub flat_flags : ℕ
flat_flags = bit_or flag_granularity flag_32bit

unfoldable pub gdt_init : ℕ → Gdt → Gdt
unfolding gdt_set_entry
gdt_init address s =
    let s = record s { ptr_limit = 8 * gdt_entries - 1; ptr_base = address } in
    let s = gdt_set_entry 0 0 0 0 0 s in
    let s = gdt_set_entry 1 0 0xFFFFFFFF (code_access ring0) flat_flags s in
    let s = gdt_set_entry 2 0 0xFFFFFFFF (data_access ring0) flat_flags s in
    let s = gdt_set_entry 3 0 0xFFFFFFFF (code_access ring3) flat_flags s in
    let s = gdt_set_entry 4 0 0xFFFFFFFF (data_access ring3) flat_flags s in
    gdt_set_entry 5 0 0 0 0 s
