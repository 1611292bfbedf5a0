-- ===== src/Pmm/Init.antt =====
-- pmm.c: `pmm_init`, over the memory map that the boot loader hands over (kernel/multiboot.h).
-- The walk over the raw table, `mmap->size + 4` bytes at a time, is taken as the list of its
-- entries. The addresses of the linker's symbols `_kernel_start` and `_kernel_end` are arguments.
use tark_os.Prelude.{ℕ, zero, suc, ◌+◌, ◌-◌, ◌*◌, ◌/◌, ◌%◌, ◌^◌, ltb, ◌==◌, if◌then◌else◌}
use tark_os.Prelude.{List, [], ◌∷◌, replicate}
use tark_os.Prelude.Bits.{test}
use tark_os.Pmm.{
  Pmm, Bitmap, bitmap_test, bitmap_size, max_memory, page_size, pmm_mark_region_free,
  pmm_mark_region_used, u32,
}

-- `multiboot_mmap_entry_t`, with its two 64-bit fields.
pub record MmapEntry : Type 0 where
  pub addr : ℕ
  pub len : ℕ
  pub kind : ℕ

-- The fields of `multiboot_info_t` that `pmm_init` reads.
pub record MultibootInfo : Type 0 where
  pub flags : ℕ
  pub mem_upper : ℕ
  pub mmap : List MmapEntry

-- MULTIBOOT_INFO_MEM_MAP is this bit of `flags`.
abbrev pub mem_map_bit : ℕ
mem_map_bit = 6

abbrev pub memory_available : ℕ
memory_available = 1

abbrev pub one_megabyte : ℕ
one_megabyte = 0x100000

abbrev pub region_start : MmapEntry → ℕ
region_start e = if ltb e.addr one_megabyte then one_megabyte else e.addr

abbrev pub region_end : MmapEntry → ℕ
region_end e = let end = (e.addr + e.len) % 2 ^ 64 in if ltb max_memory end then max_memory else end

-- The body of the loop over the map.
unfoldable pub free_entry : Pmm → MmapEntry → Pmm
free_entry s e =
    let start = region_start e in
    let end = region_end e in
    let grown = record s {
      total_memory = if ltb s.total_memory end then u32 end else s.total_memory;
    } in
    if e.kind == memory_available
    then (if ltb start end then pmm_mark_region_free grown (u32 start) (u32 (end - start)) else s)
    else s

unfoldable pub free_entries : List MmapEntry → Pmm → Pmm
unfolding free_entry
free_entries [] s = s
free_entries (e ∷ es) s = free_entries es (free_entry s e)

-- The counting loop at `i`.
unfoldable pub count_from : Bitmap → ℕ → ℕ → ℕ → ℕ
count_from bm zero i used = used
count_from bm (suc left) i used =
    count_from bm left (i + 1) (if bitmap_test bm i then u32 (used + 1) else used)

-- The path without a memory map.
unfoldable pub init_basic : Pmm → ℕ → Pmm
init_basic s mem_upper =
    let total = u32 (u32 (mem_upper + 1024) * 1024) in
    record s {
      total_memory = total;
      total_pages = total / page_size;
      used_pages = total / page_size;
    }

-- The path after the loop over the map.
unfoldable pub init_reserve : Pmm → ℕ → ℕ → Pmm
unfolding count_from
init_reserve s kernel_start kernel_end =
    let counted = record s { total_pages = s.total_memory / page_size } in
    let kernel =
      pmm_mark_region_used counted kernel_start (u32 (kernel_end + 2 ^ 32 - kernel_start)) in
    let low = pmm_mark_region_used kernel 0 one_megabyte in
    record low { used_pages = count_from low.bitmap low.total_pages 0 0 }

unfoldable pub pmm_init : Pmm → MultibootInfo → ℕ → ℕ → Pmm
unfolding free_entries init_basic init_reserve
pmm_init s mboot kernel_start kernel_end =
    let full = record s { bitmap = replicate bitmap_size 0xFFFFFFFF } in
    if test mboot.flags mem_map_bit
    then init_reserve (free_entries mboot.mmap full) kernel_start kernel_end
    else init_basic full mboot.mem_upper
