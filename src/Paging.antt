-- ===== src/Paging.antt =====
-- kernel/mm/paging.c: page tables. The physical memory is a function from the address of a page to
-- its 1,024 words; the directory is the kernel's. `|` of numbers without a common digit is a sum,
-- and a mask of the low digits a remainder. Loading and flushing the processor's registers is not
-- shown.
pub mod Mapping
pub mod Identity
pub mod Others
mod Tests
use tark_os.Prelude.{
  ℕ, zero, suc, ◌+◌, ◌*◌, ◌/◌, ◌%◌, ◌^◌, Bool, true, false, not, ltb, ◌==◌, if◌then◌else◌,
}
use tark_os.Prelude.{Option, none, some, List, get_or, set, replicate}
use tark_os.Pmm.{Pmm, pmm_alloc_page, page_align_down, page_align_up, u32, page_size}

abbrev pub page_table_entries : ℕ
page_table_entries = 1024

pub record Paging : Type 0 where
  pub directory : List ℕ
  pub frames : ℕ → List ℕ
  pub pmm : Pmm

abbrev pub page_dir_index : ℕ → ℕ
page_dir_index addr = addr / 2 ^ 22 % 1024

abbrev pub page_table_index : ℕ → ℕ
page_table_index addr = addr / 2 ^ 12 % 1024

-- `entry & PAGE_PRESENT` and `entry & PAGE_FRAME_MASK`.
abbrev pub is_present : ℕ → Bool
is_present entry = entry % 2 == 1

abbrev pub frame_of : ℕ → ℕ
frame_of entry = entry / page_size * page_size

abbrev pub set_frame : (ℕ → List ℕ) → ℕ → List ℕ → ℕ → List ℕ
set_frame frames at words f = if f == at then words else frames f

-- The address of the table, if there is one.
unfoldable pub get_page_table : Paging → ℕ → Bool → Paging × Option ℕ
unfolding pmm_alloc_page
get_page_table s virt create =
    let index = page_dir_index virt in
    let entry = get_or s.directory index 0 in
    let (pmm', table_phys) = pmm_alloc_page s.pmm in
    if is_present entry
    then (s, some (frame_of entry))
    else if not create
    then (s, none)
    else if table_phys == 0
    then (record s { pmm = pmm' }, none)
    else (
      record {
        directory = set s.directory index (table_phys + 3);
        frames = set_frame s.frames table_phys (replicate page_table_entries 0);
        pmm = pmm';
      },
      some (frame_of (table_phys + 3)),
    )

-- Writing entry `index` of the table at `frame`.
abbrev pub write_entry : Paging → ℕ → ℕ → ℕ → Paging
write_entry s frame index entry = record s {
  frames = set_frame s.frames frame (set (s.frames frame) index entry);
}

unfoldable pub paging_map : Paging → ℕ → ℕ → ℕ → Paging
unfolding get_page_table
paging_map s virt phys flags =
    let (t, table) = get_page_table s virt true in
    elim table [
      | none ↦ t
      | some frame ↦ write_entry t frame (page_table_index virt) (frame_of phys + flags % page_size)
    ]

unfoldable pub paging_unmap : Paging → ℕ → Paging
unfolding get_page_table
paging_unmap s virt =
    let (t, table) = get_page_table s virt false in
    elim table [ none ↦ t | some frame ↦ write_entry t frame (page_table_index virt) 0 ]

-- The answer for an entry of a table.
abbrev pub address_in : ℕ → ℕ → ℕ
address_in entry virt = if not (is_present entry) then 0 else frame_of entry + virt % page_size

unfoldable pub paging_get_physical : Paging → ℕ → ℕ
unfolding get_page_table
paging_get_physical s virt =
    let (t, table) = get_page_table s virt false in
    elim table [
      | none ↦ 0
      | some frame ↦ address_in (get_or (t.frames frame) (page_table_index virt) 0) virt
    ]

-- The loop of `paging_identity_map`; nothing, where the rounds given are not enough.
unfoldable pub identity_loop : ℕ → Paging → ℕ → ℕ → ℕ → Option Paging
unfolding paging_map
identity_loop zero s addr end flags = if ltb addr end then none else some s
identity_loop (suc fuel) s addr end flags =
    let rest =
      identity_loop fuel (paging_map s addr addr flags) (u32 (addr + page_size)) end flags in
    if ltb addr end then rest else some s

unfoldable pub paging_identity_map : ℕ → Paging → ℕ → ℕ → ℕ → Option Paging
unfolding identity_loop
paging_identity_map fuel s start size flags =
    identity_loop fuel s (page_align_down start) (page_align_up (u32 (start + size))) flags

-- The inner loop of `paging_init`, for table `i` at entry `j` with `n` to go.
unfoldable pub identity_entries : ℕ → List ℕ → ℕ → ℕ → List ℕ
identity_entries i words j zero = words
identity_entries i words j (suc n) =
    identity_entries i (set words j ((i * page_table_entries + j) * page_size + 3)) (j + 1) n

-- The outer loop, at table `i` with `n` to go; `tables` is the address of `kernel_page_tables`.
unfoldable pub init_tables : ℕ → Paging → ℕ → ℕ → Paging
unfolding identity_entries
init_tables tables s i zero = s
init_tables tables s i (suc n) =
    let at = tables + i * page_size in
    let words = identity_entries i (replicate page_table_entries 0) 0 page_table_entries in
    init_tables tables
      (record s { directory = set s.directory i (at + 3); frames = set_frame s.frames at words })
      (i + 1) n

unfoldable pub paging_init : ℕ → Paging → Paging
unfolding init_tables
paging_init tables s = init_tables tables (record s { directory = replicate 1024 0 }) 0 4
