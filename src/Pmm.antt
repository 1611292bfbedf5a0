-- ===== src/Pmm.antt =====
-- kernel/mm/pmm.c: the bitmap allocator of physical pages. The file's static variables are the
-- record `Pmm`; each function takes it and returns the new one. All arithmetic is that of
-- `uint32_t`, with its wrap-around written out. A read or write outside `pmm_bitmap`, which C
-- leaves undefined, reads 0 or changes nothing here.
pub mod Bitmap
pub mod Find
pub mod Run
pub mod Invariant
pub mod Alloc
pub mod Region
pub mod Init
pub mod InitPages
pub mod Calls
mod Tests
use mathlib.Core.Option
use tark_os.Prelude.{ℕ, zero, suc, ◌+◌, ◌-◌, ◌*◌, ◌/◌, ◌%◌, ◌^◌, bit_and, bit_or}
use tark_os.Prelude.{Bool, not, ◌&&◌, ltb, leb, ◌==◌, if◌then◌else◌}
use tark_os.Prelude.{Option, none, some, List, get_or, set}
use tark_os.Prelude.Bits.{test, hole}

abbrev pub page_size : ℕ
page_size = 4096

abbrev pub max_memory : ℕ
max_memory = 1024 * 1024 * 1024

abbrev pub max_pages : ℕ
max_pages = max_memory / page_size

abbrev pub bitmap_size : ℕ
bitmap_size = max_pages / 32

abbrev pub u32 : ℕ → ℕ
u32 n = n % 2 ^ 32

-- PAGE_ALIGN_DOWN, PAGE_ALIGN_UP, ADDR_TO_PAGE, PAGE_TO_ADDR
abbrev pub page_align_down : ℕ → ℕ
page_align_down addr = addr / page_size * page_size

abbrev pub page_align_up : ℕ → ℕ
page_align_up addr = page_align_down (u32 (addr + page_size - 1))

abbrev pub addr_to_page : ℕ → ℕ
addr_to_page addr = addr / 2 ^ 12

abbrev pub page_to_addr : ℕ → ℕ
page_to_addr page = u32 (page * 2 ^ 12)

-- `(uint32_t)-1`
abbrev pub not_found : ℕ
not_found = 0xFFFFFFFF

abbrev pub Bitmap : Type 0
Bitmap = List ℕ

pub record Pmm : Type 0 where
  pub bitmap : Bitmap
  pub total_memory : ℕ
  pub used_pages : ℕ
  pub total_pages : ℕ

unfoldable pub bitmap_set : Bitmap → ℕ → Bitmap
bitmap_set bm page = set bm (page / 32) (bit_or (get_or bm (page / 32) 0) (2 ^ (page % 32)))

unfoldable pub bitmap_clear : Bitmap → ℕ → Bitmap
bitmap_clear bm page = set bm (page / 32) (bit_and (get_or bm (page / 32) 0) (hole 32 (page % 32)))

unfoldable pub bitmap_test : Bitmap → ℕ → Bool
unfolding test
bitmap_test bm page = test (get_or bm (page / 32) 0) (page % 32)

module _ (bm : Bitmap) (total : ℕ) where
  -- The inner loop of `bitmap_find_free` at `j`, with `left` rounds to go; `some` is its `return`.
  unfoldable pub find_in_block : ℕ → ℕ → ℕ → Option ℕ
  unfolding bitmap_test
  find_in_block i zero j = none
  find_in_block i (suc left) j =
      let rest = find_in_block i left (j + 1) in
      let page = i * 32 + j in
      if ltb page total && not (bitmap_test bm page) then some page else rest

  -- The outer loop at `i`.
  unfoldable pub find_from : ℕ → ℕ → Option ℕ
  unfolding find_in_block
  find_from zero i = none
  find_from (suc left) i =
      let rest = find_from left (i + 1) in
      if get_or bm i 0 == 0xFFFFFFFF
      then rest
      else elim (find_in_block i 32 0) [ some page ↦ some page | none ↦ rest ]

  -- The loop of `bitmap_find_free_contiguous` at `i`.
  unfoldable pub find_run : ℕ → ℕ → ℕ → ℕ → ℕ → Option ℕ
  unfolding bitmap_test
  find_run count zero i start found = none
  find_run count (suc left) i start found =
      let start' = if found == 0 then i else start in
      let longer = find_run count left (i + 1) start' (u32 (found + 1)) in
      let again = find_run count left (i + 1) start 0 in
      if not (bitmap_test bm i)
      then (if u32 (found + 1) == count then some start' else longer)
      else again

unfoldable pub bitmap_find_free : Pmm → ℕ
unfolding find_from
bitmap_find_free s =
    Option.get_or (find_from s.bitmap s.total_pages (s.total_pages / 32) 0) not_found

unfoldable pub bitmap_find_free_contiguous : Pmm → ℕ → ℕ
unfolding find_run
bitmap_find_free_contiguous s count =
    Option.get_or (find_run s.bitmap s.total_pages count s.total_pages 0 0 0) not_found

-- `bitmap_set(page); used_pages++;`
unfoldable pub take_page : Pmm → ℕ → Pmm
unfolding bitmap_set
take_page s page = record s {
  bitmap = bitmap_set s.bitmap page;
  used_pages = u32 (s.used_pages + 1);
}

unfoldable pub pmm_alloc_page : Pmm → Pmm × ℕ
unfolding bitmap_find_free take_page
pmm_alloc_page s =
    let page = bitmap_find_free s in
    if page == not_found then (s, 0) else (take_page s page, page_to_addr page)

-- The marking loop of `pmm_alloc_pages` at `page`, with `left` pages to go.
unfoldable pub take_pages : ℕ → ℕ → Pmm → Pmm
unfolding take_page
take_pages zero page s = s
take_pages (suc left) page s = take_pages left (u32 (page + 1)) (take_page s page)

unfoldable pub pmm_alloc_pages : Pmm → ℕ → Pmm × ℕ
unfolding pmm_alloc_page bitmap_find_free_contiguous take_pages
pmm_alloc_pages s count =
    let start = bitmap_find_free_contiguous s count in
    if count == 0
    then (s, 0)
    else if count == 1
    then pmm_alloc_page s
    else if start == not_found
    then (s, 0)
    else (take_pages count start s, page_to_addr start)

unfoldable pub pmm_free_page : Pmm → ℕ → Pmm
unfolding bitmap_test bitmap_clear
pmm_free_page s addr =
    let page = addr_to_page addr in
    if leb s.total_pages page
    then s
    else if bitmap_test s.bitmap page
    then record s {
      bitmap = bitmap_clear s.bitmap page;
      used_pages = u32 (s.used_pages + 2 ^ 32 - 1);
    }
    else s

-- The loop of `pmm_free_pages` at `i`.
unfoldable pub free_pages_from : ℕ → ℕ → ℕ → Pmm → Pmm
unfolding pmm_free_page
free_pages_from zero addr i s = s
free_pages_from (suc left) addr i s =
    free_pages_from left addr (i + 1) (pmm_free_page s (u32 (addr + u32 (i * page_size))))

unfoldable pub pmm_free_pages : Pmm → ℕ → ℕ → Pmm
unfolding free_pages_from
pmm_free_pages s addr count = free_pages_from count addr 0 s

unfoldable pub pmm_mark_used : Pmm → ℕ → Pmm
unfolding bitmap_test take_page
pmm_mark_used s addr =
    let page = addr_to_page addr in
    if ltb page s.total_pages && not (bitmap_test s.bitmap page) then take_page s page else s

-- `while (addr < end)` of `pmm_mark_region_used`. Both ends are multiples of the page size below
-- 2 ^ 32, so `region_fuel` rounds are enough.
abbrev pub region_fuel : ℕ
region_fuel = 2 ^ 20

unfoldable pub mark_used_loop : ℕ → ℕ → ℕ → Pmm → Pmm
unfolding pmm_mark_used
mark_used_loop zero addr end s = s
mark_used_loop (suc fuel) addr end s =
    let next = mark_used_loop fuel (u32 (addr + page_size)) end (pmm_mark_used s addr) in
    if ltb addr end then next else s

unfoldable pub pmm_mark_region_used : Pmm → ℕ → ℕ → Pmm
unfolding mark_used_loop
pmm_mark_region_used s start size =
    mark_used_loop region_fuel (page_align_down start) (page_align_up (u32 (start + size))) s

-- The loop body of `pmm_mark_region_free`.
unfoldable pub clear_page_at : Bitmap → ℕ → Bitmap
unfolding bitmap_clear
clear_page_at bm addr =
    if ltb (addr_to_page addr) max_pages then bitmap_clear bm (addr_to_page addr) else bm

unfoldable pub mark_free_loop : ℕ → ℕ → ℕ → Bitmap → Bitmap
unfolding clear_page_at
mark_free_loop zero addr end bm = bm
mark_free_loop (suc fuel) addr end bm =
    let next = mark_free_loop fuel (u32 (addr + page_size)) end (clear_page_at bm addr) in
    if ltb addr end then next else bm

unfoldable pub pmm_mark_region_free : Pmm → ℕ → ℕ → Pmm
unfolding mark_free_loop
pmm_mark_region_free s start size = record s {
  bitmap =
      mark_free_loop region_fuel (page_align_up start) (page_align_down (u32 (start + size)))
        s.bitmap;
}

unfoldable pub pmm_get_total_memory : Pmm → ℕ
pmm_get_total_memory s = s.total_memory

unfoldable pub pmm_get_free_memory : Pmm → ℕ
pmm_get_free_memory s = u32 (u32 (s.total_pages + 2 ^ 32 - s.used_pages) * page_size)

unfoldable pub pmm_get_used_memory : Pmm → ℕ
pmm_get_used_memory s = u32 (s.used_pages * page_size)
