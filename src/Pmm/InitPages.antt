-- ===== src/Pmm/InitPages.antt =====
-- pmm.c: which pages are free after `pmm_init`, and that the allocator starts valid.
use tark_os.Prelude.{
  ℕ, zero, suc, ◌+◌, ◌-◌, ◌*◌, ◌/◌, ◌%◌, ◌^◌, ◌≤◌, ◌<◌, ◌≡◌, refl, sym, ap, ◌∙◌, ◌↔◌, arith,
}
use native.Mathlib.Numerals.{add-one}
use tark_os.Prelude.{Bool, true, false, not, ltb, leb, ◌==◌, if◌then◌else◌, Bool-cases, inl, inr}
use tark_os.Prelude.{
  ◌&&◌, ◌||◌, List, [], ◌∷◌, length, length-replicate, get_or-replicate, replicate,
}
use tark_os.Prelude.Bits.{test, test-ones}
use tark_os.Pmm.{
  Pmm, Bitmap, bitmap_test, bitmap_size, max_pages, max_memory, page_size, pmm_mark_region_free,
  pmm_mark_region_used, u32,
}
use tark_os.Pmm.Bitmap.{count_used, count_used-le}
use tark_os.Pmm.Invariant.{IsValid}
use tark_os.Pmm.Region.{
  in_pages, IsMarked, IsReleased, mark_region_used-IsMarked, mark_region_free-IsReleased,
}
use tark_os.Pmm.Init.{
  MmapEntry, MultibootInfo, memory_available, mem_map_bit, one_megabyte, region_start, region_end,
  free_entry, free_entries, count_from, init_basic, init_reserve, pmm_init,
}

-- An entry of available memory that holds the whole of page `q`.
abbrev pub covers : MmapEntry → ℕ → Bool
covers e q =
    (e.kind == memory_available)
    && leb e.addr (q * page_size)
    && leb ((q + 1) * page_size) ((e.addr + e.len) % 2 ^ 64)

abbrev pub is_backed : List MmapEntry → ℕ → Bool
is_backed [] q = false
is_backed (e ∷ es) q = covers e q || is_backed es q

abbrev pub first_free_page : ℕ
first_free_page = one_megabyte / page_size

-- The state between two entries of the map.
record IsStarted (s : Pmm) : Type 0 where
  size : length s.bitmap ≡ bitmap_size
  small : s.total_memory ≤ max_memory

total_memory-mark_region_free :
    (s : Pmm) (start size : ℕ) → (pmm_mark_region_free s start size).total_memory ≡ s.total_memory
unfolding pmm_mark_region_free
total_memory-mark_region_free s start size = refl

module _ (s : Pmm) (e : MmapEntry) (v : IsStarted s) where
  -- The release of an entry's part between 1 MB and MAX_MEMORY; no conversion cuts a number off.
  region_freed :
      (m : ℕ)
      → region_start e < region_end e
      → IsReleased s.bitmap
          ((region_start e + page_size - 1) / page_size)
          (region_end e / page_size)
          (pmm_mark_region_free
            (record s { total_memory = m })
            (u32 (region_start e))
            (u32 (region_end e - region_start e))).bitmap
  region_freed m h =
      let start = region_start e in
      let end = region_end e in
      let top : end ≤ max_memory = ground arith in
      let start_fits : u32 start ≡ start = omega arith in
      let size_fits : u32 (end - start) ≡ end - start = omega arith in
      let whole : start + (end - start) ≡ end = omega arith in
      let freed =
        mark_region_free-IsReleased (record s { total_memory = m }) start (end - start) v.size
          (omega arith) (omega arith) in
      rw (start_fits, size_fits) (rw whole at freed)

  free_entry-IsStarted : IsStarted (free_entry s e)
  unfolding free_entry
  free_entry-IsStarted = elim (Bool-cases (e.kind == memory_available)) [
    | inr other ↦ rw other v
    | inl available ↦ elim (Bool-cases (ltb (region_start e) (region_end e))) [
      | inr empty ↦ rw (available, empty) v
      | inl some_pages ↦
          rw (available, some_pages)
            (record {
              size = (region_freed _ (ground arith)).size;
              small = rw total_memory-mark_region_free (ground (arith, v.small));
            })
    ]
  ]

  test-free_entry :
      (q : ℕ)
      → q < max_pages
      → bitmap_test (free_entry s e).bitmap q
        ≡ (not (covers e q && leb first_free_page q) && bitmap_test s.bitmap q)
  unfolding free_entry
  test-free_entry q h = elim (Bool-cases (e.kind == memory_available)) [
    | inr other ↦ rw other
    | inl available ↦ elim (Bool-cases (ltb (region_start e) (region_end e))) [
      | inr empty ↦ rw (available, empty) (ground arith)
      | inl some_pages ↦
          rw (available, some_pages) ((region_freed _ (ground arith)).released q ∙ ground arith)
    ]
  ]

free_entries-IsStarted :
    (es : List MmapEntry) (s : Pmm) → IsStarted s → IsStarted (free_entries es s)
unfolding free_entries
free_entries-IsStarted [] s v = v
free_entries-IsStarted (e ∷ es) s v = free_entries-IsStarted es _ (free_entry-IsStarted s e v)

test-free_entries :
    (es : List MmapEntry) (s : Pmm) (q : ℕ)
    → IsStarted s
    → q < max_pages
    → bitmap_test (free_entries es s).bitmap q
      ≡ (not (is_backed es q && leb first_free_page q) && bitmap_test s.bitmap q)
unfolding free_entries
test-free_entries [] s q v h = ground arith
test-free_entries (e ∷ es) s q v h = ground (
  arith,
  test-free_entries es (free_entry s e) q (free_entry-IsStarted s e v) h,
  test-free_entry s e v q h,
)

-- The counting loop counts the used pages below `total_pages`.
count_from-count_used :
    (bm : Bitmap) (left i j used : ℕ)
    → i + left ≡ j
    → j < 2 ^ 32
    → used ≡ count_used bm i
    → count_from bm left i used ≡ count_used bm j
unfolding count_from count_used
count_from-count_used bm zero i j used e small h =
    let end : i ≡ j = omega arith in h ∙ ap (count_used bm) end
count_from-count_used bm (suc left) i j used e small h =
    count_from-count_used bm left (i + 1) j _ (omega arith) small next
  where
    next : (if bitmap_test bm i then u32 (used + 1) else used) ≡ count_used bm (i + 1)
    next = simp add-one (ground (arith, count_used-le bm i))

count_from_zero : (bm : Bitmap) (n : ℕ) → n < 2 ^ 32 → count_from bm n 0 0 ≡ count_used bm n
unfolding count_used
count_from_zero bm n small = count_from-count_used bm n 0 n 0 (omega arith) small refl

test-full : (q : ℕ) → q < max_pages → bitmap_test (replicate bitmap_size 0xFFFFFFFF) q ≡ true
unfolding bitmap_test
test-full q h =
    rw (get_or-replicate {A = ℕ} bitmap_size (q / 32) 0xFFFFFFFF 0 (omega arith))
      (test-ones 32 (q % 32) (omega arith))

-- The pages that `pmm_init` leaves free: those that an available entry holds, from 1 MB on, and
-- that the kernel's image does not touch.
abbrev pub is_released : MultibootInfo → ℕ → ℕ → ℕ → Bool
is_released mboot kernel_start kernel_end q =
    is_backed mboot.mmap q
    && leb first_free_page q
    && not (in_pages (kernel_start / page_size) ((kernel_end + page_size - 1) / page_size) q)

-- What `pmm_init` establishes where it has a memory map.
pub record IsReady (mboot : MultibootInfo) (kernel_start kernel_end : ℕ) (t : Pmm) : Type 0 where
  pub valid : IsValid t
  pub pages :
      (q : ℕ)
      → q < t.total_pages
      → bitmap_test t.bitmap q ≡ not (is_released mboot kernel_start kernel_end q)

reserve-IsReady :
    (s : Pmm) (mboot : MultibootInfo) (kernel_start kernel_end : ℕ)
    → IsStarted s
    → ((q : ℕ)
        → q < max_pages
        → bitmap_test s.bitmap q ≡ not (is_backed mboot.mmap q && leb first_free_page q))
    → kernel_start ≤ kernel_end
    → kernel_end + page_size ≤ 2 ^ 32
    → IsReady mboot kernel_start kernel_end (init_reserve s kernel_start kernel_end)
unfolding init_reserve
reserve-IsReady s mboot kernel_start kernel_end v freed order fits =
    let counted = record s { total_pages = s.total_memory / page_size } in
    let size_fits : u32 (kernel_end + 2 ^ 32 - kernel_start) ≡ kernel_end - kernel_start =
      omega arith in
    let whole : kernel_start + (kernel_end - kernel_start) ≡ kernel_end = omega arith in
    let image : IsMarked counted (kernel_start / page_size)
        ((kernel_end + page_size - 1) / page_size)
        (pmm_mark_region_used counted kernel_start (kernel_end - kernel_start)) =
      rw whole at (
        mark_region_used-IsMarked counted kernel_start (kernel_end - kernel_start)
          (record { size = v.size; fits = omega (arith, v.small) }) (omega arith)) in
    let kernel = pmm_mark_region_used counted kernel_start (kernel_end - kernel_start) in
    let low = mark_region_used-IsMarked kernel 0 one_megabyte image.sized (omega arith) in
    rw size_fits (record {
      valid = record {
        size = low.sized.size;
        fits = low.sized.fits;
        counted = count_from_zero _ _ (omega (arith, low.sized.fits));
      };
      pages = λ q h. ground (
        arith,
        low.marked q,
        image.marked q,
        freed q (omega (arith, low.sized.fits)),
        low.same_total,
        image.same_total,
      );
    })

-- With a memory map, and the kernel's image below 4 GB less one page, `pmm_init` leaves the
-- allocator valid; of the pages below `total_pages` exactly those are free that an available
-- entry holds whole, that lie above the first megabyte, and that the kernel's image does not touch.
pub init-IsReady :
    (s : Pmm) (mboot : MultibootInfo) (kernel_start kernel_end : ℕ)
    → test mboot.flags mem_map_bit ≡ true
    → s.total_memory ≤ max_memory
    → kernel_start ≤ kernel_end
    → kernel_end + page_size ≤ 2 ^ 32
    → IsReady mboot kernel_start kernel_end (pmm_init s mboot kernel_start kernel_end)
unfolding pmm_init
init-IsReady s mboot kernel_start kernel_end has_map small order fits =
    let full = record s { bitmap = replicate bitmap_size 0xFFFFFFFF } in
    let started : IsStarted full = record {
      size = length-replicate {A = ℕ} bitmap_size 0xFFFFFFFF;
      small = small;
    } in
    rw has_map (
      reserve-IsReady (free_entries mboot.mmap full) mboot kernel_start kernel_end
        (free_entries-IsStarted mboot.mmap full started)
        (λ q h. ground (arith, test-free_entries mboot.mmap full q started h, test-full q h)) order
        fits)

count_used_all :
    (bm : Bitmap) (n : ℕ) → ((q : ℕ) → q < n → bitmap_test bm q ≡ true) → count_used bm n ≡ n
unfolding count_used
count_used_all bm zero h = refl
count_used_all bm (suc n) h =
    ground (arith, count_used_all bm n (λ q l. h q (omega arith)), h n (omega arith))

-- Without a memory map `pmm_init` does not cap the memory at MAX_MEMORY: for any `mem_upper` that
-- does not overflow, it leaves the allocator valid exactly if the memory is below 1 GB and a page.
pub init_basic-IsValid_iff :
    (s : Pmm) (mboot : MultibootInfo) (kernel_start kernel_end : ℕ)
    → test mboot.flags mem_map_bit ≡ false
    → mboot.mem_upper + 1024 < 2 ^ 22
    → IsValid (pmm_init s mboot kernel_start kernel_end) ↔ (mboot.mem_upper + 1024 < 2 ^ 20 + 4)
unfolding pmm_init init_basic
init_basic-IsValid_iff s mboot kernel_start kernel_end no_map fits = rw no_map (
  λ v. omega (arith, v.fits),
  λ small.
      let pages = u32 (u32 (mboot.mem_upper + 1024) * 1024) / page_size in
      let in_bitmap : pages ≤ max_pages = omega arith in
      record {
        size = length-replicate {A = ℕ} bitmap_size 0xFFFFFFFF;
        fits = in_bitmap;
        counted = sym (count_used_all _ pages (λ q h. test-full q (omega arith)));
      },
)
