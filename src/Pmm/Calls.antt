-- ===== src/Pmm/Calls.antt =====
-- pmm.c: the allocator under any sequence of calls of its interface.
use tark_os.Prelude.{ℕ, zero, suc, ◌+◌, ◌^◌, ◌<◌, arith, ltb, ◌==◌, Bool-cases, if_intro, inl, inr}
use tark_os.Pmm.{
  Pmm, pmm_alloc_page, pmm_alloc_pages, pmm_free_page, pmm_free_pages, pmm_mark_used,
  pmm_mark_region_used, mark_used_loop, page_size, page_align_up, page_align_down, region_fuel, u32,
}
use tark_os.Pmm.Invariant.{IsValid, free_page-IsValid, free_pages_from-IsValid, mark_used-IsValid}
use tark_os.Pmm.Alloc.{alloc_page-cases, alloc_pages-cases}

-- One call. A count is a `uint32_t`.
pub data Step (s : Pmm) : Pmm → Type 0 where
  alloc_page : Step s (pmm_alloc_page s).0
  alloc_pages : (count : ℕ) → count < 2 ^ 32 → Step s (pmm_alloc_pages s count).0
  free_page : (addr : ℕ) → Step s (pmm_free_page s addr)
  free_pages : (addr count : ℕ) → Step s (pmm_free_pages s addr count)
  mark_used : (addr : ℕ) → Step s (pmm_mark_used s addr)
  mark_region_used : (start size : ℕ) → Step s (pmm_mark_region_used s start size)

pub data Reach (s : Pmm) : Pmm → Type 0 where
  here : Reach s s
  next : {t u : Pmm} → Reach s t → Step t u → Reach s u

alloc_page-IsValid : (s : Pmm) → IsValid s → IsValid (pmm_alloc_page s).0
alloc_page-IsValid s v = elim (alloc_page-cases s v) [
  | inl (page, free, inside, below, at, taken) ↦ taken.valid
  | inr (all_used, nothing) ↦ rw nothing v
]

alloc_pages-IsValid :
    (s : Pmm) (count : ℕ) → count < 2 ^ 32 → IsValid s → IsValid (pmm_alloc_pages s count).0
unfolding pmm_alloc_pages
alloc_pages-IsValid s count small v = elim (Bool-cases (count == 0)) [
  | inl none_asked ↦ rw none_asked v
  | inr some_asked ↦ elim (Bool-cases (count == 1)) [
    | inl one ↦ rw (some_asked, one) (alloc_page-IsValid s v)
    | inr more ↦ elim (alloc_pages-cases s count v (ground arith) small) [
      | inl (start, inside, free, first, at, taken) ↦ taken.valid
      | inr (blocked, nothing) ↦ rw nothing v
    ]
  ]
]

-- Marking keeps the invariant wherever the region lies, also where its end wraps.
mark_used_loop-IsValid :
    (fuel addr end : ℕ) (s : Pmm) → IsValid s → IsValid (mark_used_loop fuel addr end s)
unfolding mark_used_loop
mark_used_loop-IsValid zero addr end s v = v
mark_used_loop-IsValid (suc fuel) addr end s v =
    if_intro IsValid (ltb addr end) _ _
      (λ e.
        mark_used_loop-IsValid fuel (u32 (addr + page_size)) end (pmm_mark_used s addr)
          (mark_used-IsValid s addr v))
      (λ e. v)

mark_region_used-IsValid :
    (s : Pmm) (start size : ℕ) → IsValid s → IsValid (pmm_mark_region_used s start size)
unfolding pmm_mark_region_used
mark_region_used-IsValid s start size v =
    mark_used_loop-IsValid region_fuel (page_align_down start) (page_align_up (u32 (start + size)))
      s v

Step-IsValid : {s t : Pmm} → Step s t → IsValid s → IsValid t
unfolding pmm_free_pages
Step-IsValid {s} alloc_page v = alloc_page-IsValid s v
Step-IsValid {s} (alloc_pages count small) v = alloc_pages-IsValid s count small v
Step-IsValid {s} (free_page addr) v = free_page-IsValid s addr v
Step-IsValid {s} (free_pages addr count) v = free_pages_from-IsValid count addr 0 s v
Step-IsValid {s} (mark_used addr) v = mark_used-IsValid s addr v
Step-IsValid {s} (mark_region_used start size) v = mark_region_used-IsValid s start size v

-- From a valid allocator every sequence of calls of `pmm_alloc_page`, `pmm_alloc_pages` with a
-- count below 2 ^ 32, `pmm_free_page`, `pmm_free_pages`, `pmm_mark_used` and `pmm_mark_region_used` leads to a valid
-- one: the bitmap keeps its size, and `used_pages` is the number of used pages below
-- `total_pages`.
pub Reach-IsValid : {s t : Pmm} → Reach s t → IsValid s → IsValid t
Reach-IsValid here v = v
Reach-IsValid (next r st) v = Step-IsValid st (Reach-IsValid r v)
