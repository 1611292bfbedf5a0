-- ===== src/Pmm/Tests.antt =====
-- Runs of pmm.c on a small machine.
use tark_os.Prelude.{ℕ, suc, ◌+◌, ◌*◌, ◌<◌, ◌≡◌, ◌⊎◌, ◌↔◌, refl, ap, arith}
use tark_os.Prelude.{[], ◌∷◌, replicate, length-replicate}
use tark_os.Prelude.Bits.{test}
use tark_os.Pmm.{Pmm, bitmap_test, pmm_alloc_page, pmm_alloc_pages, pmm_free_page}
use tark_os.Pmm.Bitmap.{count_used}
use tark_os.Pmm.Invariant.{IsValid}
use tark_os.Pmm.Alloc.{
  TakesFirstPage, HasNoPage, TakesFirstRun, HasNoRun, alloc_page-cases, alloc_pages-cases,
  free_page-alloc_page,
}
use tark_os.Pmm.Init.{MultibootInfo, pmm_init}
use tark_os.Pmm.InitPages.{IsReady, init-IsReady, init_basic-IsValid_iff}
use tark_os.Pmm.Calls.{Step, here, next, Reach-IsValid}

-- 64 pages; pages 8 to 11 and 40 are free.
abbrev few_free : Pmm
few_free = record {
  bitmap = 0xFFFFF0FF ∷ 0xFFFFFEFF ∷ replicate 8190 0xFFFFFFFF;
  total_memory = 262144;
  used_pages = 59;
  total_pages = 64;
}

few_free-IsValid : IsValid few_free
unfolding count_used bitmap_test
few_free-IsValid = record {
  size = ap (λ n. suc (suc n)) (length-replicate {A = ℕ} 8190 0xFFFFFFFF);
  fits = omega arith;
  counted = refl;
}

first_alloc : (pmm_alloc_page few_free).1 ≡ 8 * 4096
unfolding pmm_alloc_page
first_alloc = refl

second_alloc : (pmm_alloc_page (pmm_alloc_page few_free).0).1 ≡ 9 * 4096
unfolding pmm_alloc_page
second_alloc = refl

no_run_of_five : (pmm_alloc_pages few_free 5).1 ≡ 0
unfolding pmm_alloc_pages
no_run_of_five = refl

alloc_page-cases_example : TakesFirstPage few_free ⊎ HasNoPage few_free
alloc_page-cases_example = alloc_page-cases few_free few_free-IsValid

alloc_pages-cases_example : TakesFirstRun few_free 3 ⊎ HasNoRun few_free 3
alloc_pages-cases_example =
    alloc_pages-cases few_free 3 few_free-IsValid (omega arith) (omega arith)

free_page-alloc_page_example :
    let (t, addr) = pmm_alloc_page few_free in
    IsValid (pmm_free_page t addr)
    × ((q : ℕ) → bitmap_test (pmm_free_page t addr).bitmap q ≡ bitmap_test few_free.bitmap q)
    × ((pmm_free_page t addr).used_pages ≡ few_free.used_pages)
free_page-alloc_page_example =
    free_page-alloc_page few_free few_free-IsValid (omega (arith, first_alloc))

abbrev booted : Pmm
booted = record { bitmap = replicate 8192 0; total_memory = 0; used_pages = 0; total_pages = 0 }

-- 8 MB from 1 MB on, with a hole behind it.
abbrev small_machine : MultibootInfo
small_machine = record {
  flags = 0x40;
  mem_upper = 0;
  mmap =
      record { addr = 0; len = 0x9FC00; kind = 1 }
      ∷ record { addr = 0x100000; len = 0x800000; kind = 1 }
      ∷ record { addr = 0xFFFC0000; len = 0x40000; kind = 2 }
      ∷ [];
}

init-IsReady_example :
    IsReady small_machine 0x100000 0x12345C (pmm_init booted small_machine 0x100000 0x12345C)
unfolding test
init-IsReady_example =
    init-IsReady booted small_machine 0x100000 0x12345C refl (omega arith) (omega arith)
      (omega arith)

abbrev no_map : MultibootInfo
no_map = record { flags = 1; mem_upper = 2000000; mmap = [] }

init_basic-IsValid_iff_example :
    IsValid (pmm_init booted no_map 0x100000 0x12345C) ↔ (2000000 + 1024 < 1048576 + 4)
unfolding test
init_basic-IsValid_iff_example =
    init_basic-IsValid_iff booted no_map 0x100000 0x12345C refl (omega arith)

Reach-IsValid_example : IsValid (pmm_free_page (pmm_alloc_page few_free).0 4096)
Reach-IsValid_example =
    Reach-IsValid (next (next here Step.alloc_page) (Step.free_page 4096)) few_free-IsValid
