-- ===== src/Pmm/Alloc.antt =====
-- pmm.c: what `pmm_alloc_page` and `pmm_alloc_pages` return and mark.
use tark_os.Prelude.{
  ℕ, zero, suc, ◌+◌, ◌*◌, ◌/◌, ◌^◌, ◌≤◌, ◌<◌, ◌≡◌, ◌≢◌, refl, sym, ap, ◌∙◌, arith,
}
use tark_os.Prelude.{true, false, ltb, leb, ◌==◌, ◌⊎◌, inl, inr}
use tark_os.Prelude.{◌&&◌, ◌||◌}
use tark_os.Pmm.{
  Pmm, bitmap_test, bitmap_find_free, bitmap_find_free_contiguous, not_found, max_pages, take_page,
  take_pages, pmm_alloc_page, pmm_alloc_pages, pmm_free_page, pmm_get_free_memory,
  pmm_get_used_memory, page_size, u32,
}
use tark_os.Pmm.Bitmap.{count_used, count_used_ext, count_used-le, test-set}
use tark_os.Pmm.Find.{find_free-cases}
use tark_os.Pmm.Run.{IsFreeRun, IsBlocked, find_free_contiguous-cases}
use tark_os.Pmm.Invariant.{
  IsValid, sized, word_inside, take_page-IsValid, test-free_page, free_page-IsValid,
}

pub test-take_page :
    {s : Pmm} (v : IsValid s) (p q : ℕ)
    → p < s.total_pages
    → bitmap_test (take_page s p).bitmap q ≡ (p == q || bitmap_test s.bitmap q)
unfolding take_page
test-take_page {s} v p q h =
    let in_range : p < max_pages = omega (arith, v.fits) in
    test-set s.bitmap p (word_inside (sized v) p in_range) q ∙ ground arith

pub total_pages-take_page : (s : Pmm) (p : ℕ) → (take_page s p).total_pages ≡ s.total_pages
unfolding take_page
total_pages-take_page s p = refl

-- The state that the allocation of the `n` pages from `page` on leaves: they are used now, no
-- other page has changed, and the invariant holds.
pub record IsTaken (s : Pmm) (page n : ℕ) (t : Pmm) : Type 0 where
  pub valid : IsValid t
  pub marked :
      (q : ℕ) → bitmap_test t.bitmap q ≡ (leb page q && ltb q (page + n) || bitmap_test s.bitmap q)
  pub same_total : t.total_pages ≡ s.total_pages

-- `pmm_alloc_page` takes the first free page of the whole words below `total_pages`.
abbrev pub TakesFirstPage : Pmm → Type 0
TakesFirstPage s =
    (page : ℕ) × (bitmap_test s.bitmap page ≡ false)
    × (page < s.total_pages / 32 * 32)
    × ((q : ℕ) → q < page → bitmap_test s.bitmap q ≡ true)
    × ((pmm_alloc_page s).1 ≡ page * page_size)
    × IsTaken s page 1 (pmm_alloc_page s).0

-- All of those pages are used, and `pmm_alloc_page` changes nothing and returns 0.
abbrev pub HasNoPage : Pmm → Type 0
HasNoPage s =
    ((q : ℕ) → q < s.total_pages / 32 * 32 → bitmap_test s.bitmap q ≡ true)
    × (pmm_alloc_page s ≡ (s, 0))

-- On a valid allocator `pmm_alloc_page` either takes the first free page of the whole words below
-- `total_pages`, returns its address, leaves every other page as it is and keeps the invariant;
-- or, all of those pages being used, it returns 0 and changes nothing.
pub alloc_page-cases : (s : Pmm) → IsValid s → TakesFirstPage s ⊎ HasNoPage s
unfolding pmm_alloc_page
alloc_page-cases s v = elim (find_free-cases s v.fits) [
  | inl (none_found, all_used) ↦ inr (all_used, rw none_found)
  | inr (inside, free, below) ↦
      let page = bitmap_find_free s in
      let real : (page == not_found) ≡ false = ground (arith, v.fits) in
      let in_range : page < s.total_pages = omega arith in
      inl (
        page,
        free,
        inside,
        below,
        rw real (omega (arith, v.fits)),
        rw real (record {
          valid = take_page-IsValid v page in_range free;
          marked = λ q. test-take_page v page q in_range ∙ ground arith;
          same_total = total_pages-take_page s page;
        }),
      )
]

take_pages-IsTaken :
    (n page : ℕ) (s : Pmm)
    → IsValid s
    → page + n ≤ s.total_pages
    → IsFreeRun s.bitmap n page n
    → IsTaken s page n (take_pages n page s)
unfolding take_pages
take_pages-IsTaken zero page s v h free = record {
  valid = v;
  marked = λ q. ground arith;
  same_total = refl;
}
take_pages-IsTaken (suc n) page s v h free =
    let next : u32 (page + 1) ≡ page + 1 = omega (arith, v.fits) in
    let in_range : page < s.total_pages = omega arith in
    let one = take_page s page in
    let rest =
      take_pages-IsTaken n (page + 1) one
        (take_page-IsValid v page in_range (free page (omega arith) (omega arith)))
        (rw total_pages-take_page (omega arith))
        (λ q a b.
          ground (arith, test-take_page v page q in_range, free q (omega arith) (omega arith))) in
    rw next (record {
      valid = rest.valid;
      marked = λ q. ground (arith, rest.marked q, test-take_page v page q in_range);
      same_total = rest.same_total ∙ total_pages-take_page s page;
    })

-- `pmm_alloc_pages` takes the first run of `count` free pages below `total_pages`.
abbrev pub TakesFirstRun : Pmm → ℕ → Type 0
TakesFirstRun s count =
    (start : ℕ) × (start + count ≤ s.total_pages)
    × IsFreeRun s.bitmap count start count
    × ((t : ℕ) → t < start → IsBlocked s.bitmap count t)
    × ((pmm_alloc_pages s count).1 ≡ start * page_size)
    × IsTaken s start count (pmm_alloc_pages s count).0

-- Each such run holds a used page, and `pmm_alloc_pages` changes nothing and returns 0.
abbrev pub HasNoRun : Pmm → ℕ → Type 0
HasNoRun s count =
    ((t : ℕ) → t + count ≤ s.total_pages → IsBlocked s.bitmap count t)
    × (pmm_alloc_pages s count ≡ (s, 0))

-- On a valid allocator, for two pages or more, `pmm_alloc_pages` either takes the first run of
-- `count` free pages below `total_pages`, returns the address of its first page, leaves every
-- other page as it is and keeps the invariant; or, each such run holding a used page, it returns 0
-- and changes nothing.
pub alloc_pages-cases :
    (s : Pmm) (count : ℕ)
    → IsValid s
    → 2 ≤ count
    → count < 2 ^ 32
    → TakesFirstRun s count ⊎ HasNoRun s count
unfolding pmm_alloc_pages
alloc_pages-cases s count v two small =
    let not_zero : (count == 0) ≡ false = ground arith in
    let not_one : (count == 1) ≡ false = ground arith in
    elim (find_free_contiguous-cases s count v.fits (omega arith) small) [
      | inl (none_found, blocked) ↦ inr (blocked, rw (not_zero, not_one, none_found))
      | inr (inside, free, first) ↦
          let start = bitmap_find_free_contiguous s count in
          let real : (start == not_found) ≡ false = ground (arith, v.fits) in
          inl (
            start,
            inside,
            free,
            first,
            rw (not_zero, not_one, real) (omega (arith, v.fits)),
            rw (not_zero, not_one, real) (take_pages-IsTaken count start s v inside free),
          )
    ]

total_pages-free_page : (s : Pmm) (addr : ℕ) → (pmm_free_page s addr).total_pages ≡ s.total_pages
unfolding pmm_free_page
total_pages-free_page s addr = ground arith

-- The number of used pages is a function of the bitmap and of `total_pages`.
used_pages_ext :
    {s t : Pmm}
    → IsValid s
    → IsValid t
    → t.total_pages ≡ s.total_pages
    → ((q : ℕ) → bitmap_test t.bitmap q ≡ bitmap_test s.bitmap q)
    → t.used_pages ≡ s.used_pages
used_pages_ext {s} {t} v w e h =
    w.counted
    ∙ ap (count_used t.bitmap) e
    ∙ count_used_ext t.bitmap s.bitmap s.total_pages (λ q l. h q)
    ∙ sym v.counted

-- Freeing the page that `pmm_alloc_page` has just returned gives back every page's old state and
-- the old number of used pages, and the invariant holds.
pub free_page-alloc_page :
    (s : Pmm)
    → IsValid s
    → (pmm_alloc_page s).1 ≢ 0
    → let (t, addr) = pmm_alloc_page s in
      IsValid (pmm_free_page t addr)
      × ((q : ℕ) → bitmap_test (pmm_free_page t addr).bitmap q ≡ bitmap_test s.bitmap q)
      × ((pmm_free_page t addr).used_pages ≡ s.used_pages)
free_page-alloc_page s v some_addr = elim (alloc_page-cases s v) [
  | inl (page, free, inside, below, at, taken) ↦
      let t = (pmm_alloc_page s).0 in
      let addr = (pmm_alloc_page s).1 in
      let valid = free_page-IsValid t addr taken.valid in
      let restored = λ (q : ℕ). restore page free (omega arith) at taken q in
      (
        valid,
        restored,
        used_pages_ext v valid (total_pages-free_page t addr ∙ taken.same_total) restored,
      )
  | inr (all_used, nothing) ↦ absurd (some_addr (rw nothing))
]
  where
    ap_test : {p q : ℕ} → p ≡ q → bitmap_test s.bitmap p ≡ bitmap_test s.bitmap q
    ap_test e = λ i. bitmap_test s.bitmap (e i)

    restore :
        (page : ℕ)
        → bitmap_test s.bitmap page ≡ false
        → page < s.total_pages
        → (pmm_alloc_page s).1 ≡ page * page_size
        → IsTaken s page 1 (pmm_alloc_page s).0
        → (q : ℕ)
        → bitmap_test (pmm_free_page (pmm_alloc_page s).0 (pmm_alloc_page s).1).bitmap q
          ≡ bitmap_test s.bitmap q
    restore page free inside at taken q = ground (
      arith,
      test-free_page (pmm_alloc_page s).0 (pmm_alloc_page s).1 q (sized taken.valid),
      taken.marked q,
      taken.same_total,
      λ (e : page ≡ q). sym free ∙ ap_test e,
    )

-- Two allocations in a row that both succeed return different pages.
pub alloc_page_twice_ne :
    (s : Pmm)
    → IsValid s
    → (pmm_alloc_page s).1 ≢ 0
    → (pmm_alloc_page (pmm_alloc_page s).0).1 ≢ 0
    → (pmm_alloc_page s).1 ≢ (pmm_alloc_page (pmm_alloc_page s).0).1
alloc_page_twice_ne s v one two = elim (alloc_page-cases s v) [
  | inr (all_used, nothing) ↦ absurd (one (rw nothing))
  | inl (page, free, inside, below, at, taken) ↦
      elim (alloc_page-cases (pmm_alloc_page s).0 taken.valid) [
        | inr (all_used, nothing) ↦ absurd (two (rw nothing))
        | inl (page', free', inside', below', at', taken') ↦
            λ same. ground (arith, taken.marked page', at, at', same, free')
      ]
]

-- On a valid allocator the free and the used memory make up all pages, and none of the products
-- overflows.
pub free_memory-add-used_memory :
    (s : Pmm)
    → IsValid s
    → pmm_get_free_memory s + pmm_get_used_memory s ≡ s.total_pages * page_size
unfolding pmm_get_free_memory pmm_get_used_memory
free_memory-add-used_memory s v =
    omega (arith, v.fits, v.counted, count_used-le s.bitmap s.total_pages)
