-- ===== src/Pmm/Invariant.antt =====
-- pmm.c: the allocator's invariant, and that taking and freeing a page keep it.
use tark_os.Prelude.{ℕ, zero, suc, ◌+◌, ◌-◌, ◌/◌, ◌^◌, ◌≤◌, ◌<◌, ◌≡◌, ◌∙◌, arith}
use tark_os.Prelude.{true, false, ltb, leb, ◌==◌, if◌then◌else◌, Bool-cases, inl, inr}
use tark_os.Prelude.{◌&&◌, not, length}
use tark_os.Pmm.{
  Pmm, bitmap_set, bitmap_clear, bitmap_test, bitmap_size, max_pages, take_page, pmm_free_page,
  pmm_mark_used, addr_to_page, free_pages_from, u32,
}
use tark_os.Pmm.Bitmap.{
  count_used, count_used_differ, count_used-le, length-bitmap_set, length-bitmap_clear, test-set,
  test-clear,
}

-- The bitmap has its full size, `total_pages` fits it, and `used_pages` counts the used pages.
pub record IsValid (s : Pmm) : Type 0 where
  pub size : length s.bitmap ≡ bitmap_size
  pub fits : s.total_pages ≤ max_pages
  pub counted : s.used_pages ≡ count_used s.bitmap s.total_pages

-- The part of it that does not speak of `used_pages`.
pub record IsSized (s : Pmm) : Type 0 where
  pub size : length s.bitmap ≡ bitmap_size
  pub fits : s.total_pages ≤ max_pages

pub sized : {s : Pmm} → IsValid s → IsSized s
sized v = record { size = v.size; fits = v.fits }

-- Every page below MAX_PAGES has its word in the bitmap.
pub word_inside : {s : Pmm} (v : IsSized s) (p : ℕ) → p < max_pages → p / 32 < length s.bitmap
word_inside v p h = omega (arith, v.size)

module _ {s : Pmm} (v : IsValid s) (p : ℕ) (h : p < s.total_pages) where
  inside : p / 32 < length s.bitmap
  inside = word_inside (sized v) p (omega (arith, v.fits))

  pub take_page-IsValid : bitmap_test s.bitmap p ≡ false → IsValid (take_page s p)
  unfolding take_page
  take_page-IsValid free = record {
    size = length-bitmap_set s.bitmap p ∙ v.size;
    fits = v.fits;
    counted =
        let grows : count_used (bitmap_set s.bitmap p) s.total_pages
            ≡ count_used s.bitmap s.total_pages + 1 =
          count_used_differ s.bitmap (bitmap_set s.bitmap p) p s.total_pages h free
            (ground (arith, test-set s.bitmap p inside p))
            (λ q ne. ground (arith, test-set s.bitmap p inside q)) in
        omega (arith, grows, v.counted, v.fits, count_used-le s.bitmap s.total_pages);
  }

  -- `bitmap_clear(page); used_pages--;` on a used page.
  pub clear-IsValid :
      bitmap_test s.bitmap p ≡ true
      → IsValid (record s {
        bitmap = bitmap_clear s.bitmap p;
        used_pages = u32 (s.used_pages + 2 ^ 32 - 1);
      })
  clear-IsValid used = record {
    size = length-bitmap_clear s.bitmap p ∙ v.size;
    fits = v.fits;
    counted =
        let shrinks : count_used s.bitmap s.total_pages
            ≡ count_used (bitmap_clear s.bitmap p) s.total_pages + 1 =
          count_used_differ (bitmap_clear s.bitmap p) s.bitmap p s.total_pages h
            (ground (arith, test-clear s.bitmap p inside p)) used
            (λ q ne. ground (arith, test-clear s.bitmap p inside q)) in
        omega (arith, shrinks, v.counted, v.fits, count_used-le s.bitmap s.total_pages);
  }

-- `pmm_mark_used` keeps the invariant.
pub mark_used-IsValid : (s : Pmm) (addr : ℕ) → IsValid s → IsValid (pmm_mark_used s addr)
unfolding pmm_mark_used
mark_used-IsValid s addr v =
    let p = addr_to_page addr in
    elim (Bool-cases (ltb p s.total_pages && not (bitmap_test s.bitmap p))) [
      | inl e ↦ rw e (take_page-IsValid v p (ground arith) (ground arith))
      | inr e ↦ rw e v
    ]

-- `pmm_mark_used` marks the page of its address, if that lies below `total_pages`, and no other.
pub test-mark_used :
    (s : Pmm) (addr q : ℕ)
    → IsSized s
    → bitmap_test (pmm_mark_used s addr).bitmap q
      ≡ (if (addr_to_page addr == q) && ltb q s.total_pages then true else bitmap_test s.bitmap q)
unfolding pmm_mark_used take_page
test-mark_used s addr q v =
    let p = addr_to_page addr in
    elim (Bool-cases (ltb p s.total_pages && not (bitmap_test s.bitmap p))) [
      | inl e ↦
          let in_range : p < max_pages = ground (arith, v.fits) in
          rw e (ground (arith, test-set s.bitmap p (word_inside v p in_range) q))
      | inr e ↦ rw e (elim (Bool-cases (p == q)) [
        | inl same ↦ let there : p ≡ q = ground arith in rw (← there) (ground arith)
        | inr other ↦ ground arith
      ])
    ]

pub mark_used-IsSized : (s : Pmm) (addr : ℕ) → IsSized s → IsSized (pmm_mark_used s addr)
unfolding pmm_mark_used take_page
mark_used-IsSized s addr v =
    ground (arith, v.size, v.fits, length-bitmap_set s.bitmap (addr_to_page addr))

pub total_pages-mark_used :
    (s : Pmm) (addr : ℕ) → (pmm_mark_used s addr).total_pages ≡ s.total_pages
unfolding pmm_mark_used take_page
total_pages-mark_used s addr = ground arith

-- `pmm_free_page` keeps the invariant.
pub free_page-IsValid : (s : Pmm) (addr : ℕ) → IsValid s → IsValid (pmm_free_page s addr)
unfolding pmm_free_page
free_page-IsValid s addr v =
    let p = addr_to_page addr in
    elim (Bool-cases (leb s.total_pages p)) [
      | inl off ↦ rw off v
      | inr on ↦ elim (Bool-cases (bitmap_test s.bitmap p)) [
        | inl used ↦ rw (on, used) (clear-IsValid v p (ground arith) used)
        | inr free ↦ rw (on, free) v
      ]
    ]

-- `pmm_free_page` frees the page of its address, if that lies below `total_pages`, and no other.
pub test-free_page :
    (s : Pmm) (addr q : ℕ)
    → IsSized s
    → bitmap_test (pmm_free_page s addr).bitmap q
      ≡ (if (addr_to_page addr == q) && ltb q s.total_pages then false else bitmap_test s.bitmap q)
unfolding pmm_free_page
test-free_page s addr q v =
    let p = addr_to_page addr in
    elim (Bool-cases (leb s.total_pages p)) [
      | inl off ↦ rw off (ground arith)
      | inr on ↦
          let in_range : p < max_pages = ground (arith, v.fits) in
          elim (Bool-cases (bitmap_test s.bitmap p)) [
            | inl used ↦
                rw (on, used) (ground (arith, test-clear s.bitmap p (word_inside v p in_range) q))
            | inr free ↦
                rw (on, free)
                  (elim (Bool-cases (p == q)) [
                    | inl same ↦ let there : p ≡ q = ground arith in rw (← there) (ground arith)
                    | inr other ↦ ground arith
                  ])
          ]
    ]

-- `pmm_free_pages` keeps the invariant.
pub free_pages_from-IsValid :
    (left addr i : ℕ) (s : Pmm) → IsValid s → IsValid (free_pages_from left addr i s)
unfolding free_pages_from
free_pages_from-IsValid zero addr i s v = v
free_pages_from-IsValid (suc left) addr i s v =
    free_pages_from-IsValid left addr (i + 1) _ (free_page-IsValid s _ v)
