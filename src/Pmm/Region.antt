-- ===== src/Pmm/Region.antt =====
-- pmm.c: which pages `pmm_mark_region_used` and `pmm_mark_region_free` reach.
use tark_os.Prelude.{ℕ, zero, suc, ◌+◌, ◌-◌, ◌*◌, ◌/◌, ◌^◌, ◌≤◌, ◌<◌, ◌≡◌, refl, ◌∙◌, arith}
use tark_os.Prelude.{Bool, not, ltb, leb, ◌==◌, Bool-cases, inl, inr}
use tark_os.Prelude.{◌&&◌, ◌||◌, length}
use tark_os.Pmm.{
  Pmm, Bitmap, bitmap_test, bitmap_size, max_pages, pmm_mark_used, mark_used_loop,
  pmm_mark_region_used, mark_free_loop, clear_page_at, pmm_mark_region_free, page_size,
  page_align_up, page_align_down, addr_to_page, region_fuel, u32,
}
use tark_os.Pmm.Bitmap.{length-bitmap_clear, test-clear}
use tark_os.Pmm.Invariant.{
  IsValid, IsSized, mark_used-IsValid, mark_used-IsSized, test-mark_used, total_pages-mark_used,
}

-- Page `q` is one of the pages from `a` up to `e`, `e` left out.
abbrev pub in_pages : ℕ → ℕ → ℕ → Bool
in_pages a e q = leb a q && ltb q e

-- The state `t` differs from `s` by the use of the pages from `a` up to `e`, and is sized and, if
-- `s` is, valid.
pub record IsMarked (s : Pmm) (a e : ℕ) (t : Pmm) : Type 0 where
  pub sized : IsSized t
  pub valid : IsValid s → IsValid t
  pub marked :
      (q : ℕ)
      → bitmap_test t.bitmap q ≡ (in_pages a e q && ltb q s.total_pages || bitmap_test s.bitmap q)
  pub same_total : t.total_pages ≡ s.total_pages

mark_used_loop-IsMarked :
    (fuel addr end a e : ℕ) (s : Pmm)
    → IsSized s
    → addr ≡ a * page_size
    → end ≡ e * page_size
    → e < 2 ^ 20
    → e ≤ a + fuel
    → IsMarked s a e (mark_used_loop fuel addr end s)
unfolding mark_used_loop
mark_used_loop-IsMarked zero addr end a e s v at until small enough = record {
  sized = v;
  valid = λ w. w;
  marked = λ q. ground arith;
  same_total = refl;
}
mark_used_loop-IsMarked (suc fuel) addr end a e s v at until small enough =
    elim (Bool-cases (ltb addr end)) [
      | inl go ↦
          let one = pmm_mark_used s addr in
          let less : addr < end = ground arith in
          let rest =
            mark_used_loop-IsMarked fuel (u32 (addr + page_size)) end (a + 1) e one
              (mark_used-IsSized s addr v) (omega arith) until small (omega arith) in
          rw go (record {
            sized = rest.sized;
            valid = λ w. rest.valid (mark_used-IsValid s addr w);
            marked = λ q.
                ground
                  (arith, rest.marked q, test-mark_used s addr q v, total_pages-mark_used s addr);
            same_total = rest.same_total ∙ total_pages-mark_used s addr;
          })
      | inr stop ↦
          rw stop
            (record { sized = v; valid = λ w. w; marked = λ q. ground arith; same_total = refl })
    ]

-- If the region's end, rounded up, is an address, `pmm_mark_region_used` keeps the invariant,
-- marks every page below `total_pages` that the region touches, and changes no other page.
pub mark_region_used-IsMarked :
    (s : Pmm) (start size : ℕ)
    → IsSized s
    → start + size + page_size ≤ 2 ^ 32
    → IsMarked s
        (start / page_size)
        ((start + size + page_size - 1) / page_size)
        (pmm_mark_region_used s start size)
unfolding pmm_mark_region_used
mark_region_used-IsMarked s start size v h =
    mark_used_loop-IsMarked region_fuel (page_align_down start) (page_align_up (u32 (start + size)))
      (start / page_size) ((start + size + page_size - 1) / page_size) s v (omega arith)
      (omega arith) (omega arith) (omega arith)

-- The bitmap `out` has the full size and differs from `bm` by the release of the pages from `a` up
-- to `e`.
pub record IsReleased (bm : Bitmap) (a e : ℕ) (out : Bitmap) : Type 0 where
  pub size : length out ≡ bitmap_size
  pub released :
      (q : ℕ) → bitmap_test out q ≡ (not (in_pages a e q && ltb q max_pages) && bitmap_test bm q)

length-clear_page_at : (bm : Bitmap) (addr : ℕ) → length (clear_page_at bm addr) ≡ length bm
unfolding clear_page_at
length-clear_page_at bm addr = ground (arith, length-bitmap_clear bm (addr_to_page addr))

test-clear_page_at :
    (bm : Bitmap) (addr q : ℕ)
    → length bm ≡ bitmap_size
    → bitmap_test (clear_page_at bm addr) q
      ≡ (not ((addr_to_page addr == q) && ltb q max_pages) && bitmap_test bm q)
unfolding clear_page_at
test-clear_page_at bm addr q size =
    let p = addr_to_page addr in
    elim (Bool-cases (ltb p max_pages)) [
      | inl fits ↦
          let inside : p / 32 < length bm = ground arith in ground (arith, test-clear bm p inside q)
      | inr over ↦ ground arith
    ]

mark_free_loop-IsReleased :
    (fuel addr end a e : ℕ) (bm : Bitmap)
    → length bm ≡ bitmap_size
    → addr ≡ a * page_size
    → end ≡ e * page_size
    → e < 2 ^ 20
    → e ≤ a + fuel
    → IsReleased bm a e (mark_free_loop fuel addr end bm)
unfolding mark_free_loop
mark_free_loop-IsReleased zero addr end a e bm size at until small enough = record {
  size = size;
  released = λ q. ground arith;
}
mark_free_loop-IsReleased (suc fuel) addr end a e bm size at until small enough =
    elim (Bool-cases (ltb addr end)) [
      | inl go ↦
          let less : addr < end = ground arith in
          let one = clear_page_at bm addr in
          let rest =
            mark_free_loop-IsReleased fuel (u32 (addr + page_size)) end (a + 1) e one
              (length-clear_page_at bm addr ∙ size) (omega arith) until small (omega arith) in
          rw go (record {
            size = rest.size;
            released = λ q. ground (arith, rest.released q, test-clear_page_at bm addr q size);
          })
      | inr stop ↦ rw stop (record { size = size; released = λ q. ground arith })
    ]

-- If the region's start, rounded up, and its end are addresses, `pmm_mark_region_free` releases
-- every page below MAX_PAGES that lies wholly in the region, and changes no other page.
pub mark_region_free-IsReleased :
    (s : Pmm) (start size : ℕ)
    → length s.bitmap ≡ bitmap_size
    → start + page_size ≤ 2 ^ 32
    → start + size < 2 ^ 32
    → IsReleased s.bitmap
        ((start + page_size - 1) / page_size)
        ((start + size) / page_size)
        (pmm_mark_region_free s start size).bitmap
unfolding pmm_mark_region_free
mark_region_free-IsReleased s start size full h k =
    mark_free_loop-IsReleased region_fuel (page_align_up start)
      (page_align_down (u32 (start + size))) ((start + page_size - 1) / page_size)
      ((start + size) / page_size) s.bitmap full (omega arith) (omega arith) (omega arith)
      (omega arith)
