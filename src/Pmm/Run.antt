-- ===== src/Pmm/Run.antt =====
-- pmm.c: what `bitmap_find_free_contiguous` finds.
use tark_os.Prelude.{ℕ, zero, suc, ◌+◌, ◌-◌, ◌^◌, ◌≤◌, ◌<◌, ◌≡◌, ◌≢◌, refl, arith}
use tark_os.Prelude.{true, false, ltb, ◌==◌, Bool-cases, Option-cases, ◌⊎◌, inl, inr}
use tark_os.Prelude.{==→eq, ==→ne, Option, none, some, if◌then◌else◌}
use tark_os.Pmm.{Pmm, Bitmap, bitmap_test, find_run, bitmap_find_free_contiguous}
use tark_os.Pmm.{not_found, max_pages, u32}

module _ (bm : Bitmap) (count : ℕ) where
  -- The `n` pages from `start` on are free.
  abbrev pub IsFreeRun : ℕ → ℕ → Type 0
  IsFreeRun start n = (q : ℕ) → start ≤ q → q < start + n → bitmap_test bm q ≡ false

  -- A used page among the `count` pages from `t` on.
  abbrev pub IsBlocked : ℕ → Type 0
  IsBlocked t = (q : ℕ) × (t ≤ q) × (q < t + count) × (bitmap_test bm q ≡ true)

  -- The result of a search of the pages below `total` for `count` free ones in a row.
  abbrev pub IsFirstRun : ℕ → Option ℕ → Type 0
  IsFirstRun total none = (t : ℕ) → t + count ≤ total → IsBlocked t
  IsFirstRun total (some start) =
      (start + count ≤ total) × IsFreeRun start count × ((t : ℕ) → t < start → IsBlocked t)

  -- The state of the loop at `i`: `found` free pages end at `i`, and the page before them is used.
  record IsScanned (i start found : ℕ) : Type 0 where
    short : found < count
    back : found ≤ i
    first : found ≢ 0 → start ≡ i - found
    free : IsFreeRun (i - found) found
    edge : found < i → bitmap_test bm (i - found - 1) ≡ true
    none_yet : (t : ℕ) → t + count ≤ i → IsBlocked t

  module _ (i start found : ℕ) (s : IsScanned i start found) where
    none_after_used : bitmap_test bm i ≡ true → (t : ℕ) → t + count ≤ i + 1 → IsBlocked t
    none_after_used u t h = elim (Bool-cases (t + count == i + 1)) [
      | inl e ↦ (i, ground (arith, s.short), ground arith, u)
      | inr e ↦ s.none_yet t (ground arith)
    ]

    -- A run that ends behind a free page but starts before the current one is blocked.
    IsBlocked-by_edge : (t : ℕ) → t < i - found → i + 1 ≤ t + count → IsBlocked t
    IsBlocked-by_edge t l h = (i - found - 1, omega arith, omega arith, s.edge (omega arith))

    none_after_free : found + 1 ≢ count → (t : ℕ) → t + count ≤ i + 1 → IsBlocked t
    none_after_free ne t h = elim (Bool-cases (t + count == i + 1)) [
      | inl e ↦ IsBlocked-by_edge t (ground (arith, s.short, s.back)) (ground arith)
      | inr e ↦ s.none_yet t (ground arith)
    ]

    none_before : found + 1 ≡ count → (t : ℕ) → t < i - found → IsBlocked t
    none_before e t l = elim (Bool-cases (ltb i (t + count))) [
      | inl b ↦ IsBlocked-by_edge t l (ground arith)
      | inr b ↦ s.none_yet t (ground arith)
    ]

    free_grown : bitmap_test bm i ≡ false → IsFreeRun (i - found) (found + 1)
    free_grown f q a b = elim (Bool-cases (q == i)) [
      | inl e ↦ let here : q ≡ i = ==→eq q i e in rw here f
      | inr e ↦ s.free q a (ground (arith, s.back, ==→ne q i e))
    ]

    IsScanned-used : bitmap_test bm i ≡ true → IsScanned (i + 1) start 0
    IsScanned-used u = record {
      short = omega (arith, s.short);
      back = omega arith;
      first = λ h. absurd (h refl);
      free = λ q a b. absurd (omega arith);
      edge = λ h. let here : i + 1 - 0 - 1 ≡ i = omega arith in rw here u;
      none_yet = none_after_used u;
    }

    IsScanned-free :
        bitmap_test bm i ≡ false
        → found + 1 ≢ count
        → IsScanned (i + 1) (if found == 0 then i else start) (found + 1)
    IsScanned-free f ne =
        let base : i + 1 - (found + 1) ≡ i - found = omega arith in
        record {
          short = omega (arith, s.short);
          back = omega (arith, s.back);
          first = λ h. ground (arith, s.first, s.back);
          free = rw base (free_grown f);
          edge = λ h. rw base (s.edge (omega arith));
          none_yet = none_after_free ne;
        }

  find_run-IsFirstRun :
      (left i start found total : ℕ)
      → i + left ≡ total
      → count < 2 ^ 32
      → IsScanned i start found
      → IsFirstRun total (find_run bm total count left i start found)
  unfolding find_run
  find_run-IsFirstRun zero i start found total e small s = λ t h. s.none_yet t (omega arith)
  find_run-IsFirstRun (suc left) i start found total e small s =
      let start' = if found == 0 then i else start in
      let grown : u32 (found + 1) ≡ found + 1 = omega (arith, s.short) in
      elim (Bool-cases (bitmap_test bm i)) [
        | inl used ↦ rw used (
            find_run-IsFirstRun left (i + 1) start 0 total (omega arith) small
              (IsScanned-used i start found s used))
        | inr free ↦ elim (Bool-cases (found + 1 == count)) [
          | inl full ↦
              let at : start' ≡ i - found = ground (arith, s.first, s.back) in
              let size : found + 1 ≡ count = ==→eq _ _ full in
              rw (free, grown, full, at)
                (
                  omega (arith, s.back),
                  rw (← size) (free_grown i start found s free),
                  none_before i start found s size,
                )
          | inr more ↦
              rw (free, grown, more)
                (find_run-IsFirstRun left (i + 1) start' (found + 1) total (omega arith) small
                  (IsScanned-free i start found s free (==→ne _ _ more)))
        ]
      ]

-- The result of `bitmap_find_free_contiguous` for a count other than 0: the first free run of that
-- many pages below `total_pages`, or -1 where there is none.
pub find_free_contiguous-cases :
    (s : Pmm) (count : ℕ)
    → s.total_pages ≤ max_pages
    → 0 < count
    → count < 2 ^ 32
    → ((bitmap_find_free_contiguous s count ≡ not_found)
        × ((t : ℕ) → t + count ≤ s.total_pages → IsBlocked s.bitmap count t))
      ⊎ ((bitmap_find_free_contiguous s count + count ≤ s.total_pages)
          × IsFreeRun s.bitmap count (bitmap_find_free_contiguous s count) count
          × ((t : ℕ) → t < bitmap_find_free_contiguous s count → IsBlocked s.bitmap count t))
unfolding bitmap_find_free_contiguous
find_free_contiguous-cases s count few some_count small =
    let total = s.total_pages in
    let spec = find_run-IsFirstRun s.bitmap count total 0 0 0 total (omega arith) small (record {
      short = some_count;
      back = omega arith;
      first = λ h. absurd (h refl);
      free = λ q a b. absurd (omega arith);
      edge = λ h. absurd (omega arith);
      none_yet = λ t h. absurd (omega arith);
    }) in
    elim (Option-cases (find_run s.bitmap total count total 0 0 0)) [
      | inl e ↦ inl (rw e, rw e at spec)
      | inr (start, e) ↦ rw e (inr (rw e at spec))
    ]
