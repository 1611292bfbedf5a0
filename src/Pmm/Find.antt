-- ===== src/Pmm/Find.antt =====
-- pmm.c: what `bitmap_find_free` and `bitmap_find_free_contiguous` find.
use tark_os.Prelude.{ℕ, zero, suc, ◌+◌, ◌*◌, ◌/◌, ◌%◌, ◌≤◌, ◌<◌, ◌≡◌, refl}
use tark_os.Prelude.{true, false, not, ◌&&◌, ltb, ◌==◌, Bool-cases, Option-cases, arith}
use tark_os.Prelude.{◌⊎◌, inl, inr, ==→eq, Option, none, some, get_or}
use tark_os.Prelude.Bits.{test-ones}
use tark_os.Pmm.{
  Pmm, Bitmap, bitmap_test, find_in_block, find_from, bitmap_find_free, not_found, max_pages,
}

module _ (bm : Bitmap) (total : ℕ) where
  -- The result of a search of the pages from `lo` to `hi` for the first free one below `total`.
  abbrev pub IsFirstFree : ℕ → ℕ → Option ℕ → Type 0
  IsFirstFree lo hi none = (q : ℕ) → lo ≤ q → q < hi → q < total → bitmap_test bm q ≡ true
  IsFirstFree lo hi (some p) =
      (lo ≤ p)
      × (p < hi)
      × (p < total)
      × (bitmap_test bm p ≡ false)
      × ((q : ℕ) → lo ≤ q → q < p → bitmap_test bm q ≡ true)

  IsFirstFree-extend :
      (lo mid hi : ℕ) (o : Option ℕ)
      → lo ≤ mid
      → ((q : ℕ) → lo ≤ q → q < mid → q < total → bitmap_test bm q ≡ true)
      → IsFirstFree mid hi o
      → IsFirstFree lo hi o
  IsFirstFree-extend lo mid hi none l below h = λ q a b c. elim (Bool-cases (ltb q mid)) [
    | inl e ↦ below q a (ground arith) c
    | inr e ↦ h q (ground arith) b c
  ]
  IsFirstFree-extend lo mid hi (some p) l below h = (
    omega arith,
    h.1,
    h.2,
    h.3,
    λ q a b. elim (Bool-cases (ltb q mid)) [
      | inl e ↦ below q a (ground arith) (omega arith)
      | inr e ↦ h.4 q (ground arith) b
    ],
  )

  find_in_block-IsFirstFree :
      (i left j : ℕ)
      → j + left ≡ 32
      → IsFirstFree (i * 32 + j) (i * 32 + 32) (find_in_block bm total i left j)
  unfolding find_in_block
  find_in_block-IsFirstFree i zero j e = λ q a b c. absurd (omega arith)
  find_in_block-IsFirstFree i (suc left) j e =
      let page = i * 32 + j in
      elim (Bool-cases (ltb page total && not (bitmap_test bm page))) [
        | inl t ↦
            rw t
              (omega arith, omega arith, ground arith, ground arith, λ q a b. absurd (omega arith))
        | inr t ↦ rw t (
            IsFirstFree-extend page (page + 1) (i * 32 + 32) (find_in_block bm total i left (j + 1))
              (omega arith) (λ q a b c. let here : q ≡ page = omega arith in rw here (ground arith))
              (let next : i * 32 + (j + 1) ≡ page + 1 = omega arith in
                rw (← next) (find_in_block-IsFirstFree i left (j + 1) (omega arith))))
      ]

  -- A word of ones marks 32 used pages: the code need not look into it.
  full_word :
      (i q : ℕ)
      → get_or bm i 0 ≡ 0xFFFFFFFF
      → i * 32 ≤ q
      → q < i * 32 + 32
      → bitmap_test bm q ≡ true
  unfolding bitmap_test
  full_word i q full a b =
      let word : q / 32 ≡ i = omega arith in rw (word, full) (test-ones 32 (q % 32) (omega arith))

  find_from-IsFirstFree :
      (left i : ℕ) → IsFirstFree (i * 32) ((i + left) * 32) (find_from bm total left i)
  unfolding find_from
  find_from-IsFirstFree zero i = λ q a b c. absurd (omega arith)
  find_from-IsFirstFree (suc left) i =
      let rest = find_from bm total left (i + 1) in
      let end : (i + 1 + left) * 32 ≡ (i + suc left) * 32 = omega arith in
      let ih : IsFirstFree ((i + 1) * 32) ((i + suc left) * 32) rest =
        rw (← end) (find_from-IsFirstFree left (i + 1)) in
      elim (Bool-cases (get_or bm i 0 == 0xFFFFFFFF)) [
        | inl full ↦ rw full (
            IsFirstFree-extend (i * 32) ((i + 1) * 32) ((i + suc left) * 32) rest (omega arith)
              (λ q a b c. full_word i q (==→eq _ _ full) a (omega arith)) ih)
        | inr some_free ↦ rw some_free (elim (Option-cases (find_in_block bm total i 32 0)) [
          | inl e ↦ rw e (
              IsFirstFree-extend (i * 32) ((i + 1) * 32) ((i + suc left) * 32) rest (omega arith)
                (λ q a b c.
                  (rw e at (find_in_block-IsFirstFree i 32 0 refl)) q (omega arith) (omega arith) c)
                ih)
          | inr (p, e) ↦
              let hit = rw e at (find_in_block-IsFirstFree i 32 0 refl) in
              rw e (omega arith, omega arith, hit.2, hit.3, λ q a b. hit.4 q (omega arith) b)
        ])
      ]

-- The result of `bitmap_find_free`: with at most MAX_PAGES pages it is the first free page of the
-- whole 32-page words below `total_pages`, or -1 where all of them are used.
pub find_free-cases :
    (s : Pmm)
    → s.total_pages ≤ max_pages
    → ((bitmap_find_free s ≡ not_found)
        × ((q : ℕ) → q < s.total_pages / 32 * 32 → bitmap_test s.bitmap q ≡ true))
      ⊎ ((bitmap_find_free s < s.total_pages / 32 * 32)
          × (bitmap_test s.bitmap (bitmap_find_free s) ≡ false)
          × ((q : ℕ) → q < bitmap_find_free s → bitmap_test s.bitmap q ≡ true))
unfolding bitmap_find_free
find_free-cases s h =
    let spec = find_from-IsFirstFree s.bitmap s.total_pages (s.total_pages / 32) 0 in
    elim (Option-cases (find_from s.bitmap s.total_pages (s.total_pages / 32) 0)) [
      | inl e ↦ inl (rw e, λ q l. (rw e at spec) q (omega arith) (omega arith) (omega arith))
      | inr (p, e) ↦
          let hit = rw e at spec in rw e (inr (omega arith, hit.3, λ q l. hit.4 q (omega arith) l))
    ]
