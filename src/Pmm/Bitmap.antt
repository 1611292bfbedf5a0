-- ===== src/Pmm/Bitmap.antt =====
-- pmm.c: reading the bitmap after a write, and the number of used pages.
use tark_os.Prelude.{ℕ, zero, suc, ◌+◌, ◌/◌, ◌%◌, ◌^◌, ◌≤◌, ◌<◌, ◌≡◌, refl, ◌∙◌, ap}
use tark_os.Prelude.{true, false, ◌==◌, if◌then◌else◌, Bool-cases, ==→eq, ==→ne, inl, inr, arith}
use tark_os.Prelude.{
  bit_and, bit_or, length, length-set, get_or, set, get_or-set_self, get_or-set_ne,
}
use tark_os.Prelude.Bits.{test, hole, test-or_pow, test-and_hole}
use tark_os.Pmm.{Bitmap, bitmap_set, bitmap_clear, bitmap_test}

module _ (bm : Bitmap) (p : ℕ) (inside : p / 32 < length bm) where
  -- Reading page `q` after the word of page `p` was replaced.
  test-set_word :
      (w q : ℕ)
      → test (get_or (set bm (p / 32) w) (q / 32) 0) (q % 32)
        ≡ (if p / 32 == q / 32 then test w (q % 32) else bitmap_test bm q)
  unfolding bitmap_test
  test-set_word w q = elim (Bool-cases (p / 32 == q / 32)) [
    | inl e ↦ rw e (
        ap (λ t. test t (q % 32))
          (rw (← ==→eq (p / 32) (q / 32) e) (get_or-set_self bm (p / 32) w 0 inside)))
    | inr e ↦
        rw e (ap (λ t. test t (q % 32)) (get_or-set_ne bm (p / 32) (q / 32) w 0 (==→ne _ _ e)))
  ]

  same_word : (q : ℕ) → (p / 32 == q / 32) ≡ true → get_or bm (p / 32) 0 ≡ get_or bm (q / 32) 0
  same_word q e = ap (λ t. get_or bm t 0) (==→eq (p / 32) (q / 32) e)

  -- Setting a page marks it, and changes no other page.
  pub test-set :
      (q : ℕ) → bitmap_test (bitmap_set bm p) q ≡ (if p == q then true else bitmap_test bm q)
  unfolding bitmap_set bitmap_test
  test-set q =
      let w = get_or bm (p / 32) 0 in
      test-set_word (bit_or w (2 ^ (p % 32))) q
      ∙ ground (
        arith,
        test-or_pow (p % 32) (q % 32) w,
        λ (e : (p / 32 == q / 32) ≡ true). ap (λ t. test t (q % 32)) (same_word q e),
      )

  -- Clearing a page frees it, and changes no other page.
  pub test-clear :
      (q : ℕ) → bitmap_test (bitmap_clear bm p) q ≡ (if p == q then false else bitmap_test bm q)
  unfolding bitmap_clear bitmap_test
  test-clear q =
      let w = get_or bm (p / 32) 0 in
      test-set_word (bit_and w (hole 32 (p % 32))) q
      ∙ ground (
        arith,
        test-and_hole 32 (p % 32) (q % 32) w (omega arith) (omega arith),
        λ (e : (p / 32 == q / 32) ≡ true). ap (λ t. test t (q % 32)) (same_word q e),
      )

pub length-bitmap_set : (bm : Bitmap) (p : ℕ) → length (bitmap_set bm p) ≡ length bm
unfolding bitmap_set
length-bitmap_set bm p = length-set bm _ _

pub length-bitmap_clear : (bm : Bitmap) (p : ℕ) → length (bitmap_clear bm p) ≡ length bm
unfolding bitmap_clear
length-bitmap_clear bm p = length-set bm _ _

-- The number of used pages below `n`.
unfoldable pub count_used : Bitmap → ℕ → ℕ
count_used bm zero = 0
count_used bm (suc n) = count_used bm n + (if bitmap_test bm n then 1 else 0)

pub count_used-le : (bm : Bitmap) (n : ℕ) → count_used bm n ≤ n
unfolding count_used
count_used-le bm zero = omega arith
count_used-le bm (suc n) = ground (arith, count_used-le bm n)

-- Bitmaps that agree below `n` have the same count.
pub count_used_ext :
    (bm bm' : Bitmap) (n : ℕ)
    → ((q : ℕ) → q < n → bitmap_test bm q ≡ bitmap_test bm' q)
    → count_used bm n ≡ count_used bm' n
unfolding count_used
count_used_ext bm bm' zero h = refl
count_used_ext bm bm' (suc n) h =
    ground (arith, count_used_ext bm bm' n (λ q l. h q (omega arith)), h n (omega arith))

-- Bitmaps that differ only in page `p`, free in the first and used in the second.
pub count_used_differ :
    (bm bm' : Bitmap) (p n : ℕ)
    → p < n
    → bitmap_test bm p ≡ false
    → bitmap_test bm' p ≡ true
    → ((q : ℕ) → (p == q) ≡ false → bitmap_test bm q ≡ bitmap_test bm' q)
    → count_used bm' n ≡ count_used bm n + 1
unfolding count_used
count_used_differ bm bm' p zero l f u h = absurd (omega arith)
count_used_differ bm bm' p (suc n) l f u h = elim (Bool-cases (p == n)) [
  | inl e ↦
      let at : p ≡ n = ==→eq p n e in
      ground (
        arith,
        count_used_ext bm bm' n (λ q m. h q (ground arith)),
        ap (bitmap_test bm) at,
        ap (bitmap_test bm') at,
      )
  | inr e ↦ ground (arith, count_used_differ bm bm' p n (ground arith) f u h, h n e)
]
