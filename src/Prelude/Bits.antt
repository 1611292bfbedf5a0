-- ===== src/Prelude/Bits.antt =====
-- The binary digits of a word, and what `|`, `&` and `&~` with a one-bit mask do to them.
use Prim.Native.Nat.{
  ℕ, zero, suc, ◌+◌, ◌-◌, ◌*◌, ◌/◌, ◌%◌, ◌^◌, ◌≤◌, ◌<◌, min, max, bit_and, bit_or, digits,
  bit_and-bitwise, bit_or-bitwise,
}
use mathlib.Core.Path.{◌≡◌, refl, ap, ◌∙◌}
use mathlib.Core.Logic.{◌⊎◌, inl, inr}
use mathlib.Core.Bool.{Bool, true, false, not}
use native.Mathlib.Nat.{pow-suc, one-le-pow}
use native.Mathlib.Omega.{arith}
use package.tark_os.Prelude.Tests.{◌==◌, if◌then◌else◌}

-- The digits of the native operations do not depend on the fuel, if there is enough.
module _ (end : ℕ → ℕ) (op : ℕ → ℕ → ℕ) where
  digits_enough : (n m a b : ℕ) → a ≤ n → a ≤ m → digits end op n a b ≡ digits end op m a b
  digits_enough zero zero a b p q = refl
  digits_enough zero (suc m) zero b p q = refl
  digits_enough zero (suc m) (suc a) b p q = absurd (omega arith)
  digits_enough (suc n) zero zero b p q = refl
  digits_enough (suc n) zero (suc a) b p q = absurd (omega arith)
  digits_enough (suc n) (suc m) zero b p q = refl
  digits_enough (suc n) (suc m) (suc a) b p q =
      rw (digits_enough n m (suc a / 2) (b / 2) (omega arith) (omega arith))

pub or_lowest : (a b : ℕ) → bit_or a b ≡ bit_or (a / 2) (b / 2) * 2 + max (a % 2) (b % 2)
or_lowest zero b = omega (arith, bit_or-bitwise 0 b, bit_or-bitwise 0 (b / 2))
or_lowest (suc a) b = omega (
  arith,
  bit_or-bitwise (suc a) b,
  bit_or-bitwise (suc a / 2) (b / 2),
  digits_enough (λ y. y) max a (suc a / 2) (suc a / 2) (b / 2) (omega arith) (omega arith),
)

pub and_lowest : (a b : ℕ) → bit_and a b ≡ bit_and (a / 2) (b / 2) * 2 + min (a % 2) (b % 2)
and_lowest zero b = omega (arith, bit_and-bitwise 0 b, bit_and-bitwise 0 (b / 2))
and_lowest (suc a) b = omega (
  arith,
  bit_and-bitwise (suc a) b,
  bit_and-bitwise (suc a / 2) (b / 2),
  digits_enough (λ y. 0) min a (suc a / 2) (suc a / 2) (b / 2) (omega arith) (omega arith),
)

-- Digit `k` of `w`.
unfoldable pub bit : ℕ → ℕ → ℕ
bit w zero = w % 2
bit w (suc k) = bit (w / 2) k

pub bit-le : (w k : ℕ) → bit w k ≤ 1
unfolding bit
bit-le w zero = omega arith
bit-le w (suc k) = bit-le (w / 2) k

or_zero_below : (n a : ℕ) → a ≤ n → bit_or a 0 ≡ a
or_zero_below n zero h = refl
or_zero_below zero (suc a) h = absurd (omega arith)
or_zero_below (suc n) (suc a) h =
    omega (arith, or_lowest (suc a) 0, or_zero_below n (suc a / 2) (omega arith))

zero_or_below : (n a : ℕ) → a ≤ n → bit_or 0 a ≡ a
zero_or_below n zero h = refl
zero_or_below zero (suc a) h = absurd (omega arith)
zero_or_below (suc n) (suc a) h =
    omega (arith, or_lowest 0 (suc a), zero_or_below n (suc a / 2) (omega arith))

pub zero_or : (a : ℕ) → bit_or 0 a ≡ a
zero_or a = zero_or_below a a (omega arith)

or_zero : (a : ℕ) → bit_or a 0 ≡ a
or_zero a = or_zero_below a a (omega arith)

and_zero_below : (n a : ℕ) → a ≤ n → bit_and a 0 ≡ 0
and_zero_below n zero h = refl
and_zero_below zero (suc a) h = absurd (omega arith)
and_zero_below (suc n) (suc a) h =
    omega (arith, and_lowest (suc a) 0, and_zero_below n (suc a / 2) (omega arith))

pub and_zero : (a : ℕ) → bit_and a 0 ≡ 0
and_zero a = and_zero_below a a (omega arith)

pow_half : (k : ℕ) → 2 ^ suc k / 2 ≡ 2 ^ k
pow_half k = omega (arith, pow-suc 2 k)

and_pow_suc : (w k : ℕ) → bit_and w (2 ^ suc k) ≡ bit_and (w / 2) (2 ^ k) * 2
and_pow_suc w k =
    omega (arith, and_lowest w (2 ^ suc k), pow-suc 2 k, ap (bit_and (w / 2)) (pow_half k))

or_pow_suc : (w k : ℕ) → bit_or w (2 ^ suc k) ≡ bit_or (w / 2) (2 ^ k) * 2 + w % 2
or_pow_suc w k =
    omega (arith, or_lowest w (2 ^ suc k), pow-suc 2 k, ap (bit_or (w / 2)) (pow_half k))

-- `w & (1 << k)` is digit `k` in its place.
pub and_pow : (k w : ℕ) → bit_and w (2 ^ k) ≡ bit w k * 2 ^ k
unfolding bit
and_pow zero w = omega (arith, and_lowest w 1, and_zero (w / 2))
and_pow (suc k) w =
    omega
      (arith, and_pow_suc w k, and_pow k (w / 2), ap (λ (t : ℕ). bit (w / 2) k * t) (pow-suc 2 k))

or_one : (w : ℕ) → bit_or w 1 ≡ w / 2 * 2 + 1
or_one w = omega (arith, or_lowest w 1, or_zero (w / 2))

-- `w | (1 << k)` sets digit `k` and no other.
pub bit-or_pow : (k j w : ℕ) → bit (bit_or w (2 ^ k)) j ≡ (if k == j then 1 else bit w j)
unfolding bit
bit-or_pow zero zero w = omega (arith, or_one w)
bit-or_pow zero (suc j) w =
    let halved : bit_or w 1 / 2 ≡ w / 2 = omega (arith, or_one w) in
    ap (λ t. bit t j) halved ∙ ground arith
bit-or_pow (suc k) zero w = ground (arith, or_pow_suc w k)
bit-or_pow (suc k) (suc j) w =
    let halved : bit_or w (2 ^ suc k) / 2 ≡ bit_or (w / 2) (2 ^ k) =
      omega (arith, or_pow_suc w k) in
    ap (λ t. bit t j) halved ∙ bit-or_pow k j (w / 2) ∙ ground arith

-- The mask of `n` ones, and the same without digit `k`: `~(1 << k)` in `n` bits.
abbrev pub ones : ℕ → ℕ
ones n = 2 ^ n - 1

abbrev pub hole : ℕ → ℕ → ℕ
hole n k = 2 ^ n - 1 - 2 ^ k

ones_half : (n : ℕ) → (ones (suc n) / 2 ≡ ones n) × (ones (suc n) % 2 ≡ 1)
ones_half n = omega (arith, pow-suc 2 n, one-le-pow n 2)

pow-lt-pow : (n k : ℕ) → k < n → 2 ^ k + 1 ≤ 2 ^ n
pow-lt-pow zero k h = absurd (omega arith)
pow-lt-pow (suc n) zero h = omega (arith, pow-suc 2 n, one-le-pow n 2)
pow-lt-pow (suc n) (suc k) h = omega (arith, pow-suc 2 n, pow-suc 2 k, pow-lt-pow n k (omega arith))

hole_half :
    (n k : ℕ) → k < n → (hole (suc n) (suc k) / 2 ≡ hole n k) × (hole (suc n) (suc k) % 2 ≡ 1)
hole_half n k h = omega (arith, pow-suc 2 n, pow-suc 2 k, pow-lt-pow n k h)

hole_first : (n : ℕ) → (hole (suc n) 0 / 2 ≡ ones n) × (hole (suc n) 0 % 2 ≡ 0)
hole_first n = omega (arith, pow-suc 2 n, one-le-pow n 2)

bit-and_step : (w m m' j : ℕ) → m / 2 ≡ m' → bit (bit_and w m) (suc j) ≡ bit (bit_and (w / 2) m') j
unfolding bit
bit-and_step w m m' j e =
    ap (λ t. bit t j)
      (let e' : bit_and (w / 2) (m / 2) ≡ bit_and (w / 2) m' = ap (bit_and (w / 2)) e in
        omega (arith, and_lowest w m))

-- `w & ones` keeps the low digits.
bit-and_ones : (n j w : ℕ) → j < n → bit (bit_and w (ones n)) j ≡ bit w j
unfolding bit
bit-and_ones zero j w h = absurd (omega arith)
bit-and_ones (suc n) zero w h = omega (arith, and_lowest w (ones (suc n)), ones_half n)
bit-and_ones (suc n) (suc j) w h =
    bit-and_step w (ones (suc n)) (ones n) j (ones_half n).0
    ∙ bit-and_ones n j (w / 2) (omega arith)

-- `w & ~(1 << k)` clears digit `k` and no other.
pub bit-and_hole :
    (n k j w : ℕ) → k < n → j < n → bit (bit_and w (hole n k)) j ≡ (if k == j then 0 else bit w j)
unfolding bit
bit-and_hole zero k j w hk hj = absurd (omega arith)
bit-and_hole (suc n) zero zero w hk hj = omega (arith, and_lowest w (hole (suc n) 0), hole_first n)
bit-and_hole (suc n) zero (suc j) w hk hj =
    bit-and_step w (hole (suc n) 0) (ones n) j (hole_first n).0
    ∙ bit-and_ones n j (w / 2) (omega arith)
    ∙ ground arith
bit-and_hole (suc n) (suc k) zero w hk hj =
    let lowest : bit_and w (hole (suc n) (suc k)) % 2 ≡ w % 2 =
      omega (arith, and_lowest w (hole (suc n) (suc k)), hole_half n k (omega arith)) in
    lowest ∙ ground arith
bit-and_hole (suc n) (suc k) (suc j) w hk hj =
    bit-and_step w (hole (suc n) (suc k)) (hole n k) j (hole_half n k (omega arith)).0
    ∙ bit-and_hole n k j (w / 2) (omega arith) (omega arith)
    ∙ ground arith

pub bit-ones : (n j : ℕ) → j < n → bit (ones n) j ≡ 1
unfolding bit
bit-ones zero j h = absurd (omega arith)
bit-ones (suc n) zero h = (ones_half n).1
bit-ones (suc n) (suc j) h = ap (λ t. bit t j) (ones_half n).0 ∙ bit-ones n j (omega arith)

-- The C test `(w & (1 << k)) != 0`.
unfoldable pub test : ℕ → ℕ → Bool
test w k = not (bit_and w (2 ^ k) == 0)

pub test-bit : (w k : ℕ) → test w k ≡ (bit w k == 1)
unfolding test
test-bit w k = elim (bit_cases (bit w k) (bit-le w k)) [
  | inl e ↦ rw (and_pow k w, e) (ground arith)
  | inr e ↦ rw (and_pow k w, e) (ground (arith, one-le-pow k 2))
]
  where
    bit_cases : (b : ℕ) → b ≤ 1 → (b ≡ 0) ⊎ (b ≡ 1)
    bit_cases b h = omega arith

pub test-or_pow : (k j w : ℕ) → test (bit_or w (2 ^ k)) j ≡ (if k == j then true else test w j)
test-or_pow k j w = ground (arith, test-bit (bit_or w (2 ^ k)) j, test-bit w j, bit-or_pow k j w)

pub test-and_hole :
    (n k j w : ℕ)
    → k < n
    → j < n
    → test (bit_and w (hole n k)) j ≡ (if k == j then false else test w j)
test-and_hole n k j w hk hj =
    ground (arith, test-bit (bit_and w (hole n k)) j, test-bit w j, bit-and_hole n k j w hk hj)

pub test-ones : (n j : ℕ) → j < n → test (ones n) j ≡ true
test-ones n j h = ground (arith, test-bit (ones n) j, bit-ones n j h)
