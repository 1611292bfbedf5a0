-- ===== src/Clib/NumberLaws.antt =====
-- string.c: a number is read back from the digits that `utoa` writes in base 10.
use tark_os.Prelude.{
  ℕ, zero, suc, ◌+◌, ◌-◌, ◌*◌, ◌/◌, ◌%◌, ◌^◌, ◌<◌, ◌≡◌, refl, ◌∙◌, arith, true, ◌==◌, if_intro, [],
  ◌∷◌,
}
use native.Mathlib.Nat.{pow-suc}
use tark_os.Text.{CString}
use tark_os.Clib.Number.{digit_char, digits_from, reverse_onto, utoa}
use tark_os.Clib.Print.{is_digit}

-- The value of decimal digits behind a number read so far.
unfoldable pub read : ℕ → CString → ℕ
read sofar [] = sofar
read sofar (c ∷ cs) = read (sofar * 10 + (c - b'0')) cs

unfoldable pub AllDigits : CString → Type 0
AllDigits [] = Unit
AllDigits (c ∷ cs) = (is_digit c ≡ true) × AllDigits cs

-- The same with the lowest digit first.
unfoldable low : CString → ℕ → ℕ
low [] above = above
low (c ∷ cs) above = low cs above * 10 + (c - b'0')

read-reverse :
    (ds done : CString) (above : ℕ) → read above (reverse_onto ds done) ≡ read (low ds above) done
unfolding read low reverse_onto
read-reverse [] done above = refl
read-reverse (c ∷ cs) done above = read-reverse cs (c ∷ done) above

low-digits : (fuel value : ℕ) → value < 2 ^ fuel → low (digits_from fuel 10 value) 0 ≡ value
unfolding low digits_from
low-digits zero value h = omega arith
low-digits (suc fuel) value h =
    let rest = low-digits fuel (value / 10) (omega (arith, pow-suc 2 fuel)) in
    if_intro (λ t. low t 0 * 10 + (digit_char (value % 10) - b'0') ≡ value) (value / 10 == 0) _ _
      (λ e. ground arith) (λ e. ground (arith, rest))

AllDigits-digits : (fuel value : ℕ) → AllDigits (digits_from fuel 10 value)
unfolding digits_from AllDigits
AllDigits-digits zero value = tt
AllDigits-digits (suc fuel) value = (
  ground arith,
  if_intro AllDigits (value / 10 == 0) _ _ (λ e. tt) (λ e. AllDigits-digits fuel (value / 10)),
)

AllDigits-reverse :
    (ds done : CString) → AllDigits ds → AllDigits done → AllDigits (reverse_onto ds done)
unfolding AllDigits reverse_onto
AllDigits-reverse [] done h k = k
AllDigits-reverse (c ∷ cs) done h k = AllDigits-reverse cs (c ∷ done) h.1 (h.0, k)

pub utoa-AllDigits : (value : ℕ) → AllDigits (utoa value 10)
unfolding utoa AllDigits
utoa-AllDigits value = AllDigits-reverse (digits_from 32 10 value) [] (AllDigits-digits 32 value) tt

-- What `utoa` writes in base 10 for a `uint32_t` are decimal digits, and they read as the number.
pub utoa-reads :
    (value : ℕ) → value < 2 ^ 32 → AllDigits (utoa value 10) × (read 0 (utoa value 10) ≡ value)
unfolding utoa read
utoa-reads value h =
    (utoa-AllDigits value, read-reverse (digits_from 32 10 value) [] 0 ∙ low-digits 32 value h)
