-- ===== src/Clib/Number.antt =====
-- string.c: `itoa` and `utoa`; kernel/kernel.c: its own `itoa`. The buffer holds the digits, the
-- lowest first, until the last loop turns it round. The callers pass bases from 2 to 36.
use tark_os.Prelude.{
  ℕ, zero, suc, ◌+◌, ◌-◌, ◌/◌, ◌%◌, ltb, ◌==◌, ◌&&◌, if◌then◌else◌, [], ◌∷◌, ◌++◌,
}
use tark_os.Prelude.Int.{ℤ, pos, negsuc, ltb_ℤ, neg_part, to_u32}
use tark_os.Text.{CString}

-- `(digit < 10) ? ('0' + digit) : ('a' + digit - 10)`
abbrev pub digit_char : ℕ → ℕ
digit_char digit = if ltb digit 10 then 48 + digit else 97 + digit - 10

-- The do loop: a value below 2 ^ 32 has at most 32 digits.
unfoldable pub digits_from : ℕ → ℕ → ℕ → CString
digits_from zero base value = []
digits_from (suc fuel) base value =
    let rest = digits_from fuel base (value / base) in
    digit_char (value % base) ∷ (if value / base == 0 then [] else rest)

-- The loop that swaps the ends of the buffer.
unfoldable pub reverse_onto : CString → CString → CString
reverse_onto [] done = done
reverse_onto (c ∷ cs) done = reverse_onto cs (c ∷ done)

unfoldable pub utoa : ℕ → ℕ → CString
unfolding digits_from reverse_onto
utoa value base = reverse_onto (digits_from 32 base value) []

abbrev pub minus_sign : ℕ
minus_sign = 45

unfoldable pub itoa : ℤ → ℕ → CString
unfolding digits_from reverse_onto
itoa value base =
    if base == 10 && ltb_ℤ value (pos 0)
    then reverse_onto (digits_from 32 base (neg_part value) ++ minus_sign ∷ []) []
    else reverse_onto (digits_from 32 base (to_u32 value)) []

-- `itoa` of kernel.c, in base 10.
unfoldable pub kernel_itoa : ℤ → CString
unfolding digits_from reverse_onto
kernel_itoa (pos n) = if n == 0 then 48 ∷ [] else reverse_onto (digits_from 32 10 n) []
kernel_itoa (negsuc n) = reverse_onto (digits_from 32 10 (suc n) ++ minus_sign ∷ []) []
