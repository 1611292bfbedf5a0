-- ===== src/Clib/Tests.antt =====
-- Runs of the memory functions.
use tark_os.Clib.NumberLaws.{read, AllDigits}
use tark_os.Prelude.{
  ◌≡◌, ◌≤◌, ◌-◌, length, replicate, refl, arith, inr, [], ◌∷◌, ◌++◌, codes, Option, none, some,
  List,
}
use tark_os.Text.{CString}
use tark_os.Clib.Print.{Arg, word, text, vsprintf, sprintf, to_int, and_then}
use tark_os.Clib.PrintLaws.{vsprintf-append, vsprintf-padded}
use tark_os.Clib.{Memory, memcpy, memmove}
use tark_os.Clib.Number.{utoa, itoa, kernel_itoa}
use tark_os.Prelude.Int.{negsuc}
use tark_os.Clib.Copy.{Copies, memcpy-Copies}

abbrev eight : Memory
eight = 1 ∷ 2 ∷ 3 ∷ 4 ∷ 5 ∷ 6 ∷ 7 ∷ 8 ∷ []

moved_up : memmove eight 2 0 5 ≡ 1 ∷ 2 ∷ 1 ∷ 2 ∷ 3 ∷ 4 ∷ 5 ∷ 8 ∷ []
unfolding memmove
moved_up = refl

memcpy-Copies_example : Copies eight 4 0 4 (memcpy eight 4 0 4)
memcpy-Copies_example = memcpy-Copies eight 4 0 4 (inr (omega arith)) (omega arith)

hexadecimal : utoa 0xBEEF 16 ≡ codes "beef"
unfolding utoa
hexadecimal = refl

negative : itoa (negsuc 41) 10 ≡ codes "-42"
unfolding itoa
negative = refl

kernel_negative : kernel_itoa (negsuc 41) ≡ codes "-42"
unfolding kernel_itoa
kernel_negative = refl

abbrev greeting : Option (CString × List Arg)
greeting =
    vsprintf (codes "%s has %03d%% of %p") (text (some (codes "disk")) ∷ word 7 ∷ word 0xBEEF ∷ [])

greeted : greeting ≡ some (codes "disk has 007% of 0x0000beef", [])
unfolding vsprintf
greeted = refl

-- The NUL behind a last `%` is taken for a letter, and the loop goes on behind it.
last_percent : vsprintf (codes "50%") [] ≡ none
unfolding vsprintf
last_percent = refl

-- The zeros stand before the sign.
zeros_first : vsprintf (codes "%05d") (word 0xFFFFFFD6 ∷ []) ≡ some (codes "00-42", [])
unfolding vsprintf
zeros_first = refl

returned : sprintf (codes "%5u|") (word 42 ∷ []) ≡ some 6
unfolding sprintf
returned = refl

one_word : vsprintf (codes "a%d") (word 5 ∷ word 6 ∷ []) ≡ some (codes "a5", word 6 ∷ [])
unfolding vsprintf
one_word = refl

vsprintf-append_example :
    vsprintf (codes "a%d" ++ codes "-%d") (word 5 ∷ word 6 ∷ [])
    ≡ and_then (codes "a5") (vsprintf (codes "-%d") (word 6 ∷ []))
vsprintf-append_example =
    vsprintf-append (codes "a%d") (codes "-%d") (word 5 ∷ word 6 ∷ []) (word 6 ∷ []) (codes "a5")
      one_word

vsprintf-padded_example :
    (vsprintf (b'%' ∷ b'0' ∷ utoa 8 10 ++ b'd' ∷ codes "!") (word 42 ∷ [])
      ≡ and_then
          (replicate (8 - length (itoa (to_int 42) 10)) b'0' ++ itoa (to_int 42) 10)
          (vsprintf (codes "!") []))
    × (vsprintf (b'%' ∷ b'0' ∷ utoa 8 10 ++ b'x' ∷ codes "!") (word 42 ∷ [])
        ≡ and_then
            (replicate (8 - length (utoa 42 16)) b'0' ++ utoa 42 16)
            (vsprintf (codes "!") []))
    × ((out : CString) × (vsprintf (b'%' ∷ b'0' ∷ utoa 8 10 ++ b'u' ∷ codes "!") (word 42 ∷ [])
          ≡ and_then out (vsprintf (codes "!") []))
        × AllDigits out
        × (read 0 out ≡ 42)
        × (8 ≤ length out))
vsprintf-padded_example = vsprintf-padded 8 42 (codes "!") [] (omega arith) (omega arith)
