-- ===== src/Clib/Print.antt =====
-- kernel/lib/printf.c: formatted output. The result is what is written before the closing NUL, with
-- the arguments that are left; its length is the value returned. Nothing, where the behaviour is
-- not defined: an argument is missing or of another kind, or a directive has no letter before the
-- NUL of the format, after which the code reads on, or a width is 2 ^ 31 or more.
use tark_os.Prelude.{
  ℕ, ◌+◌, ◌-◌, ◌*◌, ◌%◌, ◌^◌, Bool, true, false, ◌&&◌, ◌||◌, ltb, leb, ◌==◌, if◌then◌else◌, Option,
  none, some, List, [], ◌∷◌, ◌++◌, length, replicate, codes,
}
use tark_os.Prelude.Int.{ℤ, pos, negsuc}
use tark_os.Text.{CString}
use tark_os.Clib.Number.{utoa, itoa}

-- An argument: a word of 32 bits, or a pointer to a string, nothing for NULL.
pub data Arg : Type 0 where
  word : ℕ → Arg
  text : Option CString → Arg

-- `__builtin_va_arg(args, int)`
abbrev pub to_int : ℕ → ℤ
to_int w = if ltb w (2 ^ 31) then pos w else negsuc (2 ^ 32 - 1 - w)

-- The loop `while (width > len)` and the copy after it.
unfoldable pub padded : Bool → ℕ → CString → CString
padded pad_zero width tmp = replicate (width - length tmp) (if pad_zero then b'0' else b' ') ++ tmp

abbrev pub Written : Type 0
Written = Option (CString × List Arg)

abbrev pub with_word : (ℕ → CString) → List Arg → Written
with_word f [] = none
with_word f (word w ∷ args) = some (f (w % 2 ^ 32), args)
with_word f (text t ∷ args) = none

abbrev pub with_text : List Arg → Written
with_text [] = none
with_text (word w ∷ args) = none
with_text (text none ∷ args) = some (codes "(null)", args)
with_text (text (some t) ∷ args) = some (t, args)

-- The switch on the letter of a directive.
unfoldable pub convert : Bool → ℕ → ℕ → List Arg → Written
unfolding padded utoa itoa
convert pad_zero width letter args =
    if letter == b'd' || letter == b'i'
    then with_word (λ w. padded pad_zero width (itoa (to_int w) 10)) args
    else if letter == b'u'
    then with_word (λ w. padded pad_zero width (utoa w 10)) args
    else if letter == b'x' || letter == b'X'
    then with_word (λ w. padded pad_zero width (utoa w 16)) args
    else if letter == b'p'
    then with_word (λ w. b'0' ∷ b'x' ∷ padded true 8 (utoa w 16)) args
    else if letter == b's'
    then with_text args
    else if letter == b'c'
    then with_word (λ w. w % 256 ∷ []) args
    else if letter == b'%'
    then some (b'%' ∷ [], args)
    else some (b'%' ∷ letter ∷ [], args)

-- Where the loop stands: in the text, behind a `%`, or in a width.
pub data Place : Type 0 where
  in_text : Place
  in_flags : Place
  in_width : Bool → ℕ → Place

abbrev pub is_digit : ℕ → Bool
is_digit c = leb b'0' c && leb c b'9'

-- What is written first, before the rest.
abbrev pub and_then : CString → Written → Written
and_then out none = none
and_then out (some (rest, args)) = some (out ++ rest, args)

unfoldable pub format : Place → CString → List Arg → Written
unfolding convert
format in_text [] args = some ([], args)
format in_flags [] args = none
format (in_width pad_zero width) [] args = none
format in_text (c ∷ fmt) args = elim (c == b'%') [
  | true ↦ format in_flags fmt args
  | false ↦ and_then (c ∷ []) (format in_text fmt args)
]
format in_flags (c ∷ fmt) args = elim (c == b'0') [
  | true ↦ format (in_width true 0) fmt args
  | false ↦ elim (is_digit c) [
    | true ↦ format (in_width false (c - b'0')) fmt args
    | false ↦ elim (convert false 0 c args) [
      | none ↦ none
      | some after ↦ and_then after.0 (format in_text fmt after.1)
    ]
  ]
]
format (in_width pad_zero width) (c ∷ fmt) args = elim (is_digit c) [
  | true ↦ elim (ltb (width * 10 + (c - b'0')) (2 ^ 31)) [
    | true ↦ format (in_width pad_zero (width * 10 + (c - b'0'))) fmt args
    | false ↦ none
  ]
  | false ↦ elim (convert pad_zero width c args) [
    | none ↦ none
    | some after ↦ and_then after.0 (format in_text fmt after.1)
  ]
]

unfoldable pub vsprintf : CString → List Arg → Written
unfolding format
vsprintf fmt args = format in_text fmt args

-- What `sprintf` returns, `p - buf`.
unfoldable pub sprintf : CString → List Arg → Option ℕ
unfolding vsprintf
sprintf fmt args = elim (vsprintf fmt args) [ none ↦ none | some r ↦ some (length r.0) ]
