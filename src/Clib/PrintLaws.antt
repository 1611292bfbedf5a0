-- ===== src/Clib/PrintLaws.antt =====
-- kernel/lib/printf.c: what `vsprintf` writes for the pieces of a format.
use tark_os.Prelude.{
  ℕ, zero, suc, ◌+◌, ◌-◌, ◌*◌, ◌%◌, ◌^◌, ◌≤◌, ◌<◌, ◌≡◌, refl, sym, ap, ◌∙◌, arith, Bool, true,
  false, ◌==◌, none, some, List, [], ◌∷◌, ◌++◌, append_assoc, ltb, Bool-cases, inl, inr, length,
  replicate, length-append, length-replicate,
}
use mathlib.Core.Path.{subst}
use tark_os.Text.{CString}
use tark_os.Clib.Number.{utoa, itoa}
use tark_os.Clib.NumberLaws.{read, AllDigits, utoa-reads}
use tark_os.Clib.Print.{
  Arg, word, Written, Place, in_text, in_flags, in_width, format, and_then, convert, is_digit,
  vsprintf, padded, to_int,
}

-- `whole` is what is written for a format of which a first part gives `part` and the rest is `g`.
unfoldable Continues : Written → CString → Written → Type 0
Continues none g whole = Unit
Continues (some (out, left)) g whole = whole ≡ and_then out (format in_text g left)

and_then_twice : (a b : CString) (w : Written) → and_then a (and_then b w) ≡ and_then (a ++ b) w
and_then_twice a b none = refl
and_then_twice a b (some (out, left)) = ap (λ o. some (o, left)) (sym (append_assoc a b out))

and_then_nothing : (w : Written) → and_then [] w ≡ w
and_then_nothing none = refl
and_then_nothing (some (out, left)) = refl

and_then-Continues :
    (out : CString) (part : Written) (g : CString) (whole : Written)
    → Continues part g whole
    → Continues (and_then out part) g (and_then out whole)
unfolding Continues
and_then-Continues out none g whole h = tt
and_then-Continues out (some (o, left)) g whole h =
    ap (and_then out) h ∙ and_then_twice out o (format in_text g left)

-- What follows a directive, in the part and in the whole.
converted-Continues :
    (made : Written) (f g : CString)
    → ((args : List Arg) → Continues (format in_text f args) g (format in_text (f ++ g) args))
    → Continues
        (elim made [ none ↦ none | some after ↦ and_then after.0 (format in_text f after.1) ])
        g
        (elim made [
          | none ↦ none
          | some after ↦ and_then after.0 (format in_text (f ++ g) after.1)
        ])
unfolding Continues
converted-Continues none f g rest = tt
converted-Continues (some (out, left)) f g rest =
    and_then-Continues out (format in_text f left) g (format in_text (f ++ g) left) (rest left)

format-Continues :
    (place : Place) (f g : CString) (args : List Arg)
    → Continues (format place f args) g (format place (f ++ g) args)
unfolding format Continues
format-Continues in_text [] g args = sym (and_then_nothing (format in_text g args))
format-Continues in_flags [] g args = tt
format-Continues (in_width z n) [] g args = tt
format-Continues in_text (c ∷ f) g args = elim (Bool-cases (c == b'%')) [
  | inl e ↦ rw (e, format) (format-Continues in_flags f g args)
  | inr e ↦ rw (e, format) (and_then-Continues (c ∷ []) _ g _ (format-Continues in_text f g args))
]
format-Continues in_flags (c ∷ f) g args = elim (Bool-cases (c == b'0')) [
  | inl e ↦ rw (e, format) (format-Continues (in_width true 0) f g args)
  | inr e ↦ elim (Bool-cases (is_digit c)) [
    | inl e' ↦ rw (e, e', format) (format-Continues (in_width false (c - b'0')) f g args)
    | inr e' ↦
        rw (e, e', format)
          (converted-Continues (convert false 0 c args) f g (format-Continues in_text f g))
  ]
]
format-Continues (in_width z n) (c ∷ f) g args = elim (Bool-cases (is_digit c)) [
  | inl e ↦ elim (Bool-cases (ltb (n * 10 + (c - b'0')) (2 ^ 31))) [
    | inl e' ↦ rw (e, e', format) (format-Continues (in_width z (n * 10 + (c - b'0'))) f g args)
    | inr e' ↦ rw (e, e', format) tt
  ]
  | inr e ↦
      rw (e, format) (converted-Continues (convert z n c args) f g (format-Continues in_text f g))
]

-- A format that is complete, so that nothing is undefined in it, may be followed by another: what
-- the two write together is what the first writes and then what the second writes with the
-- arguments that are left.
pub vsprintf-append :
    (f g : CString) (args left : List Arg) (out : CString)
    → vsprintf f args ≡ some (out, left)
    → vsprintf (f ++ g) args ≡ and_then out (vsprintf g left)
unfolding vsprintf Continues
vsprintf-append f g args left out h =
    subst (λ part. Continues part g (format in_text (f ++ g) args)) h
      (format-Continues in_text f g args)

read-grows : (n : ℕ) (ds : CString) → n ≤ read n ds
unfolding read
read-grows n [] = omega arith
read-grows n (c ∷ cs) = omega (arith, read-grows (n * 10 + (c - b'0')) cs)

format-digits :
    (ds g : CString) (z : Bool) (n : ℕ) (args : List Arg)
    → AllDigits ds
    → read n ds < 2 ^ 31
    → format (in_width z n) (ds ++ g) args ≡ format (in_width z (read n ds)) g args
unfolding format read AllDigits
format-digits [] g z n args h small = refl
format-digits (c ∷ cs) g z n args h small =
    let next = n * 10 + (c - b'0') in
    let fits : ltb next (2 ^ 31) ≡ true = ground (arith, read-grows next cs, small) in
    rw (h.0, fits, format) (format-digits cs g z next args h.1 small)

-- Zeros in front change neither that a text is of digits nor what it reads as.
zeros-AllDigits : (k : ℕ) (ds : CString) → AllDigits ds → AllDigits (replicate k b'0' ++ ds)
unfolding AllDigits
zeros-AllDigits zero ds h = h
zeros-AllDigits (suc k) ds h = (refl, zeros-AllDigits k ds h)

read-zeros : (k : ℕ) (ds : CString) → read 0 (replicate k b'0' ++ ds) ≡ read 0 ds
unfolding read
read-zeros zero ds = refl
read-zeros (suc k) ds = read-zeros k ds

-- The directive `%0nd`, where `n` is written by `utoa` and below 2 ^ 31, writes its argument, read as
-- an `int`, as `itoa` does, after as many zeros as are missing to `n` bytes; `%0nx` writes it as
-- `utoa` does in base 16 after its zeros; and `%0nu` writes at least `n` digits, which read as the
-- argument. The argument is a word below 2 ^ 32. The rest of the format follows, with the other
-- arguments.
pub vsprintf-padded :
    (n w : ℕ) (g : CString) (args : List Arg)
    → n < 2 ^ 31
    → w < 2 ^ 32
    → (vsprintf (b'%' ∷ b'0' ∷ utoa n 10 ++ b'd' ∷ g) (word w ∷ args)
        ≡ and_then
            (replicate (n - length (itoa (to_int w) 10)) b'0' ++ itoa (to_int w) 10)
            (vsprintf g args))
      × (vsprintf (b'%' ∷ b'0' ∷ utoa n 10 ++ b'x' ∷ g) (word w ∷ args)
          ≡ and_then (replicate (n - length (utoa w 16)) b'0' ++ utoa w 16) (vsprintf g args))
      × ((out : CString) × (vsprintf (b'%' ∷ b'0' ∷ utoa n 10 ++ b'u' ∷ g) (word w ∷ args)
            ≡ and_then out (vsprintf g args))
          × AllDigits out
          × (read 0 out ≡ w)
          × (n ≤ length out))
unfolding vsprintf format convert padded
vsprintf-padded n w g args h k =
    let width = utoa-reads n (omega arith) in
    let small : read 0 (utoa n 10) < 2 ^ 31 = omega (arith, width.1, h) in
    let word_kept : w % 2 ^ 32 ≡ w = omega arith in
    let digits = utoa w 10 in
    let missing = n - length digits in
    let number = utoa-reads w k in
    (
      format-digits (utoa n 10) (b'd' ∷ g) true 0 _ width.0 small ∙ rw (width.1, word_kept) refl,
      format-digits (utoa n 10) (b'x' ∷ g) true 0 _ width.0 small ∙ rw (width.1, word_kept) refl,
      (
        replicate missing b'0' ++ digits,
        format-digits (utoa n 10) (b'u' ∷ g) true 0 _ width.0 small ∙ rw (width.1, word_kept) refl,
        zeros-AllDigits missing digits number.0,
        read-zeros missing digits ∙ number.1,
        omega (
          arith,
          length-append (replicate missing b'0') digits,
          length-replicate {A = ℕ} missing b'0',
        ),
      ),
    )
