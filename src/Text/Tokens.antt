-- ===== src/Text/Tokens.antt =====
-- kernel/kernel.c: the words of a command line, and the calculator. A pointer into a line is the
-- rest of the line.
use tark_os.Prelude.{ℕ, zero, suc, ◌+◌, ◌-◌, ◌*◌, ◌/◌, Bool, true, false, ◌&&◌, ◌||◌, leb, ◌==◌}
use tark_os.Prelude.{if◌then◌else◌, Option, none, some, List, [], ◌∷◌}
use tark_os.Prelude.Int.{ℤ, pos, negsuc, ◌+ℤ◌, ◌-ℤ◌, pos_part, neg_part}
use tark_os.Text.{CString, blank, tab}

abbrev pub is_blank : ℕ → Bool
is_blank c = c == blank || c == tab

-- `while (*p == ' ' || *p == '\t') p++;`
unfoldable pub skip_blanks : CString → CString
skip_blanks [] = []
skip_blanks (c ∷ cs) = let rest = skip_blanks cs in if is_blank c then rest else c ∷ cs

-- `while (*p && *p != ' ' && *p != '\t') p++;`: the bytes passed, and the rest.
unfoldable pub next_token : CString → CString × CString
next_token [] = ([], [])
next_token (c ∷ cs) =
    let (token, rest) = next_token cs in if is_blank c then ([], c ∷ cs) else (c ∷ token, rest)

abbrev pub drop_first : CString → CString
drop_first [] = []
drop_first (c ∷ cs) = cs

-- The loop of `split_args`, for `left` more arguments. The NUL that the code writes behind an
-- argument ends it, so an argument is its bytes.
unfoldable pub split_args : ℕ → CString → List CString
unfolding skip_blanks next_token
split_args zero line = []
split_args (suc left) line =
    let p = skip_blanks line in
    let (token, rest) = next_token p in
    let others = split_args left (drop_first rest) in elim p [ [] ↦ [] | c ∷ cs ↦ token ∷ others ]

-- The loop of `after_n_tokens`, and the blanks behind it.
unfoldable pub after_n_tokens : CString → ℕ → CString
unfolding skip_blanks next_token
after_n_tokens s zero = skip_blanks s
after_n_tokens s (suc n) = after_n_tokens (next_token (skip_blanks s)).1 n

abbrev pub is_digit : ℕ → Bool
is_digit c = leb 48 c && leb c 57

-- `while (*p >= '0' && *p <= '9') n = n * 10 + (*p++ - '0');`
unfoldable pub read_number : CString → ℕ → ℕ × CString
read_number [] n = (n, [])
read_number (c ∷ cs) n =
    let longer = read_number cs (n * 10 + (c - 48)) in if is_digit c then longer else (n, c ∷ cs)

abbrev pub negate : ℕ → ℤ
negate zero = pos 0
negate (suc n) = negsuc n

-- An operand without its sign: `none` where there is no digit.
unfoldable pub operand_from : Bool → CString → Option (ℤ × CString)
unfolding read_number
operand_from negative [] = none
operand_from negative (c ∷ cs) =
    let (n, rest) = read_number (c ∷ cs) 0 in
    if is_digit c then some (if negative then negate n else pos n, rest) else none

-- Blanks, a sign and the number.
unfoldable pub operand : CString → Option (ℤ × CString)
unfolding skip_blanks operand_from
operand s = elim (skip_blanks s) [
  | [] ↦ none
  | c ∷ cs ↦ if c == 45 then operand_from true cs else operand_from false (c ∷ cs)
]

-- The product, and the quotient that C rounds towards 0.
abbrev pub times : ℤ → ℤ → ℤ
times a b =
    pos (pos_part a * pos_part b + neg_part a * neg_part b)
    -ℤ pos (pos_part a * neg_part b + neg_part a * pos_part b)

abbrev pub quotient : ℤ → ℤ → ℤ
quotient (pos a) (pos b) = pos (a / b)
quotient (pos a) (negsuc b) = negate (a / suc b)
quotient (negsuc a) (pos b) = negate (suc a / b)
quotient (negsuc a) (negsuc b) = pos (suc a / suc b)

-- The operator's result: `none` for another character and for a division by 0.
unfoldable pub apply_op : ℕ → ℤ → ℤ → Option ℤ
apply_op op a b =
    if op == 43
    then some (a +ℤ b)
    else if op == 45
    then some (a -ℤ b)
    else if op == 42
    then some (times a b)
    else if op == 47
    then (if pos_part b + neg_part b == 0 then none else some (quotient a b))
    else none

-- `calc_eval`, whose result 0 is `none`. Sums are exact: an `int` that overflows is not defined in C.
unfoldable pub calc_eval : CString → Option ℤ
unfolding operand apply_op
calc_eval expr = elim (operand expr) [
  | none ↦ none
  | some (n1, rest) ↦ elim (skip_blanks rest) [
    | [] ↦ none
    | op ∷ rest' ↦ elim (operand rest') [ none ↦ none | some (n2, rest'') ↦ apply_op op n1 n2 ]
  ]
]
