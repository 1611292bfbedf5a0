-- ===== src/Text/Words.antt =====
-- kernel.c: what `wc` counts, by the parts of the text.
use tark_os.Prelude.{ℕ, ◌+◌, ◌≡◌, refl, ◌∙◌, ap, arith, Bool, true, false, not}
use tark_os.Prelude.{◌==◌, if◌then◌else◌, Bool-cases, inl, inr, [], ◌∷◌, ◌++◌}
use tark_os.Text.{CString, newline, is_space, count_words_from, count_words}
use tark_os.Text.{count_lines_from, count_lines}

count_words_from-add :
    (s : CString) (w : Bool) (n : ℕ) → count_words_from s w n ≡ n + count_words_from s w 0
unfolding count_words_from
count_words_from-add [] w n = omega arith
count_words_from-add (c ∷ cs) w n = elim (Bool-cases (is_space c)) [
  | inl e ↦ rw e (count_words_from-add cs false n)
  | inr e ↦ rw e (
      ground (
        arith,
        count_words_from-add cs true n,
        count_words_from-add cs true (n + 1),
        count_words_from-add cs true 1,
      ))
]

count_words_from-append :
    (xs ys : CString) (c : ℕ) (w : Bool) (n : ℕ)
    → is_space c ≡ true
    → count_words_from (xs ++ c ∷ ys) w n ≡ count_words_from ys false (count_words_from xs w n)
unfolding count_words_from
count_words_from-append [] ys c w n h = rw (h, count_words_from)
count_words_from-append (x ∷ xs) ys c w n h = count_words_from-append xs ys c (not (is_space x)) _ h

-- A white space character separates words: the words on its two sides add up.
pub count_words-append :
    (xs ys : CString) (c : ℕ)
    → is_space c ≡ true
    → count_words (xs ++ c ∷ ys) ≡ count_words xs + count_words ys
unfolding count_words
count_words-append xs ys c h =
    count_words_from-append xs ys c false 0 h
    ∙ count_words_from-add ys false (count_words_from xs false 0)

-- No character of the text is white space.
abbrev pub HasNoSpace : CString → Type 0
HasNoSpace [] = Unit {0}
HasNoSpace (c ∷ cs) = (is_space c ≡ false) × HasNoSpace cs

count_words_from-word : (s : CString) (n : ℕ) → HasNoSpace s → count_words_from s true n ≡ n
unfolding count_words_from
count_words_from-word [] n h = refl
count_words_from-word (c ∷ cs) n h = rw h.0 (count_words_from-word cs n h.1)

-- A text without white space is one word, if it is not empty.
pub count_words_one : (c : ℕ) (cs : CString) → HasNoSpace (c ∷ cs) → count_words (c ∷ cs) ≡ 1
unfolding count_words count_words_from
count_words_one c cs h = rw h.0 (count_words_from-word cs 1 h.1)

abbrev pub newlines : CString → ℕ
newlines [] = 0
newlines (c ∷ cs) = (if c == newline then 1 else 0) + newlines cs

count_lines_from-append :
    (xs ys : CString) (last n : ℕ)
    → count_lines_from (xs ++ newline ∷ ys) last n
      ≡ count_lines_from ys newline (n + newlines xs + 1)
unfolding count_lines_from
count_lines_from-append [] ys last n = ap (count_lines_from ys newline) (omega arith)
count_lines_from-append (x ∷ xs) ys last n =
    count_lines_from-append xs ys x _ ∙ ap (count_lines_from ys newline) (ground arith)

count_lines_from-add :
    (s : CString) (last n : ℕ) → count_lines_from s last n ≡ n + count_lines_from s last 0
unfolding count_lines_from
count_lines_from-add [] last n = ground arith
count_lines_from-add (c ∷ cs) last n = ground (
  arith,
  count_lines_from-add cs c (n + 1),
  count_lines_from-add cs c n,
  count_lines_from-add cs c 1,
)

-- Behind a newline a new line begins, and does not count while it is empty.
count_lines_from-newline : (s : CString) (n : ℕ) → count_lines_from s newline n ≡ n + count_lines s
unfolding count_lines count_lines_from
count_lines_from-newline [] n = omega arith
count_lines_from-newline (c ∷ cs) n = ground (
  arith,
  count_lines_from-add cs c (n + 1),
  count_lines_from-add cs c n,
  count_lines_from-add cs c 1,
)

-- A newline ends a line: the lines of a text are those up to and with a newline in it, one for
-- each newline, and those of what follows.
pub count_lines-append :
    (xs ys : CString) → count_lines (xs ++ newline ∷ ys) ≡ newlines xs + 1 + count_lines ys
unfolding count_lines
count_lines-append [] ys = count_lines_from-newline ys 1
count_lines-append (x ∷ xs) ys =
    count_lines_from-append xs ys x _ ∙ count_lines_from-newline ys _ ∙ ground arith
