-- ===== src/Text.antt =====
-- kernel/kernel.c: the string helpers of the shell and of the RAM disk. A C string is the list of
-- the bytes before its NUL, so `*s` is 0 exactly at the end of the list.
pub mod Search
pub mod Words
pub mod Tokens
mod Tests
use tark_os.Prelude.{ℕ, zero, suc, ◌+◌, Bool, true, false, not, ◌&&◌, ◌||◌, ◌==◌, if◌then◌else◌}
use tark_os.Prelude.{List, [], ◌∷◌}

abbrev pub CString : Type 0
CString = List ℕ

abbrev pub slash : ℕ
slash = b'/'

abbrev pub newline : ℕ
newline = 10

abbrev pub tab : ℕ
tab = 9

abbrev pub blank : ℕ
blank = b' '

-- `strcmp(a, b) == 0`, the only use that kernel.c makes of `strcmp`.
unfoldable pub str_eq : CString → CString → Bool
str_eq [] [] = true
str_eq [] (b ∷ bs) = false
str_eq (a ∷ as') [] = false
str_eq (a ∷ as') (b ∷ bs) = if a == b then str_eq as' bs else false

unfoldable pub starts_with : CString → CString → Bool
starts_with s [] = true
starts_with [] (p ∷ ps) = false
starts_with (c ∷ cs) (p ∷ ps) = if c == p then starts_with cs ps else false

-- The inner loop of `str_contains` at `s[i + j]` and `needle[j]`, with its test `!needle[j]`.
unfoldable pub matches_here : CString → CString → Bool
matches_here s [] = true
matches_here [] (n ∷ ns) = false
matches_here (c ∷ cs) (n ∷ ns) = if c == n then matches_here cs ns else false

-- The outer loop, at `s + i`.
unfoldable pub contains_from : CString → CString → Bool
unfolding matches_here
contains_from [] needle = false
contains_from (c ∷ cs) needle =
    let rest = contains_from cs needle in if matches_here (c ∷ cs) needle then true else rest

unfoldable pub str_contains : CString → CString → Bool
unfolding contains_from
str_contains s [] = true
str_contains s (n ∷ ns) = contains_from s (n ∷ ns)

unfoldable pub is_space : ℕ → Bool
is_space c = c == blank || c == newline || c == tab || c == 13

-- The loop of `count_words`, with its variables `in_word` and `count`.
unfoldable pub count_words_from : CString → Bool → ℕ → ℕ
unfolding is_space
count_words_from [] in_word count = count
count_words_from (c ∷ cs) in_word count =
    count_words_from cs (not (is_space c))
      (if is_space c then count else if in_word then count else count + 1)

unfoldable pub count_words : CString → ℕ
unfolding count_words_from
count_words s = count_words_from s false 0

-- The loop of `count_lines`; `last` is `*(p - 1)`.
unfoldable pub count_lines_from : CString → ℕ → ℕ → ℕ
count_lines_from [] last lines = if last == newline then lines else lines + 1
count_lines_from (c ∷ cs) last lines =
    count_lines_from cs c (if c == newline then lines + 1 else lines)

unfoldable pub count_lines : CString → ℕ
unfolding count_lines_from
count_lines [] = 0
count_lines (c ∷ cs) = count_lines_from cs c (if c == newline then 1 else 0)
