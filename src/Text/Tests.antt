-- ===== src/Text/Tests.antt =====
-- Runs of the string helpers.
use tark_os.Prelude.{◌≡◌, refl, none, some, [], ◌∷◌, codes}
use tark_os.Prelude.Int.{negsuc, ◌-ℤ◌}
use tark_os.Text.{count_words, count_lines}
use tark_os.Text.Tokens.{split_args, after_n_tokens, calc_eval}

two_lines : count_lines (codes "a\nb") ≡ 2
unfolding count_lines
two_lines = refl

three_words : count_words (codes " to  be or ") ≡ 3
unfolding count_words
three_words = refl

two_args : split_args 8 (codes " cp  a b") ≡ codes "cp" ∷ codes "a" ∷ codes "b" ∷ []
unfolding split_args
two_args = refl

message : after_n_tokens (codes "write a  some text") 2 ≡ codes "some text"
unfolding after_n_tokens
message = refl

difference : calc_eval (codes "7 - 12") ≡ some (negsuc 4)
unfolding calc_eval ◌-ℤ◌
difference = refl

by_zero : calc_eval (codes "7 / 0") ≡ none
unfolding calc_eval
by_zero = refl
