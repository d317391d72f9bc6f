-- ===== src/Tests/Select.antt =====
-- `func_word` and `func_findstring` on short texts, with a `strtoll` that reads one digit.
use make.Function.Select.{natural, Strtoll, parsed, parse_numeric, numeric, nonempty}
use make.Function.Logic.{strip_whitespace, strip_end}
use make.Text.{Text, codes, is_space, is_blank, next_token}
use make.Prelude.{◌-◌, ◌≡◌, refl, none, some, [], ◌∷◌}

abbrev one_digit : Text → Strtoll
one_digit [] = parsed (natural 0) []
one_digit (c ∷ rest) = parsed (natural (c - 48)) rest

two : parse_numeric one_digit (codes " 2 ") ≡ some (natural 2)
unfolding parse_numeric numeric nonempty strip_whitespace strip_end is_space is_blank next_token
two = refl

not_a_number : parse_numeric one_digit (codes "2x") ≡ none
unfolding parse_numeric numeric nonempty strip_whitespace strip_end is_space is_blank next_token
not_a_number = refl
