-- ===== src/Tests/Quoting.antt =====
-- Patterns with quoted percent signs.
use make.Read.Unquote.{find_percent, find_char_unquote, unquote_loop, backslashes}
use make.Read.Unquote.Quote.{quote, leads, find_char_unquote-quote}
use make.Text.{codes}
use make.Prelude.{◌≡◌, refl, [], ◌∷◌, ◌++◌}

-- Two backslashes stand for one, and the percent sign counts.
halved : find_percent (codes "a" ++ (92 ∷ 92 ∷ codes "%.c")) ≡ (codes "a" ++ (92 ∷ []), codes "%.c")
unfolding find_char_unquote unquote_loop backslashes
halved = refl

absent : find_percent (codes "a" ++ (92 ∷ codes "%.c")) ≡ (codes "a%.c", [])
unfolding find_char_unquote unquote_loop backslashes
absent = refl

quoted : quote b'%' (codes "a%" ++ (92 ∷ [])) ≡ codes "a" ++ (92 ∷ codes "%" ++ (92 ∷ 92 ∷ []))
unfolding quote leads
quoted = refl

find_char_unquote-quote_example :
    find_char_unquote b'%' (quote b'%' (codes "a%" ++ (92 ∷ [])) ++ codes "%.c")
    ≡ (codes "a%" ++ (92 ∷ []), codes "%.c")
find_char_unquote-quote_example =
    find_char_unquote-quote b'%' (codes "a%" ++ (92 ∷ [])) (codes ".c") refl
