-- ===== src/Read/Unquote.antt =====
-- src/read.c: `find_char_unquote` and `find_percent`. The string is compacted in place: the result is
-- what the string then has before the stop character, and the string from there on, which is empty
-- where the C function returns NULL.
pub mod Quote
use mathlib.Core.List.{reverse}
use make.Text.{Text}
use make.Prelude.{ℕ, zero, suc, ◌+◌, ◌-◌, ◌/◌, ◌%◌, List, [], ◌∷◌, ◌==◌, if◌then◌else◌, drop}

-- The number of backslashes that end the text whose bytes are given last first.
unfoldable pub backslashes : Text → ℕ
backslashes [] = 0
backslashes (c ∷ seen) = let n = backslashes seen in if c == 92 then n + 1 else 0

-- `seen` has the bytes from `string` to `p`, the last first.
unfoldable pub unquote_loop : ℕ → Text → Text → Text × Text
unfolding backslashes
unquote_loop stop seen [] = (reverse seen, [])
unquote_loop stop seen (c ∷ p) =
    let n = backslashes seen in
    let kept = drop (n - n / 2) seen in
    let quoted = unquote_loop stop (c ∷ kept) p in
    let further = unquote_loop stop (c ∷ seen) p in
    if c == stop then (if n % 2 == 0 then (reverse kept, c ∷ p) else quoted) else further

unfoldable pub find_char_unquote : ℕ → Text → Text × Text
unfolding unquote_loop
find_char_unquote stop string = unquote_loop stop [] string

abbrev pub find_percent : Text → Text × Text
find_percent pattern = find_char_unquote b'%' pattern
