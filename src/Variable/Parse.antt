-- ===== src/Variable/Parse.antt =====
-- src/variable.c: `parse_variable_definition`. The bytes of the name that have been passed are
-- `seen`, the last first; `end` is the name when its end is known.
pub mod Passed
pub mod Rounds
pub mod Split
pub mod Print
use mathlib.Core.List.{reverse}
use make.Variable.{Flavor, f_simple, f_recursive, f_expand, f_append, f_conditional, f_shell}
use make.Text.{Text, is_blank, next_token, rounds}
use make.Prelude.{ℕ, zero, suc, ◌+◌, ◌-◌, Option, none, some, List, [], ◌∷◌, ◌==◌, if◌then◌else◌}

-- The fields of `*var`, and the text from the char after the assignment token.
pub record Assignment : Type 0 where
  pub name : Text
  pub flavor : Flavor
  pub value : Text
  pub after : Text

-- How a round of the loop ends: `return NULL`, `break` and the next round.
pub data Round : Type 0 where
  null : Round
  found : Text → Flavor → Text → Round
  continue : Text → Option Text → Text → Round

-- `if (!end) end = p - 1;`
abbrev pub name_at : Option Text → Text → Text
name_at none seen = reverse seen
name_at (some name) seen = name

-- Blanks after the name, or a second time.
unfoldable pub blank_round : Text → Option Text → Text → Round
blank_round seen none p = continue seen (some (reverse seen)) (next_token p)
blank_round seen (some name) p = null

unfoldable pub third_colon : Text → Text → Round
third_colon name [] = null
third_colon name (c ∷ p) = if c == b'=' then found name f_expand p else null

unfoldable pub second_colon : Text → Text → Round
unfolding third_colon
second_colon name [] = null
second_colon name (c ∷ p) =
    if c == b'=' then found name f_simple p else if c == b':' then third_colon name p else null

unfoldable pub colon : Text → Text → Round
unfolding second_colon
colon name [] = null
colon name (c ∷ p) =
    if c == b'=' then found name f_simple p else if c == b':' then second_colon name p else null

-- The loop over `count`, for a reference between `open_paren` and `closeparen`.
unfoldable pub skip_reference : ℕ → ℕ → ℕ → Text → Text → Text × Text
skip_reference open_paren closeparen count seen [] = (seen, [])
skip_reference open_paren closeparen count seen (c ∷ p) =
    let deeper = skip_reference open_paren closeparen (count + 1) (c ∷ seen) p in
    let higher = skip_reference open_paren closeparen (count - 1) (c ∷ seen) p in
    let level = skip_reference open_paren closeparen count (c ∷ seen) p in
    if c == closeparen
    then (if count == 1 then (c ∷ seen, p) else higher)
    else if c == open_paren
    then deeper
    else level

abbrev pub past_reference : Text × Text → Round
past_reference (seen, p) = continue seen none p

-- What follows a dollar sign.
unfoldable pub reference : Text → Text → Round
unfolding skip_reference
reference seen [] = null
reference seen (c ∷ p) =
    if c == b'('
    then past_reference (skip_reference b'(' b')' 1 (c ∷ seen) p)
    else if c == b'{'
    then past_reference (skip_reference b'{' b'}' 1 (c ∷ seen) p)
    else continue (c ∷ seen) none p

-- The label `other`.
unfoldable pub other : Text → Option Text → ℕ → Text → Round
unfolding reference
other seen (some name) c p = null
other seen none c p = if c == b'$' then reference (c ∷ seen) p else continue (c ∷ seen) none p

-- The `switch` over the byte before a `=`; `p` starts with that.
unfoldable pub two_bytes : Text → Option Text → ℕ → Text → Text → Round
unfolding other
two_bytes seen end c p after =
    if c == b'+'
    then found (name_at end seen) f_append after
    else if c == b'?'
    then found (name_at end seen) f_conditional after
    else if c == b'!'
    then found (name_at end seen) f_shell after
    else other seen end c p

unfoldable pub plain_round : Text → Option Text → ℕ → Text → Round
unfolding two_bytes
plain_round seen end c [] = other seen end c []
plain_round seen end c (d ∷ p) =
    if d == b'=' then two_bytes seen end c (d ∷ p) p else other seen end c (d ∷ p)

unfoldable pub round : Text → Option Text → Text → Round
unfolding blank_round colon plain_round
round seen end [] = null
round seen end (c ∷ p) =
    if c == b'#'
    then null
    else if is_blank c
    then blank_round seen end p
    else if c == b'='
    then found (name_at end seen) f_recursive p
    else if c == b':'
    then colon (name_at end seen) p
    else plain_round seen end c p

-- `next` is the loop from the next round on.
unfoldable pub after_round :
    (Text → Option Text → Text → Option (Option Assignment)) → Round → Option (Option Assignment)
after_round next null = some none
after_round next (found name flavor p) =
    some (some (record { name = name; flavor = flavor; value = next_token p; after = p }))
after_round next (continue seen end p) = next seen end p

-- The loop; `none` when the fuel runs out.
unfoldable pub parse_loop : ℕ → Text → Option Text → Text → Option (Option Assignment)
unfolding after_round
parse_loop zero seen end p = none
parse_loop (suc fuel) seen end p = after_round (parse_loop fuel) (round seen end p)

unfoldable pub parse_variable_definition : Text → Option (Option Assignment)
unfolding parse_loop
parse_variable_definition str = let p = next_token str in parse_loop (rounds p) [] none p
