-- ===== src/Variable/Parse/Split.antt =====
-- What `parse_variable_definition` cuts a text into.
use make.Variable.Parse.{
  Assignment, Round, null, found, continue, round, after_round, parse_loop,
  parse_variable_definition,
}
use make.Text.Words.{rounds_pos}
use make.Text.{Text, next_token, rounds}
use make.Prelude.{ℕ, zero, suc, ◌≤◌, ◌≡◌, refl, Option, none, some, [], ◌++◌, Returns, arith}
use make.Variable.Parse.Passed.{AllSpace, Splits, Passed, RoundOk, next_token-split}
use make.Variable.Parse.Rounds.{round-RoundOk}

-- What a definition that is read from the text says.
abbrev pub Reads : Text → Option Assignment → Type 0
Reads whole none = Unit
Reads whole (some a) = Splits whole a.name a.flavor a.after × (a.value ≡ next_token a.after)

parse_loop-Reads :
    (whole : Text) (fuel : ℕ) (seen : Text) (end : Option Text) (p : Text)
    → Passed whole seen end p
    → rounds p ≤ fuel
    → Returns (parse_loop fuel seen end p) (Reads whole)
unfolding parse_loop after_round RoundOk
parse_loop-Reads whole zero seen end p h k = absurd (omega (arith, rounds_pos p))
parse_loop-Reads whole (suc fuel) seen end p h k =
    go (round seen end p) (round-RoundOk whole seen end p h) (parse_loop-Reads whole fuel)
  where
    go :
        (r : Round)
        → RoundOk whole p r
        → ((seen : Text) (end : Option Text) (q : Text)
            → Passed whole seen end q
            → rounds q ≤ fuel
            → Returns (parse_loop fuel seen end q) (Reads whole))
        → Returns (after_round (parse_loop fuel) r) (Reads whole)
    go null ok rec = (none, refl, tt)
    go (found name flavor q) ok rec = (
      some (record { name = name; flavor = flavor; value = next_token q; after = q }),
      refl,
      (ok, refl),
    )
    go (continue seen' end' q) (passed, lt) rec = rec seen' end' q passed (omega arith)

-- Parsing a line ends, and when it reads a definition, the line is spaces, the name, spaces, an
-- assignment token of the flavor and the text that the function returns, and the value is that text
-- without the spaces before it.
pub parse_variable_definition-Reads :
    (str : Text)
    → (spaces : Text) × (line : Text) × AllSpace spaces
      × (str ≡ spaces ++ line)
      × Returns (parse_variable_definition str) (Reads line)
unfolding parse_variable_definition Passed
parse_variable_definition-Reads str =
    let (spaces, all, split) = next_token-split str in
    let line = next_token str in
    (spaces, line, all, split, parse_loop-Reads line (rounds line) [] none line refl (omega arith))
