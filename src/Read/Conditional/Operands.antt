-- ===== src/Read/Conditional/Operands.antt =====
-- The words and operands of a conditional directive: the texts that `conditional_line` cuts out.
use make.Text.{Text, codes, streq, is_blank, next_token, end_of_token, token}
use make.Prelude.{
  ℕ, ◌+◌, ◌-◌, Bool, true, false, not, ◌&&◌, ◌||◌, Option, none, some, [], ◌∷◌, leb, ◌==◌,
  if◌then◌else◌, ◌>>=◌,
}

-- What the directive asks of the variables: `variable_expand`, and the value that
-- `lookup_variable` finds. `unset` is the byte of a new level before it is written.
pub record Env : Type 0 where
  pub expand : Text → Text
  pub lookup_variable : Text → Option Text
  pub unset : ℕ

pub data CmdType : Type 0 where
  c_ifdef c_ifndef c_ifeq c_ifneq c_else c_endif : CmdType

-- The `chkword` chain.
unfoldable pub command_of : Text → Option CmdType
command_of word =
    if streq (codes "ifdef") word
    then some c_ifdef
    else if streq (codes "ifndef") word
    then some c_ifndef
    else if streq (codes "ifeq") word
    then some c_ifeq
    else if streq (codes "ifneq") word
    then some c_ifneq
    else if streq (codes "else") word
    then some c_else
    else if streq (codes "endif") word
    then some c_endif
    else none

-- The parts of a text before and after a place where a scan stops.
abbrev Cut : Type 0
Cut = Option (Text × Text)

abbrev onto : ℕ → Cut → Cut
onto c none = none
onto c (some (before, after)) = some (c ∷ before, after)

-- `while (*line != '\0' && *line != termin) ++line;`
unfoldable pub cut_at : ℕ → Text → Cut
cut_at termin [] = none
cut_at termin (c ∷ line) =
    let rest = onto c (cut_at termin line) in if c == termin then some ([], line) else rest

-- The end of the first operand in parentheses: a comma where `count`, the number of `(` less the
-- number of `)`, is at most 0.
unfoldable pub cut_comma : ℕ → ℕ → Text → Cut
cut_comma opened closed [] = none
cut_comma opened closed (c ∷ line) =
    let opened' = if c == b'(' then opened + 1 else opened in
    let closed' = if c == b')' then closed + 1 else closed in
    let rest = onto c (cut_comma opened' closed' line) in
    if c == b',' && leb opened closed then some ([], line) else rest

-- The end of the second operand in parentheses.
unfoldable pub cut_paren : ℕ → Text → Cut
cut_paren count [] = none
cut_paren count (c ∷ line) =
    let count' = if c == b'(' then count + 1 else if c == b')' then count - 1 else count in
    let rest = onto c (cut_paren count' line) in
    if c == b')' && leb count 0 then some ([], line) else rest

-- `while (ISBLANK (p[-1])) --p;`
unfoldable pub strip_blanks : Text → Text
unfolding is_blank
strip_blanks [] = []
strip_blanks (c ∷ s) = keep c (strip_blanks s)
  where
    keep : ℕ → Text → Text
    keep c [] = if is_blank c then [] else c ∷ []
    keep c (d ∷ r) = c ∷ d ∷ r

abbrev pub is_quote : ℕ → Bool
is_quote c = c == b'"' || c == 39

-- From the start of the second operand on; the result is the operand and what follows it.
unfoldable pub second_operand : Bool → Text → Cut
unfolding cut_paren cut_at
second_operand true line = cut_paren 0 (next_token line)
second_operand false line = quoted (next_token line)
  where
    quoted : Text → Cut
    quoted [] = none
    quoted (q ∷ rest) =
        if is_quote q
        then cut_at q rest
        else if q == b')'
        then cut_paren 0 (next_token (q ∷ rest))
        else none

-- The operands of `ifeq` and `ifneq` before expansion, and what follows them; `none` is a result -1.
unfoldable pub operands : Text → Option (Text × Text × Text)
unfolding cut_at cut_comma strip_blanks second_operand
operands [] = none
operands (c ∷ line) =
    if c == b'(' || c == b','
    then (do
      (s1, rest) ← cut_comma 0 0 line
      (s2, after) ← second_operand true rest
      some (strip_blanks s1, s2, after))
    else if is_quote c
    then (do
      (s1, rest) ← cut_at c line
      (s2, after) ← second_operand false rest
      some (s1, s2, after))
    else none

abbrev pub is_empty : Text → Bool
is_empty [] = true
is_empty (c ∷ s) = false

abbrev has_value : Option Text → Bool
has_value none = false
has_value (some v) = not (is_empty v)

abbrev pub same_truth : Bool → Bool → ℕ
same_truth true true = 1
same_truth false false = 1
same_truth _ _ = 0

-- `ifdef`, and `ifndef` where `negated`.
unfoldable pub defined : Env → Bool → Text → Option (ℕ × Bool)
defined env negated line =
    let var = env.expand line in
    if is_empty (next_token (end_of_token var))
    then some (same_truth (has_value (env.lookup_variable (token var))) negated, false)
    else none

-- `ifeq`, and `ifneq` where `negated`.
unfoldable pub equal : Env → Bool → Text → Option (ℕ × Bool)
unfolding operands
equal env negated line = do
  (s1, s2, after) ← operands line
  some (
    same_truth (streq (env.expand s1) (env.expand s2)) negated,
    not (is_empty (next_token after)),
  )

-- The new `ignoring[o]`, and whether there is text after the directive; `none` is a result -1.
unfoldable pub condition : Env → CmdType → Text → Option (ℕ × Bool)
unfolding defined equal
condition env c_ifdef line = defined env false line
condition env c_ifndef line = defined env true line
condition env c_ifeq line = equal env false line
condition env c_ifneq line = equal env true line
condition env _ line = none
