-- ===== src/Read/Conditional.antt =====
-- `conditional_line` of src/read.c, over the stack `conditionals`. The stack is a list of levels, the
-- innermost first: `if_cmds` is its length, `o` its head, and the arrays that grow by fives have no
-- other part in the model. A fatal error ends make; `EXTRATEXT` reports an error and goes on.
pub mod Operands
pub mod Laws
pub mod Depth
pub mod Branch
use make.Read.Conditional.Operands.{
  Env, CmdType, c_ifdef, c_ifndef, c_ifeq, c_ifneq, c_else, c_endif, command_of, condition,
}
use make.Text.{Text, next_token, end_of_token, token}
use make.Prelude.{
  ℕ, zero, suc, ◌+◌, ◌≡◌, Bool, true, false, not, ◌||◌, Option, none, some, List, [], ◌∷◌, ltb,
  ◌==◌, if◌then◌else◌, take, drop,
}

-- `ignoring`: 0 is interpreting, 1 ignoring so far, 2 done with; `seen_else` as in the source.
pub record Level : Type 0 where
  pub ignoring : ℕ
  pub seen_else : Bool

pub record Conditionals : Type 0 where
  pub levels : List Level
  pub extratext : ℕ

-- The results -2, -1, 0 and 1.
pub data Verdict : Type 0 where
  not_conditional : Verdict
  bad_syntax : Verdict
  interpreting : Verdict
  ignoring : Verdict

pub data Fatal : Type 0 where
  extraneous_endif : Fatal
  extraneous_else : Fatal
  second_else : Fatal

pub data Outcome : Type 0 where
  returned : Verdict → Conditionals → Outcome
  fatal : Fatal → Outcome

unfoldable pub any_ignoring : List Level → Bool
any_ignoring [] = false
any_ignoring (l ∷ ls) = not (l.ignoring == 0) || any_ignoring ls

-- `DONE:`
unfoldable pub finish : Conditionals → Outcome
unfolding any_ignoring
finish s = returned (if any_ignoring s.levels then ignoring else interpreting) s

-- `if (*line != '\0') EXTRATEXT ();`
abbrev pub check_extra : Text → Conditionals → Conditionals
check_extra [] s = s
check_extra (c ∷ r) s = record s { extratext = s.extratext + 1 }

-- `--conditionals->if_cmds`, if there is a level.
unfoldable pub pop : List Level → Conditionals → Outcome
unfolding finish
pop [] s = fatal extraneous_endif
pop (l ∷ ls) s = finish (record s { levels = ls })

unfoldable pub endif_line : Text → Conditionals → Outcome
unfolding pop
endif_line line s = pop s.levels (check_extra line s)

abbrev pub push : ℕ → Conditionals → Conditionals
push ig s = record s { levels = record { ignoring = ig; seen_else = false } ∷ s.levels }

abbrev pub report : Bool → Conditionals → Conditionals
report true s = record s { extratext = s.extratext + 1 }
report false s = s

-- The new level, once its condition has been read.
unfoldable pub judge : Env → Option (ℕ × Bool) → Conditionals → Outcome
unfolding finish
judge env none s = returned bad_syntax (push env.unset s)
judge env (some (ig, extra)) s = finish (report extra (push ig s))

-- From the push of a new level on: `ifdef`, `ifndef`, `ifeq` and `ifneq`.
unfoldable pub open_line : Env → CmdType → Text → Conditionals → Outcome
unfolding any_ignoring judge
open_line env cmd line s =
    if any_ignoring s.levels
    then returned ignoring (push 1 s)
    else judge env (condition env cmd line) s

-- Raise the level that the nested call made back to the one below it.
unfoldable pub merged : List Level → List Level
merged (new ∷ l ∷ ls) = (if ltb l.ignoring 2 then record l { ignoring = new.ignoring } else l) ∷ ls
merged ls = ls

-- What follows the nested call of `conditional_line` in the `else` branch.
unfoldable pub absorb : Outcome → Outcome
unfolding finish merged
absorb (fatal f) = fatal f
absorb (returned not_conditional s) = finish (report true s)
absorb (returned bad_syntax s) = finish (report true s)
absorb (returned _ s) = finish (record s { levels = merged s.levels })

-- `switch (conditionals->ignoring[o])`
unfoldable pub switch_ignoring : ℕ → ℕ
switch_ignoring zero = 2
switch_ignoring (suc zero) = 0
switch_ignoring n = n

-- The command after `else`.
unfoldable pub else_command : Env → Option CmdType → Text → Conditionals → Outcome
unfolding open_line absorb
else_command env none line s = finish (report true s)
else_command env (some c_else) line s = finish (report true s)
else_command env (some c_endif) line s = finish (report true s)
else_command env (some cmd) line s = absorb (open_line env cmd line s)

-- The text after `else`: none, or another conditional.
unfoldable pub else_text : Env → Text → Level → List Level → Conditionals → Outcome
unfolding else_command
else_text env [] l ls s = finish (record s { levels = record l { seen_else = true } ∷ ls })
else_text env (c ∷ r) l ls s =
    else_command env (command_of (c ∷ token r)) (next_token (end_of_token r))
      (record s { levels = l ∷ ls })

unfoldable pub else_levels : Env → Text → List Level → Conditionals → Outcome
unfolding else_text switch_ignoring
else_levels env line [] s = fatal extraneous_else
else_levels env line (l ∷ ls) s =
    if l.seen_else
    then fatal second_else
    else else_text env line (record l { ignoring = switch_ignoring l.ignoring }) ls s

unfoldable pub else_line : Env → Text → Conditionals → Outcome
unfolding else_levels
else_line env line s = else_levels env line s.levels s

unfoldable pub dispatch : Env → Option CmdType → Text → Conditionals → Outcome
unfolding endif_line open_line else_line
dispatch env none line s = returned not_conditional s
dispatch env (some c_endif) line s = endif_line line s
dispatch env (some c_else) line s = else_line env line s
dispatch env (some cmd) line s = open_line env cmd line s

-- `len` is the length of the first word of `line`.
unfoldable pub conditional_line : Env → ℕ → Text → Conditionals → Outcome
unfolding dispatch
conditional_line env len line s =
    dispatch env (command_of (take len line)) (next_token (drop len line)) s
