-- ===== src/Read/Conditional/Branch.antt =====
-- Which branch of a chain `if … else if … else … endif` is read, and what an ignored part leaves
-- alone.
use make.Read.Conditional.Operands.{
  Env, CmdType, c_ifdef, c_ifndef, c_ifeq, c_ifneq, c_else, c_endif, command_of, condition,
}
use make.Read.Conditional.{
  Level, Conditionals, interpreting, ignoring, returned, any_ignoring, finish, push, report,
  open_line, merged, absorb, judge, else_command, else_levels, switch_ignoring, else_text,
  else_line,
}
use make.Text.{Text, next_token, end_of_token, token}
use make.Prelude.{
  ℕ, zero, suc, ◌+◌, ◌≤◌, ◌≡◌, refl, ap, ◌∙◌, Bool, true, false, ◌&&◌, none, some, List, [], ◌∷◌,
  ◌==◌, if◌then◌else◌, arith,
}

-- `ifdef`, `ifndef`, `ifeq` or `ifneq`.
abbrev pub is_if : CmdType → Bool
is_if c_else = false
is_if c_endif = false
is_if _ = true

-- The state of a level after one more condition of its chain, `ig` being 0 where the condition holds:
-- a level that has read nothing yet (1) takes the condition's state, any other is done with (2).
abbrev pub next_branch : ℕ → ℕ → ℕ
next_branch p ig = if p == 1 then ig else 2

else_command-open :
    (env : Env) (cmd : CmdType) (line : Text) (s : Conditionals)
    → is_if cmd ≡ true
    → else_command env (some cmd) line s ≡ absorb (open_line env cmd line s)
unfolding else_command
else_command-open env c_ifdef line s h = refl
else_command-open env c_ifndef line s h = refl
else_command-open env c_ifeq line s h = refl
else_command-open env c_ifneq line s h = refl
else_command-open env c_else line s h = cc
else_command-open env c_endif line s h = cc

absorb-returned :
    (v : Bool) (s : Conditionals)
    → absorb (returned (if v then ignoring else interpreting) s)
      ≡ finish (record s { levels = merged s.levels })
unfolding absorb
absorb-returned true s = refl
absorb-returned false s = refl

absorb-finish :
    (s : Conditionals) → absorb (finish s) ≡ finish (record s { levels = merged s.levels })
unfolding finish
absorb-finish s = absorb-returned (any_ignoring s.levels) s

-- In an ignored part the condition after `else` is not read, and the level stays as it was.
open_ignored :
    (env : Env) (cmd : CmdType) (line : Text) (l : Level) (ls : List Level) (x : ℕ)
    → any_ignoring (l ∷ ls) ≡ true
    → open_line env cmd line (record { levels = l ∷ ls; extratext = x })
      ≡ returned ignoring (push 1 (record { levels = l ∷ ls; extratext = x }))
unfolding open_line
open_ignored env cmd line l ls x e = rw e

judge-taken :
    (env : Env) (ig : ℕ) (extra : Bool) (l : Level) (ls : List Level) (x : ℕ)
    → l.ignoring ≡ 0
    → absorb (judge env (some (ig, extra)) (record { levels = l ∷ ls; extratext = x }))
      ≡ finish (report extra (record { levels = record l { ignoring = ig } ∷ ls; extratext = x }))
unfolding judge merged
judge-taken env ig true l ls x e =
    rw
      (absorb-finish (report true (push ig (record { levels = l ∷ ls; extratext = x }))), e, merged)
      refl
judge-taken env ig false l ls x e =
    rw (absorb-finish (push ig (record { levels = l ∷ ls; extratext = x })), e, merged) refl

-- The level after `else` and a condition, where its state was `p` before and became `q` at the
-- `else`.
else_command-taken :
    (env : Env) (cmd : CmdType) (line : Text) (l : Level) (ls : List Level) (x ig : ℕ)
    (extra : Bool)
    → is_if cmd ≡ true
    → any_ignoring ls ≡ false
    → condition env cmd line ≡ some (ig, extra)
    → else_command env
        (some cmd)
        line
        (record { levels = record l { ignoring = 0 } ∷ ls; extratext = x })
      ≡ finish (report extra (record { levels = record l { ignoring = ig } ∷ ls; extratext = x }))
unfolding open_line any_ignoring
else_command-taken env cmd line l ls x ig extra h e c =
    rw
      (
        else_command-open env cmd line
            (record { levels = record l { ignoring = 0 } ∷ ls; extratext = x }) h,
        e,
        c,
      )
      (judge-taken env ig extra (record l { ignoring = 0 }) ls x refl)

else_command-skipped :
    (env : Env) (cmd : CmdType) (line : Text) (l : Level) (ls : List Level) (x : ℕ)
    → is_if cmd ≡ true
    → else_command env
        (some cmd)
        line
        (record { levels = record l { ignoring = 2 } ∷ ls; extratext = x })
      ≡ finish (record { levels = record l { ignoring = 2 } ∷ ls; extratext = x })
unfolding absorb merged any_ignoring
else_command-skipped env cmd line l ls x h =
    rw
      (
        else_command-open env cmd line
            (record { levels = record l { ignoring = 2 } ∷ ls; extratext = x }) h,
        open_ignored env cmd line (record l { ignoring = 2 }) ls x refl,
      )
      refl

judge-malformed :
    (env : Env) (s : Conditionals)
    → absorb (judge env none s) ≡ finish (report true (push env.unset s))
unfolding judge absorb
judge-malformed env s = refl

open_read :
    (env : Env) (cmd : CmdType) (line : Text) (s : Conditionals)
    → any_ignoring s.levels ≡ false
    → open_line env cmd line s ≡ judge env (condition env cmd line) s
unfolding open_line
open_read env cmd line s e = rw e refl

text-next_branch :
    (env : Env) (c : ℕ) (r : Text) (p : ℕ) (ls : List Level) (x : ℕ) (cmd : CmdType) (ig : ℕ)
    (extra : Bool)
    → any_ignoring ls ≡ false
    → p ≤ 2
    → command_of (c ∷ token r) ≡ some cmd
    → is_if cmd ≡ true
    → condition env cmd (next_token (end_of_token r)) ≡ some (ig, extra)
    → else_text env
        (c ∷ r)
        (record { ignoring = switch_ignoring p; seen_else = false })
        ls
        (record { levels = record { ignoring = p; seen_else = false } ∷ ls; extratext = x })
      ≡ finish (
          report ((p == 1) && extra) (record {
            levels = record { ignoring = next_branch p ig; seen_else = false } ∷ ls;
            extratext = x;
          }))
unfolding else_text switch_ignoring
text-next_branch env c r zero ls x cmd ig extra n h k f d = rw k (
    else_command-skipped env cmd (next_token (end_of_token r))
      (record { ignoring = 0; seen_else = false }) ls x f)
text-next_branch env c r (suc zero) ls x cmd ig extra n h k f d = rw k (
    else_command-taken env cmd (next_token (end_of_token r))
      (record { ignoring = 0; seen_else = false }) ls x ig extra f n d)
text-next_branch env c r (suc (suc zero)) ls x cmd ig extra n h k f d = rw k (
    else_command-skipped env cmd (next_token (end_of_token r))
      (record { ignoring = 0; seen_else = false }) ls x f)
text-next_branch env c r (suc (suc (suc p))) ls x cmd ig extra n h k f d = absurd (omega (arith, h))

-- Where no outer level ignores, `else` with a well-formed condition takes the innermost level,
-- which has seen no other `else`, from state `p` to `next_branch p ig`, and pops the level of the
-- nested directive; text after the condition is reported only where the condition was read, in
-- state 1.
pub else_line-next_branch :
    (env : Env) (c : ℕ) (r : Text) (p : ℕ) (ls : List Level) (x : ℕ) (cmd : CmdType) (ig : ℕ)
    (extra : Bool)
    → any_ignoring ls ≡ false
    → p ≤ 2
    → command_of (c ∷ token r) ≡ some cmd
    → is_if cmd ≡ true
    → condition env cmd (next_token (end_of_token r)) ≡ some (ig, extra)
    → else_line env
        (c ∷ r)
        (record { levels = record { ignoring = p; seen_else = false } ∷ ls; extratext = x })
      ≡ finish (
          report ((p == 1) && extra) (record {
            levels = record { ignoring = next_branch p ig; seen_else = false } ∷ ls;
            extratext = x;
          }))
unfolding else_line else_levels
else_line-next_branch env c r p ls x cmd ig extra n h k f d =
    text-next_branch env c r p ls x cmd ig extra n h k f d

-- A malformed condition after `else`, where it is read since no outer level ignores and the innermost
-- one has read nothing yet, is reported as extraneous text, and the level
-- that it pushed stays on the stack.
pub else_line-malformed :
    (env : Env) (c : ℕ) (r : Text) (ls : List Level) (x : ℕ) (cmd : CmdType)
    → any_ignoring ls ≡ false
    → command_of (c ∷ token r) ≡ some cmd
    → is_if cmd ≡ true
    → condition env cmd (next_token (end_of_token r)) ≡ none
    → else_line env
        (c ∷ r)
        (record { levels = record { ignoring = 1; seen_else = false } ∷ ls; extratext = x })
      ≡ finish (record {
        levels =
            record { ignoring = env.unset; seen_else = false }
            ∷ record { ignoring = 0; seen_else = false }
            ∷ ls;
        extratext = x + 1;
      })
unfolding else_line else_levels else_text switch_ignoring any_ignoring
else_line-malformed env c r ls x cmd n k f d =
    read
    ∙ else_command-open env cmd (next_token (end_of_token r)) below f
    ∙ ap absorb
        (open_read env cmd (next_token (end_of_token r)) below n ∙ ap (λ a. judge env a below) d)
    ∙ judge-malformed env below
  where
    below : Conditionals
    below = record { levels = record { ignoring = 0; seen_else = false } ∷ ls; extratext = x }

    read :
        else_line env
          (c ∷ r)
          (record { levels = record { ignoring = 1; seen_else = false } ∷ ls; extratext = x })
        ≡ else_command env
            (some cmd)
            (next_token (end_of_token r))
            (record { levels = record { ignoring = 0; seen_else = false } ∷ ls; extratext = x })
    read = rw k refl

-- `else` with nothing after it takes the innermost level, which has seen no other `else`, from state
-- `p` to `next_branch p 0` and marks it as having seen one.
else_line-plain :
    (env : Env) (p : ℕ) (ls : List Level) (x : ℕ)
    → p ≤ 2
    → else_line env []
        (record { levels = record { ignoring = p; seen_else = false } ∷ ls; extratext = x })
      ≡ finish (record {
        levels = record { ignoring = next_branch p 0; seen_else = true } ∷ ls;
        extratext = x;
      })
unfolding else_line else_levels else_text switch_ignoring
else_line-plain env zero ls x h = refl
else_line-plain env (suc zero) ls x h = refl
else_line-plain env (suc (suc zero)) ls x h = refl
else_line-plain env (suc (suc (suc p))) ls x h = absurd (omega (arith, h))
