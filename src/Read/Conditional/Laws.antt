-- ===== src/Read/Conditional/Laws.antt =====
-- The stack of conditionals: its depth, the verdicts, and which branch of a chain is read.
use make.Read.Conditional.Operands.{Env, CmdType, c_else, c_endif, command_of, condition}
use make.Read.Conditional.{
  Level, Conditionals, not_conditional, bad_syntax, interpreting, ignoring, Outcome, returned,
  fatal, any_ignoring, finish, check_extra, endif_line, push, report, open_line, merged, absorb,
  judge, else_command, else_levels, pop, dispatch, switch_ignoring, else_text, else_line,
  conditional_line,
}
use make.Text.{Text, next_token, end_of_token, token}
use make.Prelude.{
  ℕ, ◌≡◌, inl, inr, refl, Bool, true, false, Option, none, some, List, [], ◌∷◌, take, drop,
  Bool-cases,
}

-- The answers 0 and 1 tell whether some level is ignoring.
abbrev pub Tells : Outcome → Type 0
Tells (returned interpreting s) = any_ignoring s.levels ≡ false
Tells (returned ignoring s) = any_ignoring s.levels ≡ true
Tells _ = Unit {0}

finish-Tells : (s : Conditionals) → Tells (finish s)
unfolding finish
finish-Tells s = elim (Bool-cases (any_ignoring s.levels)) [
  | inl e ↦ rw (e, Tells) e
  | inr e ↦ rw (e, Tells) e
]

judge-Tells : (env : Env) (c : Option (ℕ × Bool)) (s : Conditionals) → Tells (judge env c s)
unfolding judge
judge-Tells env none s = tt
judge-Tells env (some (ig, extra)) s = finish-Tells (report extra (push ig s))

open_line-Tells :
    (env : Env) (cmd : CmdType) (line : Text) (s : Conditionals) → Tells (open_line env cmd line s)
unfolding open_line
open_line-Tells env cmd line s = elim (Bool-cases (any_ignoring s.levels)) [
  | inl e ↦ rw (e, Tells) (unfold any_ignoring in refl)
  | inr e ↦ rw (e, Tells) (judge-Tells env (condition env cmd line) s)
]

absorb-Tells : (o : Outcome) → Tells (absorb o)
unfolding absorb
absorb-Tells (fatal f) = tt
absorb-Tells (returned not_conditional s) = finish-Tells (report true s)
absorb-Tells (returned bad_syntax s) = finish-Tells (report true s)
absorb-Tells (returned interpreting s) = finish-Tells (record s { levels = merged s.levels })
absorb-Tells (returned ignoring s) = finish-Tells (record s { levels = merged s.levels })

else_command-Tells :
    (env : Env) (cmd : Option CmdType) (line : Text) (s : Conditionals)
    → Tells (else_command env cmd line s)
unfolding else_command
else_command-Tells env none line s = finish-Tells (report true s)
else_command-Tells env (some c_else) line s = finish-Tells (report true s)
else_command-Tells env (some c_endif) line s = finish-Tells (report true s)
else_command-Tells env (some cmd) line s = absorb-Tells (open_line env cmd line s)

else_text-Tells :
    (env : Env) (line : Text) (l : Level) (ls : List Level) (s : Conditionals)
    → Tells (else_text env line l ls s)
unfolding else_text
else_text-Tells env [] l ls s =
    finish-Tells (record s { levels = record l { seen_else = true } ∷ ls })
else_text-Tells env (c ∷ r) l ls s =
    else_command-Tells env (command_of (c ∷ token r)) (next_token (end_of_token r))
      (record s { levels = l ∷ ls })

else_levels-Tells :
    (env : Env) (line : Text) (ls : List Level) (s : Conditionals)
    → Tells (else_levels env line ls s)
unfolding else_levels
else_levels-Tells env line [] s = tt
else_levels-Tells env line (l ∷ ls) s = elim (Bool-cases l.seen_else) [
  | inl e ↦ rw (e, Tells) tt
  | inr e ↦
      rw (e, Tells)
        (else_text-Tells env line
          (record { ignoring = switch_ignoring l.ignoring; seen_else = false }) ls s)
]

pop-Tells : (ls : List Level) (s : Conditionals) → Tells (pop ls s)
unfolding pop
pop-Tells [] s = tt
pop-Tells (l ∷ ls) s = finish-Tells (record s { levels = ls })

dispatch-Tells :
    (env : Env) (cmd : Option CmdType) (line : Text) (s : Conditionals)
    → Tells (dispatch env cmd line s)
unfolding dispatch endif_line else_line
dispatch-Tells env none line s = tt
dispatch-Tells env (some c_endif) line s = pop-Tells s.levels (check_extra line s)
dispatch-Tells env (some c_else) line s = else_levels-Tells env line s.levels s
dispatch-Tells env (some cmd) line s = open_line-Tells env cmd line s

-- On every directive, the answer 1 means that some level of the new stack is ignoring, and the answer
-- 0 that none is.
conditional_line-Tells :
    (env : Env) (len : ℕ) (line : Text) (s : Conditionals) → Tells (conditional_line env len line s)
unfolding conditional_line
conditional_line-Tells env len line s =
    dispatch-Tells env (command_of (take len line)) (next_token (drop len line)) s
