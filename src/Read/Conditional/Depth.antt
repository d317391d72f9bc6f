-- ===== src/Read/Conditional/Depth.antt =====
-- How each directive changes the depth of the stack.
use make.Read.Conditional.Operands.{
  Env, CmdType, c_ifdef, c_ifndef, c_ifeq, c_ifneq, c_else, c_endif, command_of, condition,
}
use make.Read.Conditional.{
  Level, Conditionals, not_conditional, bad_syntax, interpreting, ignoring, Outcome, returned,
  fatal, any_ignoring, finish, check_extra, push, report, open_line, merged, absorb, judge,
  else_command, else_levels, pop, dispatch, switch_ignoring, else_text, conditional_line,
}
use make.Text.{Text, next_token, end_of_token, token}
use make.Prelude.{
  ℕ, suc, ◌+◌, ◌≡◌, ◌⊎◌, inl, inr, refl, ap, subst, Bool, true, false, Option, none, some, List, [],
  ◌∷◌, length, take, drop, Bool-cases, arith,
}

abbrev pub Leaves : (Conditionals → Type 0) → Outcome → Type 0
Leaves P (returned v s) = P s
Leaves P (fatal f) = Unit

-- A new level is pushed, whatever the answer; a bad condition is not reported here.
abbrev Opens : ℕ → ℕ → Outcome → Type 0
Opens d x (fatal f) = ⊥
Opens d x (returned not_conditional s) = ⊥
Opens d x (returned bad_syntax s) = (length s.levels ≡ suc d) × (s.extratext ≡ x)
Opens d x (returned _ s) = length s.levels ≡ suc d

finish-Opens : (d x : ℕ) (s : Conditionals) → length s.levels ≡ suc d → Opens d x (finish s)
unfolding finish
finish-Opens d x s e = elim (Bool-cases (any_ignoring s.levels)) [
  | inl i ↦ rw (i, Opens) e
  | inr i ↦ rw (i, Opens) e
]

judge-Opens :
    (env : Env) (c : Option (ℕ × Bool)) (s : Conditionals)
    → Opens (length s.levels) s.extratext (judge env c s)
unfolding judge
judge-Opens env none s = (refl, refl)
judge-Opens env (some (ig, true)) s =
    finish-Opens (length s.levels) s.extratext (report true (push ig s)) refl
judge-Opens env (some (ig, false)) s = finish-Opens (length s.levels) s.extratext (push ig s) refl

open_line-Opens :
    (env : Env) (cmd : CmdType) (line : Text) (s : Conditionals)
    → Opens (length s.levels) s.extratext (open_line env cmd line s)
unfolding open_line
open_line-Opens env cmd line s = elim (Bool-cases (any_ignoring s.levels)) [
  | inl e ↦ rw (e, Opens) refl
  | inr e ↦ rw (e, Opens) (judge-Opens env (condition env cmd line) s)
]

-- What may be left of depth `n` after an `else`: the same depth, or one level more together with a
-- report of extraneous text.
abbrev pub KeepsDepth : ℕ → ℕ → Conditionals → Type 0
KeepsDepth n x s = (length s.levels ≡ n) ⊎ ((s.extratext ≡ x + 1) × (length s.levels ≡ suc n))

merged-length : (n : ℕ) (ls : List Level) → length ls ≡ suc (suc n) → length (merged ls) ≡ suc n
unfolding merged
merged-length n [] e = absurd (omega arith)
merged-length n (l ∷ []) e = absurd (omega arith)
merged-length n (a ∷ l ∷ ls) e = omega arith

absorb-KeepsDepth :
    (n x : ℕ) (o : Outcome) → Opens (suc n) x o → Leaves (KeepsDepth (suc n) x) (absorb o)
unfolding absorb finish
absorb-KeepsDepth n x (fatal f) h = tt
absorb-KeepsDepth n x (returned not_conditional s) h = absurd h
absorb-KeepsDepth n x (returned bad_syntax s) h = inr (omega (arith, h.1), h.0)
absorb-KeepsDepth n x (returned interpreting s) h = inl (merged-length n s.levels h)
absorb-KeepsDepth n x (returned ignoring s) h = inl (merged-length n s.levels h)

else_command-KeepsDepth :
    (env : Env) (cmd : Option CmdType) (line : Text) (l : Level) (ls : List Level)
    (s : Conditionals)
    → s.levels ≡ l ∷ ls
    → Leaves (KeepsDepth (suc (length ls)) s.extratext) (else_command env cmd line s)
unfolding else_command finish
else_command-KeepsDepth env none line l ls s e = inl (ap length e)
else_command-KeepsDepth env (some c_else) line l ls s e = inl (ap length e)
else_command-KeepsDepth env (some c_endif) line l ls s e = inl (ap length e)
else_command-KeepsDepth env (some cmd) line l ls s e =
    absorb-KeepsDepth (length ls) s.extratext (open_line env cmd line s) (
      subst (λ d. Opens d s.extratext (open_line env cmd line s)) (ap length e)
        (open_line-Opens env cmd line s))

else_text-KeepsDepth :
    (env : Env) (line : Text) (l : Level) (ls : List Level) (s : Conditionals)
    → Leaves (KeepsDepth (suc (length ls)) s.extratext) (else_text env line l ls s)
unfolding else_text finish
else_text-KeepsDepth env [] l ls s = inl refl
else_text-KeepsDepth env (c ∷ r) l ls s =
    else_command-KeepsDepth env (command_of (c ∷ token r)) (next_token (end_of_token r)) l ls
      (record s { levels = l ∷ ls }) refl

else_levels-KeepsDepth :
    (env : Env) (line : Text) (ls : List Level) (s : Conditionals)
    → Leaves (KeepsDepth (length ls) s.extratext) (else_levels env line ls s)
unfolding else_levels
else_levels-KeepsDepth env line [] s = tt
else_levels-KeepsDepth env line (l ∷ ls) s = elim (Bool-cases l.seen_else) [
  | inl e ↦ rw (e, Leaves) tt
  | inr e ↦
      rw (e, Leaves)
        (else_text-KeepsDepth env line
          (record { ignoring = switch_ignoring l.ignoring; seen_else = false }) ls s)
]

endif-depth :
    (line : Text) (ls : List Level) (s : Conditionals)
    → Leaves (λ s'. suc (length s'.levels) ≡ length ls) (pop ls s)
unfolding pop finish
endif-depth line [] s = tt
endif-depth line (l ∷ ls) s = refl

-- How deep the stack is after a directive, given the stack before.
abbrev pub Deepens : CmdType → Conditionals → Conditionals → Type 0
Deepens c_endif s s' = suc (length s'.levels) ≡ length s.levels
Deepens c_else s s' = KeepsDepth (length s.levels) s.extratext s'
Deepens _ s s' = length s'.levels ≡ suc (length s.levels)

-- Where no error is fatal, `endif` pops one level and the four `if` directives push one; `else`
-- keeps the depth, or reports extraneous text and leaves the level that a malformed condition after
-- it has pushed.
pub conditional_line-Deepens :
    (env : Env) (len : ℕ) (line : Text) (s : Conditionals) (cmd : CmdType)
    → command_of (take len line) ≡ some cmd
    → Leaves (Deepens cmd s) (conditional_line env len line s)
unfolding conditional_line
conditional_line-Deepens env len line s cmd e =
    rw (e, Leaves) (dispatched cmd (next_token (drop len line)))
  where
    opened :
        (o : Outcome)
        → Opens (length s.levels) s.extratext o
        → Leaves (λ s'. length s'.levels ≡ suc (length s.levels)) o
    opened (fatal f) h = tt
    opened (returned not_conditional s) h = absurd h
    opened (returned bad_syntax s) h = h.0
    opened (returned interpreting s) h = h
    opened (returned ignoring s) h = h

    dispatched :
        (cmd : CmdType) (rest : Text) → Leaves (Deepens cmd s) (dispatch env (some cmd) rest s)
    dispatched c_endif rest = endif-depth rest s.levels (check_extra rest s)
    dispatched c_else rest = else_levels-KeepsDepth env rest s.levels s
    dispatched c_ifdef rest =
        opened (open_line env c_ifdef rest s) (open_line-Opens env c_ifdef rest s)
    dispatched c_ifndef rest =
        opened (open_line env c_ifndef rest s) (open_line-Opens env c_ifndef rest s)
    dispatched c_ifeq rest =
        opened (open_line env c_ifeq rest s) (open_line-Opens env c_ifeq rest s)
    dispatched c_ifneq rest =
        opened (open_line env c_ifneq rest s) (open_line-Opens env c_ifneq rest s)
