-- ===== src/Tests/Conditional.antt =====
-- `conditional_line` of src/read.c on short directives.
use make.Read.Conditional.Operands.{Env, c_else, c_ifeq, command_of, condition}
use make.Read.Conditional.Depth.{Leaves, Deepens, conditional_line-Deepens}
use make.Read.Conditional.Branch.{next_branch, else_line-next_branch, else_line-malformed}
use make.Read.Conditional.{Conditionals, any_ignoring, finish, report, else_line, conditional_line}
use make.Text.{codes, is_blank, is_space, next_token, end_of_token, token}
use make.Prelude.{◌+◌, ◌≡◌, refl, true, false, none, some, [], ◌∷◌, arith}

-- Nothing to expand; no variable is set.
abbrev env : Env
env = record { expand = λ t. t; lookup_variable = λ t. none; unset = 0 }

-- In the part after `ifdef A`, not interpreted.
abbrev in_ifdef : Conditionals
in_ifdef = record { levels = record { ignoring = 1; seen_else = false } ∷ []; extratext = 0 }

is_else : command_of (codes "else") ≡ some c_else
unfolding command_of
is_else = refl

conditional_line-Deepens_example :
    Leaves (Deepens c_else in_ifdef) (conditional_line env 4 (codes "else ifeq (a,a)") in_ifdef)
conditional_line-Deepens_example =
    conditional_line-Deepens env 4 (codes "else ifeq (a,a)") in_ifdef c_else is_else

word_ifeq : command_of (b'i' ∷ token (codes "feq (a,a) x")) ≡ some c_ifeq
unfolding command_of token is_space is_blank
word_ifeq = refl

same_operands :
    condition env c_ifeq (next_token (end_of_token (codes "feq (a,a) x"))) ≡ some (0, true)
unfolding condition next_token end_of_token is_space is_blank
same_operands = refl

no_operands : condition env c_ifeq (next_token (end_of_token (codes "feq a"))) ≡ none
unfolding condition next_token end_of_token is_space is_blank
no_operands = refl

word_ifeq_only : command_of (b'i' ∷ token (codes "feq a")) ≡ some c_ifeq
unfolding command_of token is_space is_blank
word_ifeq_only = refl

clear : any_ignoring [] ≡ false
unfolding any_ignoring
clear = refl

else_line-next_branch_example :
    else_line env (codes "ifeq (a,a) x") in_ifdef
    ≡ finish (
        report true (record {
          levels = record { ignoring = next_branch 1 0; seen_else = false } ∷ [];
          extratext = 0;
        }))
else_line-next_branch_example =
    else_line-next_branch env b'i' (codes "feq (a,a) x") 1 [] 0 c_ifeq 0 true clear (omega arith)
      word_ifeq refl same_operands

else_line-malformed_example :
    else_line env (codes "ifeq a") in_ifdef
    ≡ finish (record {
      levels =
          record { ignoring = 0; seen_else = false }
          ∷ record { ignoring = 0; seen_else = false }
          ∷ [];
      extratext = 0 + 1;
    })
else_line-malformed_example =
    else_line-malformed env b'i' (codes "feq a") [] 0 c_ifeq clear word_ifeq_only refl no_operands
