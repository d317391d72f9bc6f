-- ===== src/Tests/Variables.antt =====
-- Variables of the environment, of a makefile and of a scope.
use make.Variable.Balance.{Balanced, idle, defines, defines_in, pop-push_restores}
use make.Variable.Restore.{IsScoped, Restored, Survives}
use make.Variable.Lookup.{Chain, end, link, IsNearest, lookup_variable-IsNearest}
use make.Variable.Scopes.{
  SetList, Scopes, define_variable, define_variable_in_set, push_new_variable_scope,
  create_new_variable_set, swap_global, pop_variable_scope, lookup_variable,
}
use make.Variable.Strongest.{define_all, IsStrongest, define_all-IsStrongest}
use make.Variable.{
  o_env, o_file, Variable, Definition, find, define_in, defined_variable, redefine, new_variable,
  raise, replace,
}
use make.Text.{Text, codes}
use make.Prelude.{
  ℕ, ◌≡◌, refl, Bool, ◌==◌, true, false, Option, none, some, List, [], ◌∷◌, length, Returns, arith,
}

abbrev from_env : Definition
from_env = record {
  name = codes "CC";
  value = codes "clang";
  origin = o_env;
  recursive = true;
  flocp = none;
}

abbrev from_file : Definition
from_file = record {
  name = codes "CC";
  value = codes "gcc";
  origin = o_file;
  recursive = false;
  flocp = none;
}

value_of : Option Variable → Text
value_of none = []
value_of (some v) = v.value

-- Without `-e` the makefile wins, with it the environment.
makefile_wins :
    value_of (find (codes "CC") (define_all false (from_env ∷ from_file ∷ []) [])) ≡ codes "gcc"
unfolding value_of define_all find define_in defined_variable redefine new_variable raise replace
makefile_wins = refl

environment_wins :
    value_of (find (codes "CC") (define_all true (from_env ∷ from_file ∷ []) [])) ≡ codes "clang"
unfolding value_of define_all find define_in defined_variable redefine new_variable raise replace
environment_wins = refl

define_all-IsStrongest_example :
    IsStrongest true
      (codes "CC")
      (from_env ∷ from_file ∷ [])
      (find (codes "CC") (define_all true (from_env ∷ from_file ∷ []) []))
define_all-IsStrongest_example =
    define_all-IsStrongest true (from_env ∷ from_file ∷ []) (codes "CC")

abbrev one : List Variable
one = define_all false (from_file ∷ []) []

-- The global list alone.
abbrev start : Scopes
start = record {
  sets = λ a. one;
  lists = λ a. record { next = none; set = 0; next_is_parent = false };
  current_variable_set_list = some 0;
  fresh = 1;
  env_overrides = false;
  variable_changenum = 1;
}

start-IsScoped : IsScoped start
start-IsScoped = record {
  current = 0;
  is_current = refl;
  in_use = omega arith;
  set_in_use = omega arith;
  top = refl;
}

abbrev pushed : Scopes
pushed = push_new_variable_scope start

abbrev global_only : ℕ → Bool
global_only a = a == 0

abbrev inside : Scopes
inside = (define_variable_in_set from_env (some 1) pushed).1

-- One definition in the scope, then one in the global set, as `eval` makes it.
abbrev evaluated : Scopes
evaluated = (define_variable_in_set from_env none inside).1

inner : Balanced global_only pushed evaluated
unfolding define_variable push_new_variable_scope create_new_variable_set swap_global
inner =
    defines_in pushed inside from_env none
      (defines pushed pushed from_env (define_variable_in_set from_env (some 1) pushed)
        (idle pushed) refl)
      refl

pop-push_restores_example :
    Returns
      (pop_variable_scope evaluated)
      (λ u. Restored global_only start u × Survives start evaluated u)
pop-push_restores_example = pop-push_restores global_only start evaluated start-IsScoped inner

abbrev nodes : List SetList
nodes = record { next = none; set = 0; next_is_parent = false } ∷ []

chain : Chain start (some 0) nodes
chain = link 0 [] end

lookup_variable-IsNearest_example :
    Returns
      (lookup_variable (length nodes) (λ v. v) (codes "CC") start)
      (IsNearest (λ v. v) (codes "CC") start false nodes)
lookup_variable-IsNearest_example =
    lookup_variable-IsNearest (λ v. v) (codes "CC") start nodes chain
