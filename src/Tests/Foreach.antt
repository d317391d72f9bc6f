-- ===== src/Tests/Foreach.antt =====
-- Loops over words where an expansion is the value of the variable that the text names.
use make.Function.Foreach.{func_foreach, foreach_scope, foreach_round, func_foreach-Restored}
use make.Function.Let.{
  func_let, let_scope, let_loop, let_last, let_value, next_name, func_let_blank,
}
use make.Function.Trimmed.{func_let-Restored}
use make.Variable.Balance.{define_variable_in_set-Restored}
use make.Variable.Restore.{IsScoped, Restored}
use make.Variable.Scopes.{
  Scopes, assign_value, assigned_set, bump, current_set, define_variable, define_variable_in_set,
  push_new_variable_scope, create_new_variable_set, swap_global, pop_variable_scope, pop_from,
}
use make.Variable.{
  Variable, Definition, o_file, find, define_in, defined_variable, redefine, new_variable, raise,
  replace,
}
use make.Text.{
  Text, codes, next_token, token, end_of_token, find_next_token, cut_token, each_token, is_space,
  is_blank, kill_last, drop_last,
}
use make.Prelude.{ℕ, ◌≡◌, refl, Bool, false, Option, none, some, [], ◌==◌, ◌>>=◌, Returns, arith}

-- The global list alone, without variables.
abbrev start : Scopes
start = record {
  sets = λ a. [];
  lists = λ a. record { next = none; set = 0; next_is_parent = false };
  current_variable_set_list = some 0;
  fresh = 1;
  env_overrides = false;
  variable_changenum = 0;
}

start-IsScoped : IsScoped start
start-IsScoped = record {
  current = 0;
  is_current = refl;
  in_use = omega arith;
  set_in_use = omega arith;
  top = refl;
}

value_of : Option Variable → Text
value_of none = []
value_of (some v) = v.value

found_in : Scopes → Text → Option Variable
found_in s text = current_set s >>= λ set. find text (s.sets set)

unfoldable look : Scopes → Text → Text × Scopes
unfolding value_of found_in
look s text = (value_of (found_in s text), s)

abbrev same : Scopes → Text → Text × Scopes
same s text = (text, s)

output : Option (Text × Scopes) → Option Text
output none = none
output (some r) = some r.0

looped :
    output (func_foreach same look (codes "o:") (codes " x ") (codes "a  b c") (codes "x") start)
    ≡ some (codes "o:a b c")
unfolding output look func_foreach foreach_scope foreach_round assign_value assigned_set
    define_variable define_variable_in_set bump push_new_variable_scope create_new_variable_set
    swap_global pop_variable_scope pop_from find define_in defined_variable redefine new_variable
    raise replace next_token token end_of_token find_next_token cut_token each_token is_space
    is_blank kill_last drop_last
looped = refl

bound :
    output (func_let same look [] (codes "x y") (codes "a  b c") (codes "y") start)
    ≡ some (codes "b c")
unfolding output look func_let let_scope let_loop let_last let_value next_name define_variable
    define_variable_in_set bump push_new_variable_scope create_new_variable_set swap_global
    pop_variable_scope pop_from find define_in defined_variable redefine new_variable raise replace
    next_token token end_of_token find_next_token cut_token is_space is_blank
bound = refl

abbrev global_only : ℕ → Bool
global_only a = a == 0

abbrev from_eval : Definition
from_eval = record {
  name = codes "seen";
  value = codes "yes";
  origin = o_file;
  recursive = false;
  flocp = none;
}

-- An expansion that looks a variable up and defines another one in the global set, as `eval` does.
unfoldable evaluate : Scopes → Text → Text × Scopes
unfolding look
evaluate s text = ((look s text).0, (define_variable_in_set from_eval none s).1)

global_value : Option (Text × Scopes) → Text → Text
global_value none name = []
global_value (some r) name = value_of (find name ((r.1).sets 0))

-- What `eval` defines in the body outlives the scope.
outlives :
    global_value
      (func_foreach same evaluate [] (codes "x") (codes "a b") (codes "x") start)
      (codes "seen")
    ≡ codes "yes"
unfolding global_value value_of evaluate look func_foreach foreach_scope foreach_round assign_value
    assigned_set define_variable define_variable_in_set bump push_new_variable_scope
    create_new_variable_set swap_global pop_variable_scope pop_from find define_in defined_variable
    redefine new_variable raise replace next_token token end_of_token find_next_token cut_token
    each_token is_space is_blank kill_last drop_last
outlives = refl

same-Restored : (s : Scopes) (text : Text) → Restored global_only s (same s text).1
same-Restored s text = record {
  current = refl;
  lists = λ a lt. refl;
  sets = λ a lt e. refl;
  fresh = omega arith;
}

evaluate-Restored : (s : Scopes) (text : Text) → Restored global_only s (evaluate s text).1
unfolding evaluate
evaluate-Restored s text = define_variable_in_set-Restored global_only s from_eval none refl

func_foreach-Restored_example :
    Returns
      (func_foreach same evaluate (codes "o:") (codes " x ") (codes "a  b c") (codes "x") start)
      (λ r. Restored global_only start r.1)
func_foreach-Restored_example =
    func_foreach-Restored same evaluate global_only same-Restored evaluate-Restored (codes "o:")
      (codes " x ") (codes "a  b c") (codes "x") start start-IsScoped

func_let-Restored_example :
    Returns
      (func_let same evaluate [] (codes "x y") (codes "a  b c") (codes "y") start)
      (λ r. Restored global_only start r.1)
unfolding is_space is_blank
func_let-Restored_example =
    func_let-Restored global_only same evaluate same-Restored evaluate-Restored [] (codes "x y")
      (codes "a  b c") (codes "y") start start-IsScoped refl

func_let_blank_example : func_let same look [] (codes "x y") (codes " ") (codes "y") start ≡ none
unfolding is_space is_blank next_name find_next_token cut_token next_token token end_of_token
func_let_blank_example =
    func_let_blank same look [] (codes "x y") (codes " ") (codes "y") start (codes "x") b'y' [] 32
      [] refl refl (refl, tt)
