-- ===== src/Function/Foreach.antt =====
-- src/function.c: `func_foreach` and `func_let`, which expand a body with variables of their own.
-- What expansion does with the variables is a parameter.
use make.Variable.Balance.{
  Balanced, assigns, elsewhere, Restored-IsScoped, Balanced-current_set, IsScoped-current_set,
  define_variable-Balanced, pop-push_restores,
}
use make.Variable.Pushed.{push-Opens}
use make.Variable.Restore.{IsScoped, Restored, Restored-trans}
use make.Variable.Scopes.{
  Scopes, assign_value, current_set, define_variable, push_new_variable_scope, pop_variable_scope,
}
use make.Variable.{Definition, o_automatic}
use make.Text.{Text, next_token, token, find_next_token, each_token, rounds, kill_last}
use make.Prelude.{
  ℕ, zero, suc, ◌≡◌, refl, ◌∙◌, Bool, true, false, Option, none, some, [], ◌∷◌, ◌++◌, ◌>>=◌,
  Returns,
}

-- `define_variable (name, strlen (name), value, o_automatic, 0)`
abbrev pub automatic : Text → Text → Definition
automatic name value = record {
  name = name;
  value = value;
  origin = o_automatic;
  recursive = false;
  flocp = none;
}

module _ (expand_argument expand : Scopes → Text → Text × Scopes) where
  -- One word of the list, `set` being the one that `var` is in.
  unfoldable pub foreach_round :
      Text → ℕ → Text → Text → (Text × Bool) × Scopes → (Text × Bool) × Scopes
  foreach_round vp set body p ((o, doneany), s) =
      let (result, t) = expand (assign_value vp p set s) body in ((o ++ result ++ 32 ∷ [], true), t)

  -- From `push_new_variable_scope` on.
  unfoldable pub foreach_scope : Text → Text → Text → Text → Scopes → Option (Text × Scopes)
  unfolding foreach_round
  foreach_scope o vp list body s =
      define_variable (automatic vp []) (push_new_variable_scope s) >>= λ (var, t).
      current_set t >>= λ set.
      let ((o', doneany), u) =
        each_token (rounds list) (foreach_round vp set body) list ((o, false), t) in
      pop_variable_scope u >>= λ v. some (kill_last (o', doneany), v)

  unfoldable pub func_foreach : Text → Text → Text → Text → Scopes → Option (Text × Scopes)
  unfolding foreach_scope
  func_foreach o var list body s =
      let (varname, t) = expand_argument s var in
      let (words, u) = expand_argument t list in
      foreach_scope o (token (next_token varname)) words body u

  module _ (shared : ℕ → Bool)
      (expand_argument-Restored : (s : Scopes) (text : Text)
        → Restored shared s (expand_argument s text).1)
      (expand-Restored : (s : Scopes) (text : Text) → Restored shared s (expand s text).1) where
    round-Balanced :
        (s : Scopes) (vp : Text) (set : ℕ) (body p : Text) (acc : (Text × Bool) × Scopes)
        → IsScoped s
        → current_set s ≡ some set
        → Balanced shared s acc.1
        → Balanced shared s (foreach_round vp set body p acc).1
    unfolding foreach_round
    round-Balanced s vp set body p (o, t) v e b =
        let u = assign_value vp p set t in
        elsewhere s u (expand u body).1
          (assigns s t vp p set b (Balanced-current_set shared s t v b ∙ e))
          (expand-Restored u body)

    rounds-Balanced :
        (fuel : ℕ) (s : Scopes) (vp : Text) (set : ℕ) (body list : Text)
        (acc : (Text × Bool) × Scopes)
        → IsScoped s
        → current_set s ≡ some set
        → Balanced shared s acc.1
        → Balanced shared s (each_token fuel (foreach_round vp set body) list acc).1
    unfolding each_token
    rounds-Balanced zero s vp set body list acc v e b = b
    rounds-Balanced (suc fuel) s vp set body list acc v e b =
        go (find_next_token list) refl (λ w rest.
          rounds-Balanced fuel s vp set body rest (foreach_round vp set body w acc) v e
            (round-Balanced s vp set body w acc v e b))
      where
        go :
            (x : Option (Text × Text))
            → find_next_token list ≡ x
            → ((w rest : Text)
                → Balanced shared s
                    (each_token fuel
                      (foreach_round vp set body)
                      rest
                      (foreach_round vp set body w acc)).1)
            → Balanced shared s (each_token (suc fuel) (foreach_round vp set body) list acc).1
        go none f rec = rw (f, each_token) b
        go (some (w, rest)) f rec = rw (f, each_token) (rec w rest)

    scope-Restored :
        (o vp list body : Text) (s : Scopes)
        → IsScoped s
        → Returns (foreach_scope o vp list body s) (λ r. Restored shared s r.1)
    unfolding foreach_scope
    scope-Restored o vp list body s v =
        let p = push_new_variable_scope s in
        let scoped = (push-Opens shared s v).scoped in
        let (r, run, b) = define_variable-Balanced shared p (automatic vp []) scoped in
        let set = (p.lists scoped.current).set in
        let here = IsScoped-current_set shared p scoped in
        let now : current_set r.1 ≡ some set = Balanced-current_set shared p r.1 scoped b ∙ here in
        let u = each_token (rounds list) (foreach_round vp set body) list ((o, false), r.1) in
        let inside =
          rounds-Balanced (rounds list) p vp set body list ((o, false), r.1) scoped here b in
        let (after, popped, back) = pop-push_restores shared s u.1 v inside in
        ((kill_last u.0, after), rw (run, now, popped, ◌>>=◌) refl, back.0)

    -- In a state with a current scope, and if the expansions leave the current list and the lists in
    -- use, and change no set but shared ones, as `eval` does where it defines in the global set,
    -- `foreach` returns and does the same: the scope of its variable is gone, and no set that the
    -- expansions leave is changed.
    pub func_foreach-Restored :
        (o var list body : Text) (s : Scopes)
        → IsScoped s
        → Returns (func_foreach o var list body s) (λ r. Restored shared s r.1)
    unfolding func_foreach
    func_foreach-Restored o var list body s v =
        let t = (expand_argument s var).1 in
        let u = (expand_argument t list).1 in
        let b =
          Restored-trans shared s t u (expand_argument-Restored s var)
            (expand_argument-Restored t list) in
        let (r, run, c) =
          scope-Restored o (token (next_token (expand_argument s var).0)) (expand_argument t list).0
            body u (Restored-IsScoped shared s u v b) in
        (r, run, Restored-trans shared s u r.1 b c)
