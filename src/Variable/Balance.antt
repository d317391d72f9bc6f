-- ===== src/Variable/Balance.antt =====
-- Scopes that are pushed and popped in balance, with definitions and undefinitions between.
use make.Text.{Text}
use make.Variable.{Origin, Variable, Definition, define_in, undefine_in, find}
use make.Variable.Scopes.{
  SetList, Scopes, vacant, set_or_global, assign_value, assigned_set, bump, current_set,
  define_variable_in_set, undefine_variable_in_set, define_variable, push_new_variable_scope,
  pop_variable_scope,
}
use make.Prelude.{
  ℕ, ◌≡◌, refl, sym, ap, ◌∙◌, subst, Bool, true, false, not, ◌&&◌, Option, some, ◌>>=◌, Returns,
  arith,
}
use make.Variable.Pushed.{push-Opens}
use make.Variable.Restore.{
  IsScoped, Agrees, Restored, Survives, Agrees-trans, Restored-Agrees, Agrees-Restored,
  Agrees-IsScoped, assign-Agrees,
}

-- What is done in a scope: definitions in its set, values assigned to its variables, definitions and
-- undefinitions in a shared set (the global one for `none`), scopes pushed and popped, and whatever
-- else changes nothing but shared sets.
pub data Balanced (shared : ℕ → Bool) : Scopes → Scopes → Type 0 where
  idle : (s : Scopes) → Balanced shared s s
  defines :
      (s t : Scopes) (d : Definition) (u : Variable × Scopes)
      → Balanced shared s t
      → define_variable d t ≡ some u
      → Balanced shared s u.1
  assigns :
      (s t : Scopes) (name value : Text) (set : ℕ)
      → Balanced shared s t
      → current_set t ≡ some set
      → Balanced shared s (assign_value name value set t)
  defines_in :
      (s t : Scopes) (d : Definition) (set : Option ℕ)
      → Balanced shared s t
      → shared (set_or_global set) ≡ true
      → Balanced shared s (define_variable_in_set d set t).1
  undefines_in :
      (s t : Scopes) (name : Text) (origin : Origin) (set : Option ℕ)
      → Balanced shared s t
      → shared (set_or_global set) ≡ true
      → Balanced shared s (undefine_variable_in_set name origin set t)
  nested :
      (s t u v : Scopes)
      → Balanced shared s t
      → Balanced shared (push_new_variable_scope t) u
      → pop_variable_scope u ≡ some v
      → Balanced shared s v
  elsewhere : (s t u : Scopes) → Balanced shared s t → Restored shared t u → Balanced shared s u

module _ (shared : ℕ → Bool) where
  own_set :
      (s t : Scopes) (v : IsScoped s)
      → Agrees shared ((s.lists v.current).set) s t
      → current_set t ≡ some ((s.lists v.current).set)
  own_set s t v h =
      ap (λ o. o >>= λ l. some ((t.lists l).set)) (h.current ∙ v.is_current)
      ∙ ap (λ (l : SetList). some l.set) (h.lists v.current v.in_use)

  define_in-Agrees :
      (t : Scopes) (d : Definition) (set : Option ℕ)
      → Agrees shared (set_or_global set) t (define_variable_in_set d set t).1
  unfolding define_variable_in_set
  define_in-Agrees t d set =
      let own = set_or_global set in
      assign-Agrees shared own t (define_in t.env_overrides d (t.sets own)).1
        (vacant (find d.name (t.sets own)))

  define-Agrees :
      (t : Scopes) (d : Definition) (u : Variable × Scopes) (own : ℕ)
      → current_set t ≡ some own
      → define_variable d t ≡ some u
      → Agrees shared own t u.1
  unfolding define_variable
  define-Agrees t d u own e f =
      let r = define_variable_in_set d (some own) t in
      let run : define_variable d t ≡ some r =
        ap (λ o. o >>= λ set. some (define_variable_in_set d (some set) t)) e in
      let r=u : r ≡ u = cc in
      subst (λ (x : Variable × Scopes). Agrees shared own t x.1) r=u
        (define_in-Agrees t d (some own))

  undefine_in-Agrees :
      (t : Scopes) (name : Text) (origin : Origin) (set : Option ℕ)
      → Agrees shared (set_or_global set) t (undefine_variable_in_set name origin set t)
  unfolding undefine_variable_in_set
  undefine_in-Agrees t name origin set =
      let own = set_or_global set in
      let left = undefine_in t.env_overrides name origin (t.sets own) in
      assign-Agrees shared own t left
        (not (vacant (find name (t.sets own))) && vacant (find name left))

  assign_value-Agrees :
      (t : Scopes) (name value : Text) (own : ℕ)
      → Agrees shared own t (assign_value name value own t)
  unfolding assign_value bump
  assign_value-Agrees t name value own =
      assign-Agrees shared own t (assigned_set name value (t.sets own)) false

  -- A definition in a shared set, such as those of `eval` in the global one, changes nothing else.
  pub define_variable_in_set-Restored :
      (t : Scopes) (d : Definition) (set : Option ℕ)
      → shared (set_or_global set) ≡ true
      → Restored shared t (define_variable_in_set d set t).1
  define_variable_in_set-Restored t d set allowed =
      Agrees-Restored shared (set_or_global set) t (define_variable_in_set d set t).1 allowed
        (define_in-Agrees t d set)

  undefine_variable_in_set-Restored :
      (t : Scopes) (name : Text) (origin : Origin) (set : Option ℕ)
      → shared (set_or_global set) ≡ true
      → Restored shared t (undefine_variable_in_set name origin set t)
  undefine_variable_in_set-Restored t name origin set allowed =
      Agrees-Restored shared (set_or_global set) t (undefine_variable_in_set name origin set t)
        allowed (undefine_in-Agrees t name origin set)

  -- What changes only shared sets goes with the own set as well.
  then_Restored :
      (own : ℕ) (s t u : Scopes)
      → Agrees shared own s t
      → Restored shared t u
      → Agrees shared own s u
  then_Restored own s t u h k = Agrees-trans shared own s t u h (Restored-Agrees shared own t u k)

  Balanced-Agrees :
      (s t : Scopes) (v : IsScoped s)
      → Balanced shared s t
      → Agrees shared ((s.lists v.current).set) s t
  Balanced-Agrees _ _ v (idle s) = record {
    current = refl;
    lists = λ a lt. refl;
    sets = λ a lt e other. refl;
    fresh = omega arith;
  }
  Balanced-Agrees _ _ v (defines s t d u b e) =
      let own = (s.lists v.current).set in
      let h = Balanced-Agrees s t v b in
      Agrees-trans shared own s t u.1 h (define-Agrees t d u own (own_set s t v h) e)
  Balanced-Agrees _ _ v (assigns s t name value set b e) =
      let own = (s.lists v.current).set in
      let h = Balanced-Agrees s t v b in
      let same : some set ≡ some own = sym e ∙ own_set s t v h in
      let set=own : set ≡ own = cc in
      subst (λ a. Agrees shared own s (assign_value name value a t)) (sym set=own)
        (Agrees-trans shared own s t (assign_value name value own t) h
          (assign_value-Agrees t name value own))
  Balanced-Agrees _ _ v (defines_in s t d set b allowed) =
      then_Restored ((s.lists v.current).set) s t (define_variable_in_set d set t).1
        (Balanced-Agrees s t v b) (define_variable_in_set-Restored t d set allowed)
  Balanced-Agrees _ _ v (undefines_in s t name origin set b allowed) =
      then_Restored ((s.lists v.current).set) s t (undefine_variable_in_set name origin set t)
        (Balanced-Agrees s t v b) (undefine_variable_in_set-Restored t name origin set allowed)
  Balanced-Agrees _ _ v (nested s t u w b inner e) =
      let own = (s.lists v.current).set in
      let h = Balanced-Agrees s t v b in
      let o = push-Opens shared t (Agrees-IsScoped shared own s t v h) in
      let (x, run, back) =
        o.pops u (Balanced-Agrees (push_new_variable_scope t) u o.scoped inner) in
      let x=w : x ≡ w = cc in then_Restored own s t w h (subst (Restored shared t) x=w back.0)
  Balanced-Agrees _ _ v (elsewhere s t u b r) =
      then_Restored ((s.lists v.current).set) s t u (Balanced-Agrees s t v b) r

  -- In a state with a current scope, where no link leads from the global list to a parent: if nothing
  -- is done in a pushed scope but definitions and assignments in its own set, definitions and
  -- undefinitions in shared sets, as `eval` makes them in the global set, other changes of nothing but
  -- shared sets, and scopes pushed and popped inside it, then the pop succeeds. The current list is
  -- the one before the push, every list that was in use then is as it was, and so is every set but
  -- for the shared ones. The pop itself changes no set that was in use, so that what was done in the
  -- shared ones lasts. All this also where the scope is pushed on the global one.
  pub pop-push_restores :
      (s t : Scopes)
      → IsScoped s
      → Balanced shared (push_new_variable_scope s) t
      → Returns (pop_variable_scope t) (λ u. Restored shared s u × Survives s t u)
  pop-push_restores s t v b =
      let o = push-Opens shared s v in
      o.pops t (Balanced-Agrees (push_new_variable_scope s) t o.scoped b)

  pub Restored-IsScoped : (s t : Scopes) → IsScoped s → Restored shared s t → IsScoped t
  Restored-IsScoped s t v r =
      let own = (s.lists v.current).set in
      Agrees-IsScoped shared own s t v (Restored-Agrees shared own s t r)

  pub Balanced-IsScoped : (s t : Scopes) → IsScoped s → Balanced shared s t → IsScoped t
  Balanced-IsScoped s t v b =
      Agrees-IsScoped shared ((s.lists v.current).set) s t v (Balanced-Agrees s t v b)

  -- The set that definitions go into stays the same.
  pub Balanced-current_set :
      (s t : Scopes) → IsScoped s → Balanced shared s t → current_set t ≡ current_set s
  Balanced-current_set s t v b =
      own_set s t v (Balanced-Agrees s t v b) ∙ sym (own_set s s v (Balanced-Agrees s s v (idle s)))

  pub IsScoped-current_set :
      (s : Scopes) (v : IsScoped s) → current_set s ≡ some ((s.lists v.current).set)
  IsScoped-current_set s v = own_set s s v (Balanced-Agrees s s v (idle s))

  pub define_variable-Balanced :
      (s : Scopes) (d : Definition)
      → IsScoped s
      → Returns (define_variable d s) (λ u. Balanced shared s u.1)
  unfolding define_variable
  define_variable-Balanced s d v =
      let set = (s.lists v.current).set in
      let u = define_variable_in_set d (some set) s in
      let run : define_variable d s ≡ some u =
        ap (λ o. o >>= λ a. some (define_variable_in_set d (some a) s))
          (IsScoped-current_set s v) in
      (u, run, defines s s d u (idle s) run)

  pub Balanced-trans :
      (s t u : Scopes) → Balanced shared s t → Balanced shared t u → Balanced shared s u
  Balanced-trans _ _ _ b (idle t) = b
  Balanced-trans s _ _ b (defines t u d r c e) = defines s u d r (Balanced-trans s t u b c) e
  Balanced-trans s _ _ b (assigns t u name value set c e) =
      assigns s u name value set (Balanced-trans s t u b c) e
  Balanced-trans s _ _ b (defines_in t u d set c e) =
      defines_in s u d set (Balanced-trans s t u b c) e
  Balanced-trans s _ _ b (undefines_in t u name origin set c e) =
      undefines_in s u name origin set (Balanced-trans s t u b c) e
  Balanced-trans s _ _ b (nested t u w x c inner e) =
      nested s u w x (Balanced-trans s t u b c) inner e
  Balanced-trans s _ _ b (elsewhere t u w c r) = elsewhere s u w (Balanced-trans s t u b c) r
