-- ===== src/Function/Trimmed.antt =====
-- `func_let` on lists that do not end in a space.
use make.Function.Foreach.{automatic}
use make.Function.Let.{let_value, next_name, let_loop, let_last, let_scope, func_let}
use make.Variable.Balance.{
  Balanced, idle, elsewhere, Balanced-IsScoped, Balanced-trans, Restored-IsScoped,
  define_variable-Balanced, pop-push_restores,
}
use make.Variable.Pushed.{push-Opens}
use make.Variable.Restore.{IsScoped, Restored, Restored-trans}
use make.Variable.Scopes.{Scopes, push_new_variable_scope}
use make.Text.Words.{rounds_pos, next_token-le, next_token_head, end_of_token-lt}
use make.Text.{Text, is_space, next_token, end_of_token, find_next_token, cut_token, token, rounds}
use make.Prelude.{
  ℕ, zero, suc, ◌≤◌, ◌<◌, ◌≡◌, refl, ap, Bool, false, Option, none, some, [], ◌∷◌, ◌++◌, ◌>>=◌,
  Returns, inl, inr, Bool-cases, arith,
}

-- The text is empty or its last byte is no space.
abbrev pub IsTrimmed : Text → Type 0
IsTrimmed [] = Unit
IsTrimmed (c ∷ []) = is_space c ≡ false
IsTrimmed (c ∷ d ∷ t) = IsTrimmed (d ∷ t)

rest-IsTrimmed : (c : ℕ) (t : Text) → IsTrimmed (c ∷ t) → IsTrimmed t
rest-IsTrimmed c [] h = tt
rest-IsTrimmed c (d ∷ t) h = h

next_token-IsTrimmed : (t : Text) → IsTrimmed t → IsTrimmed (next_token t)
unfolding next_token
next_token-IsTrimmed [] h = tt
next_token-IsTrimmed (c ∷ t) h = elim (Bool-cases (is_space c)) [
  | inl e ↦ rw e (next_token-IsTrimmed t (rest-IsTrimmed c t h))
  | inr e ↦ rw e h
]

end_of_token-IsTrimmed : (t : Text) → IsTrimmed t → IsTrimmed (end_of_token t)
unfolding end_of_token
end_of_token-IsTrimmed [] h = tt
end_of_token-IsTrimmed (c ∷ t) h = elim (Bool-cases (is_space c)) [
  | inl e ↦ rw e h
  | inr e ↦ rw e (end_of_token-IsTrimmed t (rest-IsTrimmed c t h))
]

-- A trimmed text without words is empty.
next_token_empty : (t : Text) → IsTrimmed t → next_token t ≡ [] → t ≡ []
unfolding next_token
next_token_empty [] h e = refl
next_token_empty (c ∷ []) h e = let no_space : c ∷ [] ≡ [] = rw h at e in no_space
next_token_empty (c ∷ d ∷ t) h e = elim (Bool-cases (is_space c)) [
  | inl space ↦
      let later : next_token (d ∷ t) ≡ [] = rw space at e in
      let none_left = next_token_empty (d ∷ t) h later in absurd cc
  | inr word ↦ let now : c ∷ d ∷ t ≡ [] = rw word at e in now
]

let_value-IsTrimmed :
    (list : Text)
    → IsTrimmed list
    → Returns (let_value (find_next_token list) list) (λ r. IsTrimmed r.1)
unfolding find_next_token cut_token let_value
let_value-IsTrimmed list h = go (next_token list) refl (next_token-IsTrimmed list h)
  where
    split :
        (p rest : Text)
        → IsTrimmed rest
        → Returns (let_value (some (p, rest)) list) (λ r. IsTrimmed r.1)
    split p [] k = ((p, []), refl, tt)
    split p (c ∷ rest) k = ((p, rest), refl, rest-IsTrimmed c rest k)

    go :
        (t : Text)
        → next_token list ≡ t
        → IsTrimmed t
        → Returns (let_value (cut_token t) list) (λ r. IsTrimmed r.1)
    go [] e k =
        let empty : list ≡ [] = next_token_empty list h e in
        (([], []), ap (let_value none) empty, tt)
    go (c ∷ t) e k = split (token (c ∷ t)) (end_of_token (c ∷ t)) (end_of_token-IsTrimmed (c ∷ t) k)

-- More names are there only behind a name, and start with one.
abbrev AreNames : Option Text × Text → Type 0
AreNames (vp, []) = Unit
AreNames (none, c ∷ t) = ⊥
AreNames (some vp, c ∷ t) = is_space c ≡ false

names-start : (vp t : Text) → AreNames (some vp, next_token t)
names-start vp t = go (next_token t) refl
  where
    go : (r : Text) → next_token t ≡ r → AreNames (some vp, r)
    go [] e = tt
    go (c ∷ r) e = next_token_head t c r e

next_name-AreNames : (t : Text) → AreNames (next_name (find_next_token t) t)
unfolding find_next_token cut_token next_name
next_name-AreNames t = go (next_token t) refl
  where
    go : (r : Text) → next_token t ≡ r → AreNames (next_name (cut_token r) t)
    go [] e = rw e tt
    go (c ∷ r) e = names-start (token (c ∷ r)) (end_of_token (c ∷ r))

next_name-lt :
    (c : ℕ) (t : Text)
    → is_space c ≡ false
    → rounds (next_name (find_next_token (c ∷ t)) (c ∷ t)).1 < rounds (c ∷ t)
unfolding find_next_token cut_token next_name next_token
next_name-lt c t h =
    rw h (omega (arith, end_of_token-lt c t h, next_token-le (end_of_token (c ∷ t))))

-- The loop over the names ends, and its definitions are in the scope.
loop-Balanced :
    (shared : ℕ → Bool) (fuel : ℕ) (names : Option Text × Text) (list : Text) (s t : Scopes)
    → IsScoped s
    → Balanced shared s t
    → AreNames names
    → rounds names.1 ≤ fuel
    → IsTrimmed list
    → Returns (let_loop fuel names list t) (λ r. Balanced shared s r.1)
unfolding let_loop
loop-Balanced shared zero (vp, next) list s t v b n h k = absurd (omega (arith, rounds_pos next))
loop-Balanced shared (suc fuel) (vp, []) list s t v b n h k = (((vp, list), t), refl, b)
loop-Balanced shared (suc fuel) (none, c ∷ next) list s t v b n h k = absurd n
loop-Balanced shared (suc fuel) (some vp, c ∷ next) list s t v b n h k =
    let ((value, rest), run, trimmed) = let_value-IsTrimmed list k in
    let (r, defined, inner) =
      define_variable-Balanced shared t (automatic vp value) (Balanced-IsScoped shared s t v b) in
    let (x, more, after) =
      loop-Balanced shared fuel (next_name (find_next_token (c ∷ next)) (c ∷ next)) rest s r.1 v
        (Balanced-trans shared s t r.1 b inner) (next_name-AreNames (c ∷ next))
        (omega (arith, next_name-lt c next n)) trimmed in
    (x, rw (run, defined, ◌>>=◌) more, after)

last-Balanced :
    (shared : ℕ → Bool) (vp : Option Text) (list : Text) (s t : Scopes)
    → IsScoped s
    → Balanced shared s t
    → Returns (let_last vp list t) (λ u. Balanced shared s u)
unfolding let_last
last-Balanced shared none list s t v b = (t, refl, b)
last-Balanced shared (some vp) list s t v b =
    let (r, run, inner) =
      define_variable-Balanced shared t (automatic vp (next_token list))
        (Balanced-IsScoped shared s t v b) in
    (r.1, rw (run, ◌>>=◌) refl, Balanced-trans shared s t r.1 b inner)

next_name-le : (t : Text) → rounds (next_name (find_next_token t) t).1 ≤ rounds t
unfolding find_next_token cut_token next_name
next_name-le t = go (next_token t) refl
  where
    go : (r : Text) → next_token t ≡ r → rounds (next_name (cut_token r) t).1 ≤ rounds t
    go [] e = rw e (rounds_pos t)
    go (c ∷ r) e = omega (
      arith,
      next_token-le (end_of_token (c ∷ r)),
      next_token-le t,
      ap rounds e,
      end_of_token-lt c r (next_token_head t c r e),
    )

-- In a state with a current scope, if the expansions leave the current list and the lists in use,
-- and change no set but shared ones, and the expanded list is empty or does not end in a space, `let`
-- returns and does the same: the scope of its variables is gone, and no set that the expansions
-- leave is changed.
pub func_let-Restored :
    (shared : ℕ → Bool) (expand_argument expand : Scopes → Text → Text × Scopes)
    → ((s : Scopes) (text : Text) → Restored shared s (expand_argument s text).1)
    → ((s : Scopes) (text : Text) → Restored shared s (expand s text).1)
    → (o vars list body : Text) (s : Scopes) → IsScoped s
    → IsTrimmed (expand_argument (expand_argument s vars).1 list).0
    → Returns (func_let expand_argument expand o vars list body s) (λ r. Restored shared s r.1)
unfolding func_let let_scope
func_let-Restored shared expand_argument expand e_a e o vars list body s v trimmed =
    let t = (expand_argument s vars).1 in
    let varnames = (expand_argument s vars).0 in
    let u = (expand_argument t list).1 in
    let words = (expand_argument t list).0 in
    let b = Restored-trans shared s t u (e_a s vars) (e_a t list) in
    let w = Restored-IsScoped shared s u v b in
    let p = push_new_variable_scope u in
    let scoped = (push-Opens shared u w).scoped in
    let (x, looped, inside) =
      loop-Balanced shared (rounds varnames) (next_name (find_next_token varnames) varnames) words p
        p scoped (idle p) (next_name-AreNames varnames) (next_name-le varnames) trimmed in
    let (y, lasted, inner) = last-Balanced shared x.0.0 x.0.1 p x.1 scoped inside in
    let z = (expand y body).1 in
    let (after, popped, back) = pop-push_restores shared u z w (elsewhere p y z inner (e y body)) in
    (
      (o ++ (expand y body).0, after),
      rw (looped, lasted, popped, ◌>>=◌) refl,
      Restored-trans shared s u after b back.0,
    )
