-- ===== src/Function/Let.antt =====
-- src/function.c: `func_let`. Writing through a null pointer is `none`.
use make.Function.Foreach.{automatic}
use make.Variable.Scopes.{Scopes, define_variable, push_new_variable_scope, pop_variable_scope}
use make.Variable.Parse.Passed.{AllSpace}
use make.Text.{Text, next_token, find_next_token, cut_token, rounds}
use make.Prelude.{ℕ, zero, suc, ◌≡◌, refl, ap, Option, none, some, [], ◌∷◌, ◌++◌, ◌>>=◌}

-- `find_next_token (&list_iterator, &len)`, whose result is the first argument, and what is done
-- with it: the value and the new `list_iterator`.
unfoldable pub let_value : Option (Text × Text) → Text → Option (Text × Text)
let_value (some (p, [])) list = some (p, [])
let_value (some (p, c ∷ rest)) list = some (p, rest)
let_value none [] = some ([], [])
let_value none (c ∷ list) = none

-- `vp = find_next_token (&vp_next, &vlen); NEXT_TOKEN (vp_next);`
unfoldable pub next_name : Option (Text × Text) → Text → Option Text × Text
next_name none vp_next = (none, next_token vp_next)
next_name (some (vp, rest)) vp_next = (some vp, next_token rest)

-- The `while` loop; the fuel runs out in no run.
unfoldable pub let_loop :
    ℕ → Option Text × Text → Text → Scopes → Option ((Option Text × Text) × Scopes)
unfolding let_value next_name
let_loop zero names list s = none
let_loop (suc fuel) (vp, []) list s = some ((vp, list), s)
let_loop (suc fuel) (none, c ∷ vp_next) list s = none
let_loop (suc fuel) (some vp, c ∷ vp_next) list s =
    let_value (find_next_token list) list >>= λ (value, rest).
    define_variable (automatic vp value) s >>= λ (v, t).
    let_loop fuel (next_name (find_next_token (c ∷ vp_next)) (c ∷ vp_next)) rest t

-- `if (vp) define_variable (vp, vlen, next_token (list_iterator), o_automatic, 0);`
unfoldable pub let_last : Option Text → Text → Scopes → Option Scopes
let_last none list s = some s
let_last (some vp) list s = define_variable (automatic vp (next_token list)) s >>= λ (v, t). some t

module _ (expand_argument expand : Scopes → Text → Text × Scopes) where
  -- From `push_new_variable_scope` on.
  unfoldable pub let_scope : Text → Text → Text → Text → Scopes → Option (Text × Scopes)
  unfolding let_loop let_last
  let_scope o varnames list body s =
      let_loop (rounds varnames) (next_name (find_next_token varnames) varnames) list
        (push_new_variable_scope s)
      >>= λ ((vp, rest), t). let_last vp rest t >>= λ u.
          let (result, v) = expand u body in pop_variable_scope v >>= λ w. some (o ++ result, w)

  unfoldable pub func_let : Text → Text → Text → Text → Scopes → Option (Text × Scopes)
  unfolding let_scope
  func_let o vars list body s =
      let (varnames, t) = expand_argument s vars in
      let (words, u) = expand_argument t list in let_scope o varnames words body u

next_token_blank : (t : Text) → AllSpace t → next_token t ≡ []
unfolding next_token
next_token_blank [] h = refl
next_token_blank (c ∷ t) (e, h) = rw e (next_token_blank t h)

loop_blank :
    (fuel : ℕ) (vp : Text) (d : ℕ) (more : Text) (c : ℕ) (spaces : Text) (s : Scopes)
    → AllSpace (c ∷ spaces)
    → let_loop fuel (some vp, d ∷ more) (c ∷ spaces) s ≡ none
unfolding let_loop find_next_token cut_token
loop_blank zero vp d more c spaces s h = refl
loop_blank (suc fuel) vp d more c spaces s h =
    let blank : cut_token (next_token (c ∷ spaces)) ≡ none =
      ap cut_token (next_token_blank (c ∷ spaces) h) in
    rw (blank, let_value) refl

-- A list that is not empty and has no word makes `let` write through a null pointer, if a name
-- follows the first one.
pub func_let_blank :
    (expand_argument expand : Scopes → Text → Text × Scopes) (o vars list body : Text) (s : Scopes)
    (vp : Text) (d : ℕ) (more : Text) (c : ℕ) (spaces : Text)
    → next_name (find_next_token (expand_argument s vars).0) (expand_argument s vars).0
      ≡ (some vp, d ∷ more)
    → (expand_argument (expand_argument s vars).1 list).0 ≡ c ∷ spaces
    → AllSpace (c ∷ spaces)
    → func_let expand_argument expand o vars list body s ≡ none
unfolding func_let let_scope
func_let_blank expand_argument expand o vars list body s vp d more c spaces names blank h =
    let varnames = (expand_argument s vars).0 in
    let u = (expand_argument (expand_argument s vars).1 list).1 in
    rw (names, blank, loop_blank (rounds varnames) vp d more c spaces (push_new_variable_scope u) h)
      refl
