-- ===== src/Variable/Strongest.antt =====
-- Definitions of a variable one after the other, and which of them counts.
use make.Text.Equal.{streq-eq}
use make.Text.{Text, streq}
use make.Variable.Sets.{find-define_in}
use make.Variable.{
  Origin, o_default, o_env, o_file, o_env_override, o_command, o_override, o_automatic, o_invalid,
  int, Variable, Definition, find, raise, new_variable, redefine, defined_variable, define_in,
}
use make.Prelude.{
  ℕ, ◌≤◌, ◌<◌, ◌≡◌, refl, sym, ap, ◌∙◌, subst, Bool, true, false, Option, none, some, List, [], ◌∷◌,
  ◌++◌, append_assoc, append-nil, leb, if◌then◌else◌, inl, inr, Bool-cases, arith,
}

-- The definitions are made in the set, the first one first.
unfoldable pub define_all : Bool → List Definition → List Variable → List Variable
unfolding define_in
define_all env_overrides [] set = set
define_all env_overrides (d ∷ ds) set =
    define_all env_overrides ds (define_in env_overrides d set).1

-- How strong the source of a definition is.
abbrev pub strength : Bool → Definition → ℕ
strength env_overrides d = int (raise env_overrides d.origin)

-- No definition of the name is stronger.
abbrev pub NoneAbove : Bool → Text → ℕ → List Definition → Type 0
NoneAbove env_overrides name n [] = Unit
NoneAbove env_overrides name n (d ∷ ds) =
    (streq d.name name ≡ true → strength env_overrides d ≤ n) × NoneAbove env_overrides name n ds

-- All definitions of the name are weaker.
abbrev pub AllBelow : Bool → Text → ℕ → List Definition → Type 0
AllBelow env_overrides name n [] = Unit
AllBelow env_overrides name n (d ∷ ds) =
    (streq d.name name ≡ true → strength env_overrides d < n) × AllBelow env_overrides name n ds

abbrev pub NoDefinition : Text → List Definition → Type 0
NoDefinition name [] = Unit
NoDefinition name (d ∷ ds) = (streq d.name name ≡ false) × NoDefinition name ds

-- The variable is what the last one of the strongest definitions of the name says.
abbrev pub IsStrongest : Bool → Text → List Definition → Option Variable → Type 0
IsStrongest env_overrides name ds none = NoDefinition name ds
IsStrongest env_overrides name ds (some v) =
    (xs : List Definition) × (d : Definition) × (ys : List Definition) × (ds ≡ xs ++ d ∷ ys)
    × (d.name ≡ name)
    × (v.value ≡ d.value)
    × (v.recursive ≡ d.recursive)
    × (v.origin ≡ raise env_overrides d.origin)
    × NoneAbove env_overrides name (strength env_overrides d) xs
    × AllBelow env_overrides name (strength env_overrides d) ys

raise-raise :
    (env_overrides : Bool) (o : Origin)
    → raise env_overrides (raise env_overrides o) ≡ raise env_overrides o
unfolding raise
raise-raise false o = refl
raise-raise true o_env = refl
raise-raise true o_default = refl
raise-raise true o_file = refl
raise-raise true o_env_override = refl
raise-raise true o_command = refl
raise-raise true o_override = refl
raise-raise true o_automatic = refl
raise-raise true o_invalid = refl

snoc-NoDefinition :
    (name : Text) (ds : List Definition) (d : Definition)
    → NoDefinition name ds
    → streq d.name name ≡ false
    → NoDefinition name (ds ++ d ∷ [])
snoc-NoDefinition name [] d h k = (k, tt)
snoc-NoDefinition name (e ∷ ds) d (n, h) k = (n, snoc-NoDefinition name ds d h k)

module _ (env_overrides : Bool) (name : Text) where
  NoDefinition-NoneAbove :
      (n : ℕ) (ds : List Definition) → NoDefinition name ds → NoneAbove env_overrides name n ds
  NoDefinition-NoneAbove n [] h = tt
  NoDefinition-NoneAbove n (d ∷ ds) (other, h) = (λ same. absurd cc, NoDefinition-NoneAbove n ds h)

  NoneAbove-mono :
      (m n : ℕ) (ds : List Definition)
      → m ≤ n
      → NoneAbove env_overrides name m ds
      → NoneAbove env_overrides name n ds
  NoneAbove-mono m n [] le h = tt
  NoneAbove-mono m n (d ∷ ds) le (k, h) =
      (λ e. let b = k e in omega arith, NoneAbove-mono m n ds le h)

  AllBelow-NoneAbove :
      (m n : ℕ) (ds : List Definition)
      → m ≤ n
      → AllBelow env_overrides name m ds
      → NoneAbove env_overrides name n ds
  AllBelow-NoneAbove m n [] le h = tt
  AllBelow-NoneAbove m n (d ∷ ds) le (k, h) =
      (λ e. let b = k e in omega arith, AllBelow-NoneAbove m n ds le h)

  append-NoneAbove :
      (n : ℕ) (xs ys : List Definition)
      → NoneAbove env_overrides name n xs
      → NoneAbove env_overrides name n ys
      → NoneAbove env_overrides name n (xs ++ ys)
  append-NoneAbove n [] ys h k = k
  append-NoneAbove n (x ∷ xs) ys (b, h) k = (b, append-NoneAbove n xs ys h k)

  snoc-AllBelow :
      (n : ℕ) (ys : List Definition) (d : Definition)
      → AllBelow env_overrides name n ys
      → (streq d.name name ≡ true → strength env_overrides d < n)
      → AllBelow env_overrides name n (ys ++ d ∷ [])
  snoc-AllBelow n [] d h k = (k, tt)
  snoc-AllBelow n (y ∷ ys) d (b, h) k = (b, snoc-AllBelow n ys d h k)

  -- The set after one more definition.
  step :
      (past : List Definition) (d : Definition) (o : Option Variable)
      → IsStrongest env_overrides name past o
      → IsStrongest env_overrides name
          (past ++ d ∷ [])
          (if streq d.name name then some (defined_variable env_overrides d o) else o)
  unfolding defined_variable redefine new_variable
  step past d none h = elim (Bool-cases (streq d.name name)) [
    | inl e ↦ rw e (
      past,
      d,
      [],
      refl,
      streq-eq d.name name e,
      refl,
      refl,
      refl,
      NoDefinition-NoneAbove (strength env_overrides d) past h,
      tt,
    )
    | inr e ↦ rw e (snoc-NoDefinition name past d h e)
  ]
  step past d (some v) (xs, best, ys, split, same, value, recursive, origin, before, after) =
      let whole : past ++ d ∷ [] ≡ xs ++ best ∷ (ys ++ d ∷ []) =
        ap (λ l. l ++ d ∷ []) split ∙ append_assoc xs (best ∷ ys) (d ∷ []) in
      let rank : int (raise env_overrides v.origin) ≡ strength env_overrides best =
        ap (λ o. int (raise env_overrides o)) origin
        ∙ ap int (raise-raise env_overrides best.origin) in
      elim (Bool-cases (streq d.name name)) [
        | inl e ↦
            elim (Bool-cases
              (leb (int (raise env_overrides v.origin)) (strength env_overrides d))) [
                | inl wins ↦
                    let le : strength env_overrides best ≤ strength env_overrides d =
                      ground arith in
                    let above =
                      append-NoneAbove (strength env_overrides d) xs (best ∷ ys)
                        (NoneAbove-mono (strength env_overrides best) (strength env_overrides d) xs
                          le before)
                        (
                          λ same. le,
                          AllBelow-NoneAbove (strength env_overrides best)
                              (strength env_overrides d) ys le after,
                        ) in
                    rw (e, wins)
                      (
                        past,
                        d,
                        [],
                        refl,
                        streq-eq d.name name e,
                        refl,
                        refl,
                        refl,
                        subst (NoneAbove env_overrides name (strength env_overrides d)) (sym split)
                            above,
                        tt,
                      )
                | inr loses ↦
                    let lt : strength env_overrides d < strength env_overrides best =
                      ground arith in
                    let raised =
                      ap (raise env_overrides) origin ∙ raise-raise env_overrides best.origin in
                    rw (e, loses)
                      (
                        xs,
                        best,
                        ys ++ d ∷ [],
                        whole,
                        same,
                        value,
                        recursive,
                        raised,
                        before,
                        snoc-AllBelow (strength env_overrides best) ys d after (λ e. lt),
                      )
              ]
        | inr e ↦ rw e (
          xs,
          best,
          ys ++ d ∷ [],
          whole,
          same,
          value,
          recursive,
          origin,
          before,
          snoc-AllBelow (strength env_overrides best) ys d after (λ e'. absurd cc),
        )
      ]

  found :
      (d : Definition) (set : List Variable)
      → find name (define_in env_overrides d set).1 ≡ (
          if streq d.name name
          then some (defined_variable env_overrides d (find name set))
          else find name set)
  found d set = find-define_in env_overrides d set name ∙ elim (Bool-cases (streq d.name name)) [
    | inl e ↦ rw (e, streq-eq d.name name e) refl
    | inr e ↦ rw e refl
  ]

  all :
      (past ds : List Definition) (set : List Variable)
      → IsStrongest env_overrides name past (find name set)
      → IsStrongest env_overrides name (past ++ ds) (find name (define_all env_overrides ds set))
  unfolding define_all
  all past [] set h =
      subst (λ l. IsStrongest env_overrides name l (find name set)) (sym (append-nil past)) h
  all past (d ∷ ds) set h =
      subst
        (λ l.
          IsStrongest env_overrides name l
            (find name (define_all env_overrides ds (define_in env_overrides d set).1)))
        (append_assoc past (d ∷ []) ds)
        (all (past ++ d ∷ []) ds (define_in env_overrides d set).1 (
          subst (IsStrongest env_overrides name (past ++ d ∷ [])) (sym (found d set))
            (step past d (find name set) h)))

-- After definitions in a set that was empty, a name has the value, the recursive flag and the
-- origin of the last one among its strongest definitions, where `-e` makes those of the environment
-- stronger than those of makefiles; a name that is not defined is not found.
pub define_all-IsStrongest :
    (env_overrides : Bool) (ds : List Definition) (name : Text)
    → IsStrongest env_overrides name ds (find name (define_all env_overrides ds []))
unfolding find
define_all-IsStrongest env_overrides ds name = all env_overrides name [] ds [] tt
