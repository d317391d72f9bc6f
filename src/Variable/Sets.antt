-- ===== src/Variable/Sets.antt =====
-- What a variable set answers after a definition, an undefinition and a merge.
use make.Text.Equal.{streq-eq, streq_other}
use make.Text.{Text, streq}
use make.Variable.{
  Origin, Variable, Definition, find, replace, remove, raise, new_variable, redefine,
  defined_variable, define_in, undefined, put_or_remove, undefine_slot, undefine_in, merge_slot,
  merge_loop, int,
}
use make.Prelude.{
  ℕ, ◌≡◌, refl, sym, ap, ◌∙◌, Bool, true, false, Option, none, some, List, [], ◌∷◌, leb,
  if◌then◌else◌, ◌>>=◌, inl, inr, Bool-cases,
}

find-replace :
    (k j : Text) (w : Variable) (vs : List Variable)
    → w.name ≡ k
    → find j (replace k w vs) ≡ (if streq k j then some w else find j vs)
unfolding find replace
find-replace k j w [] e = rw e refl
find-replace k j w (v ∷ vs) e = elim (Bool-cases (streq v.name k)) [
  | inl same ↦
      let name = streq-eq v.name k same in
      elim (Bool-cases (streq k j)) [
        | inl hit ↦ rw (same, e, hit) refl
        | inr miss ↦ rw (same, e, miss, name, miss) refl
      ]
  | inr other ↦ elim (Bool-cases (streq v.name j)) [
    | inl hit ↦ let differ = streq_other v.name k j other hit in rw (other, hit, differ) refl
    | inr miss ↦ rw (other, miss) (find-replace k j w vs e)
  ]
]

find-remove :
    (k j : Text) (vs : List Variable)
    → find j (remove k vs) ≡ (if streq k j then none else find j vs)
unfolding find remove
find-remove k j [] = elim (Bool-cases (streq k j)) [ inl e ↦ rw e refl | inr e ↦ rw e refl ]
find-remove k j (v ∷ vs) = elim (Bool-cases (streq v.name k)) [
  | inl same ↦
      let name = streq-eq v.name k same in
      elim (Bool-cases (streq k j)) [
        | inl hit ↦
            rw (same, hit) (find-remove k j vs ∙ ap (λ b. if b then none else find j vs) hit)
        | inr miss ↦
            rw (same, miss, name, miss)
              (find-remove k j vs ∙ ap (λ b. if b then none else find j vs) miss)
      ]
  | inr other ↦ elim (Bool-cases (streq v.name j)) [
    | inl hit ↦ let differ = streq_other v.name k j other hit in rw (other, hit, differ) refl
    | inr miss ↦ rw (other, miss) (find-remove k j vs)
  ]
]

find-name : (k : Text) (vs : List Variable) (v : Variable) → find k vs ≡ some v → v.name ≡ k
unfolding find
find-name k [] v e = absurd cc
find-name k (u ∷ vs) v e = elim (Bool-cases (streq u.name k)) [
  | inl same ↦
      let hit : some u ≡ some v = rw same at e in
      let u=v : u ≡ v = cc in ap (λ w. w.name) (sym u=v) ∙ streq-eq u.name k same
  | inr other ↦ let later : find k vs ≡ some v = rw other at e in find-name k vs v later
]

defined_variable-name :
    (env_overrides : Bool) (d : Definition) (o : Option Variable)
    → ((v : Variable) → o ≡ some v → v.name ≡ d.name)
    → (defined_variable env_overrides d o).name ≡ d.name
unfolding defined_variable new_variable redefine
defined_variable-name env_overrides d none h = refl
defined_variable-name env_overrides d (some v) h =
    elim (Bool-cases
      (leb (int (raise env_overrides v.origin)) (int (raise env_overrides d.origin)))) [
        | inl e ↦ rw e (h v refl)
        | inr e ↦ rw e (h v refl)
      ]

-- A definition decides what its own name finds, from what the name found before, and leaves the other
-- names as they are.
pub find-define_in :
    (env_overrides : Bool) (d : Definition) (set : List Variable) (j : Text)
    → find j (define_in env_overrides d set).1 ≡ (
        if streq d.name j
        then some (defined_variable env_overrides d (find d.name set))
        else find j set)
unfolding define_in
find-define_in env_overrides d set j =
    find-replace d.name j (defined_variable env_overrides d (find d.name set)) set
      (defined_variable-name env_overrides d (find d.name set) (find-name d.name set))

undefined-name :
    (env_overrides : Bool) (origin : Origin) (v w : Variable)
    → undefined env_overrides origin v ≡ some w
    → w.name ≡ v.name
unfolding undefined
undefined-name env_overrides origin v w e =
    elim (Bool-cases
      (leb (int (raise env_overrides v.origin)) (int (raise env_overrides origin)))) [
        | inl h ↦ let no : none ≡ some w = rw h at e in absurd cc
        | inr h ↦
            let yes : some (record v { origin = raise env_overrides v.origin }) ≡ some w =
              rw h at e in
            let same : record v { origin = raise env_overrides v.origin } ≡ w = cc in
            sym (ap (λ (u : Variable). u.name) same)
      ]

-- An undefinition deletes the variable if its source is as strong as that of the variable, where a
-- variable of the environment counts as overriding with `-e`; the other names find what they did.
find-undefine_in :
    (env_overrides : Bool) (name : Text) (origin : Origin) (set : List Variable) (j : Text)
    → find j (undefine_in env_overrides name origin set)
      ≡ (if streq name j then find name set >>= undefined env_overrides origin else find j set)
unfolding undefine_in undefine_slot put_or_remove
find-undefine_in env_overrides name origin set j = go (find name set) refl
  where
    go :
        (o : Option Variable)
        → find name set ≡ o
        → find j (undefine_slot env_overrides name origin o set)
          ≡ (if streq name j then o >>= undefined env_overrides origin else find j set)
    go none e = elim (Bool-cases (streq name j)) [
      | inl hit ↦ rw hit (ap (λ t. find t set) (sym (streq-eq name j hit)) ∙ e)
      | inr miss ↦ rw miss refl
    ]
    go (some v) e = put (undefined env_overrides origin v) refl
      where
        put :
            (r : Option Variable)
            → undefined env_overrides origin v ≡ r
            → find j (put_or_remove name r set) ≡ (if streq name j then r else find j set)
        put none f = find-remove name j set
        put (some w) f =
            find-replace name j w set
              (undefined-name env_overrides origin v w f ∙ find-name name set v e)

-- `a`, or `b` where there is none.
abbrev pub or_else {ℓ} : {A : Type ℓ} → Option A → Option A → Option A
or_else none b = b
or_else (some a) b = some a

or_else-none : (a : Option Variable) → a ≡ or_else a none
or_else-none none = refl
or_else-none (some v) = refl

or_else_assoc : (a b c : Option Variable) → or_else (or_else a b) c ≡ or_else a (or_else b c)
or_else_assoc none b c = refl
or_else_assoc (some v) b c = refl

or_else-if :
    (b : Bool) (v : Variable) (o : Option Variable)
    → or_else (if b then some v else none) o ≡ (if b then some v else o)
or_else-if true v o = refl
or_else-if false v o = refl

-- What the variable of a slot adds.
find-merge_slot :
    (inc n : ℕ) (to_set : List Variable) (v : Variable) (j : Text)
    → find j (merge_slot inc (find v.name to_set) v (to_set, n)).0
      ≡ or_else (find j to_set) (if streq v.name j then some v else none)
unfolding merge_slot
find-merge_slot inc n to_set v j = go (find v.name to_set) refl
  where
    go :
        (o : Option Variable)
        → find v.name to_set ≡ o
        → find j (merge_slot inc o v (to_set, n)).0
          ≡ or_else (find j to_set) (if streq v.name j then some v else none)
    go none e = elim (Bool-cases (streq v.name j)) [
      | inl hit ↦
          let absent : find j to_set ≡ none =
            ap (λ t. find t to_set) (sym (streq-eq v.name j hit)) ∙ e in
          rw (find-replace v.name j v to_set refl, hit, absent) refl
      | inr miss ↦ rw (find-replace v.name j v to_set refl, miss) (or_else-none (find j to_set))
    ]
    go (some w) e = elim (Bool-cases (streq v.name j)) [
      | inl hit ↦
          let present : find j to_set ≡ some w =
            ap (λ t. find t to_set) (sym (streq-eq v.name j hit)) ∙ e in
          rw present refl
      | inr miss ↦ rw miss (or_else-none (find j to_set))
    ]

-- In a merge of two sets, a name finds what it did in the first one, and what it did in the second
-- one where the first has none.
find-merge_loop :
    (inc n : ℕ) (to_set from_set : List Variable) (j : Text)
    → find j (merge_loop inc (to_set, n) from_set).0 ≡ or_else (find j to_set) (find j from_set)
unfolding merge_loop find
find-merge_loop inc n to_set [] j = or_else-none (find j to_set)
find-merge_loop inc n to_set (v ∷ from_set) j =
    let to = merge_slot inc (find v.name to_set) v (to_set, n) in
    let first = ap (λ a. or_else a (find j from_set)) (find-merge_slot inc n to_set v j) in
    find-merge_loop inc to.1 to.0 from_set j
    ∙ first
    ∙ or_else_assoc (find j to_set) (if streq v.name j then some v else none) (find j from_set)
    ∙ ap (or_else (find j to_set)) (or_else-if (streq v.name j) v (find j from_set))
