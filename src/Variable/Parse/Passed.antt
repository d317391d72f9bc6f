-- ===== src/Variable/Parse/Passed.antt =====
-- What the loop of `parse_variable_definition` has passed, and what it finds behind a colon.
use mathlib.Core.List.{reverse_aux, reverse_aux-eq}
use make.Variable.{Flavor, f_simple, f_recursive, f_expand, f_append, f_conditional, f_shell}
use make.Variable.Parse.{
  Round, null, found, continue, name_at, third_colon, second_colon, colon, skip_reference,
}
use make.Text.{Text, codes, is_space, next_token, rounds}
use make.Prelude.{
  ℕ, suc, ◌+◌, ◌-◌, ◌≤◌, ◌<◌, ◌≡◌, ◌⊎◌, inl, inr, refl, ap, ◌∙◌, true, Option, none, some, [], ◌∷◌,
  ◌++◌, ◌==◌, Bool-cases, arith,
}

abbrev pub AllSpace : Text → Type 0
AllSpace [] = Unit
AllSpace (c ∷ t) = (is_space c ≡ true) × AllSpace t

-- The assignment tokens of a flavor.
abbrev pub IsOperator : Flavor → Text → Type 0
IsOperator f_recursive t = t ≡ codes "="
IsOperator f_simple t = (t ≡ codes ":=") ⊎ (t ≡ codes "::=")
IsOperator f_expand t = t ≡ codes ":::="
IsOperator f_append t = t ≡ codes "+="
IsOperator f_conditional t = t ≡ codes "?="
IsOperator f_shell t = t ≡ codes "!="
IsOperator _ t = ⊥

-- The name, spaces and an assignment token come before the rest.
abbrev pub Splits : Text → Text → Flavor → Text → Type 0
Splits whole name flavor rest =
    (spaces : Text) × (token : Text) × AllSpace spaces
    × IsOperator flavor token
    × (whole ≡ name ++ (spaces ++ (token ++ rest)))

-- What has been passed when the loop stands before `p`.
unfoldable pub Passed : Text → Text → Option Text → Text → Type 0
Passed whole seen none p = whole ≡ reverse_aux seen p
Passed whole seen (some name) p =
    (spaces : Text) × AllSpace spaces × (whole ≡ name ++ (spaces ++ p))

unfoldable pub RoundOk : Text → Text → Round → Type 0
RoundOk whole p null = Unit
RoundOk whole p (found name flavor rest) = Splits whole name flavor rest
RoundOk whole p (continue seen end q) = Passed whole seen end q × (rounds q < rounds p)

pub next_token-split : (p : Text) → (spaces : Text) × AllSpace spaces × (p ≡ spaces ++ next_token p)
unfolding next_token
next_token-split [] = ([], tt, refl)
next_token-split (c ∷ p) = elim (Bool-cases (is_space c)) [
  | inl e ↦
      let (spaces, all, split) = next_token-split p in
      rw e (c ∷ spaces, (e, all), ap (λ t. c ∷ t) split)
  | inr e ↦ rw e ([], tt, refl)
]

-- Where the name ends.
pub Passed-name :
    (whole seen : Text) (end : Option Text) (p : Text)
    → Passed whole seen end p
    → (spaces : Text) × AllSpace spaces × (whole ≡ name_at end seen ++ (spaces ++ p))
unfolding Passed
Passed-name whole seen none p h = ([], tt, h ∙ reverse_aux-eq seen p)
Passed-name whole seen (some name) p h = h

pub skip_reference-past :
    (open_paren closeparen count : ℕ) (seen p : Text)
    → (reverse_aux
          (skip_reference open_paren closeparen count seen p).0
          (skip_reference open_paren closeparen count seen p).1
        ≡ reverse_aux seen p)
      × (rounds (skip_reference open_paren closeparen count seen p).1 ≤ rounds p)
unfolding skip_reference
skip_reference-past o cl count seen [] = (refl, omega arith)
skip_reference-past o cl count seen (c ∷ p) = elim (Bool-cases (c == cl)) [
  | inl close ↦ elim (Bool-cases (count == 1)) [
    | inl last ↦ rw (close, last) (refl, omega arith)
    | inr more ↦
        rw (close, more)
          (widen (skip_reference o cl (count - 1) (c ∷ seen) p)
            (skip_reference-past o cl (count - 1) (c ∷ seen) p))
  ]
  | inr inside ↦ elim (Bool-cases (c == o)) [
    | inl deeper ↦
        rw (inside, deeper)
          (widen (skip_reference o cl (count + 1) (c ∷ seen) p)
            (skip_reference-past o cl (count + 1) (c ∷ seen) p))
    | inr level ↦
        rw (inside, level)
          (widen (skip_reference o cl count (c ∷ seen) p)
            (skip_reference-past o cl count (c ∷ seen) p))
  ]
]
  where
    widen :
        (r : Text × Text)
        → (reverse_aux r.0 r.1 ≡ reverse_aux seen (c ∷ p)) × (rounds r.1 ≤ rounds p)
        → (reverse_aux r.0 r.1 ≡ reverse_aux seen (c ∷ p)) × (rounds r.1 ≤ suc (rounds p))
    widen r (e, le) = (e, omega arith)

module _ (whole : Text) where
  third_colon-RoundOk :
      (name spaces p q : Text)
      → AllSpace spaces
      → whole ≡ name ++ (spaces ++ (codes ":::" ++ q))
      → RoundOk whole p (third_colon name q)
  unfolding RoundOk third_colon
  third_colon-RoundOk name spaces p [] all e = tt
  third_colon-RoundOk name spaces p (c ∷ q) all e = elim (Bool-cases (c == b'=')) [
    | inl equals ↦
        let same : c ≡ b'=' = ground arith in
        rw equals (
          spaces,
          codes ":::=",
          all,
          refl,
          e ∙ ap (λ x. name ++ (spaces ++ (codes ":::" ++ (x ∷ q)))) same,
        )
    | inr no_equals ↦ rw no_equals tt
  ]

  second_colon-RoundOk :
      (name spaces p q : Text)
      → AllSpace spaces
      → whole ≡ name ++ (spaces ++ (codes "::" ++ q))
      → RoundOk whole p (second_colon name q)
  unfolding RoundOk second_colon
  second_colon-RoundOk name spaces p [] all e = tt
  second_colon-RoundOk name spaces p (c ∷ q) all e = elim (Bool-cases (c == b'=')) [
    | inl equals ↦
        let same : c ≡ b'=' = ground arith in
        rw equals (
          spaces,
          codes "::=",
          all,
          inr refl,
          e ∙ ap (λ x. name ++ (spaces ++ (codes "::" ++ (x ∷ q)))) same,
        )
    | inr no_equals ↦ elim (Bool-cases (c == b':')) [
      | inl another ↦
          let same : c ≡ b':' = ground arith in
          rw (no_equals, another)
            (third_colon-RoundOk name spaces p q all
              (e ∙ ap (λ x. name ++ (spaces ++ (codes "::" ++ (x ∷ q)))) same))
      | inr no_colon ↦ rw (no_equals, no_colon) tt
    ]
  ]

  pub colon-RoundOk :
      (name spaces p q : Text)
      → AllSpace spaces
      → whole ≡ name ++ (spaces ++ (codes ":" ++ q))
      → RoundOk whole p (colon name q)
  unfolding RoundOk colon
  colon-RoundOk name spaces p [] all e = tt
  colon-RoundOk name spaces p (c ∷ q) all e = elim (Bool-cases (c == b'=')) [
    | inl equals ↦
        let same : c ≡ b'=' = ground arith in
        rw equals (
          spaces,
          codes ":=",
          all,
          inl refl,
          e ∙ ap (λ x. name ++ (spaces ++ (codes ":" ++ (x ∷ q)))) same,
        )
    | inr no_equals ↦ elim (Bool-cases (c == b':')) [
      | inl another ↦
          let same : c ≡ b':' = ground arith in
          rw (no_equals, another)
            (second_colon-RoundOk name spaces p q all
              (e ∙ ap (λ x. name ++ (spaces ++ (codes ":" ++ (x ∷ q)))) same))
      | inr no_colon ↦ rw (no_equals, no_colon) tt
    ]
  ]
