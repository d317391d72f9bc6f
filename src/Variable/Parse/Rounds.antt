-- ===== src/Variable/Parse/Rounds.antt =====
-- One round of the loop of `parse_variable_definition`: what it has passed and what it finds.
use mathlib.Core.List.{reverse, reverse_aux, reverse_aux-eq}
use make.Variable.{f_recursive}
use make.Variable.Parse.{
  name_at, blank_round, skip_reference, past_reference, reference, other, two_bytes, plain_round,
  round,
}
use make.Text.Words.{next_token-le}
use make.Text.{Text, codes, is_blank, is_space, rounds}
use make.Prelude.{
  ℕ, ◌≤◌, ◌<◌, ◌≡◌, inl, inr, refl, sym, ap, ◌∙◌, true, Option, none, some, [], ◌∷◌, ◌++◌, ◌==◌,
  Bool-cases, arith,
}
use make.Variable.Parse.Passed.{
  AllSpace, Splits, Passed, RoundOk, next_token-split, Passed-name, skip_reference-past,
  colon-RoundOk,
}

module _ (whole : Text) where
  past_reference-RoundOk :
      (r : Text × Text) (seen p t : Text)
      → whole ≡ reverse_aux seen p
      → rounds p < rounds t
      → (reverse_aux r.0 r.1 ≡ reverse_aux seen p) × (rounds r.1 ≤ rounds p)
      → RoundOk whole t (past_reference r)
  unfolding RoundOk Passed
  past_reference-RoundOk r seen p t h lt (e, le) = (h ∙ sym e, omega arith)

  reference-RoundOk :
      (seen p t : Text)
      → whole ≡ reverse_aux seen p
      → rounds p < rounds t
      → RoundOk whole t (reference seen p)
  unfolding RoundOk reference Passed
  reference-RoundOk seen [] t h lt = tt
  reference-RoundOk seen (c ∷ p) t h lt = elim (Bool-cases (c == b'(')) [
    | inl paren ↦ rw paren (
        past_reference-RoundOk (skip_reference b'(' b')' 1 (c ∷ seen) p) (c ∷ seen) p t h
          (omega arith) (skip_reference-past b'(' b')' 1 (c ∷ seen) p))
    | inr no_paren ↦ elim (Bool-cases (c == b'{')) [
      | inl brace ↦
          rw (no_paren, brace)
            (past_reference-RoundOk (skip_reference b'{' b'}' 1 (c ∷ seen) p) (c ∷ seen) p t h
              (omega arith) (skip_reference-past b'{' b'}' 1 (c ∷ seen) p))
      | inr plain ↦ rw (no_paren, plain) (h, omega arith)
    ]
  ]

  other-RoundOk :
      (seen : Text) (end : Option Text) (c : ℕ) (p : Text)
      → Passed whole seen end (c ∷ p)
      → RoundOk whole (c ∷ p) (other seen end c p)
  unfolding RoundOk other Passed
  other-RoundOk seen (some name) c p h = tt
  other-RoundOk seen none c p h = elim (Bool-cases (c == b'$')) [
    | inl dollar ↦ rw dollar (reference-RoundOk (c ∷ seen) p (c ∷ p) h (omega arith))
    | inr plain ↦ rw plain (h, omega arith)
  ]

  two_bytes-RoundOk :
      (seen : Text) (end : Option Text) (c d : ℕ) (p : Text)
      → (d == b'=') ≡ true
      → Passed whole seen end (c ∷ d ∷ p)
      → RoundOk whole (c ∷ d ∷ p) (two_bytes seen end c (d ∷ p) p)
  unfolding RoundOk two_bytes
  two_bytes-RoundOk seen end c d p equals h = go (Passed-name whole seen end (c ∷ d ∷ p) h)
    where
      d-equals : d ≡ b'='
      d-equals = ground arith

      with_token :
          (spaces : Text) (x : ℕ)
          → whole ≡ name_at end seen ++ (spaces ++ (c ∷ d ∷ p))
          → c ≡ x
          → whole ≡ name_at end seen ++ (spaces ++ (x ∷ b'=' ∷ p))
      with_token spaces x e c=x =
          e
          ∙ ap (λ y. name_at end seen ++ (spaces ++ (y ∷ d ∷ p))) c=x
          ∙ ap (λ y. name_at end seen ++ (spaces ++ (x ∷ y ∷ p))) d-equals

      go :
          (spaces : Text) × AllSpace spaces × (whole ≡ name_at end seen ++ (spaces ++ (c ∷ d ∷ p)))
          → RoundOk whole (c ∷ d ∷ p) (two_bytes seen end c (d ∷ p) p)
      go (spaces, all, e) = elim (Bool-cases (c == b'+')) [
        | inl plus ↦
            rw plus (spaces, codes "+=", all, refl, with_token spaces b'+' e (ground arith))
        | inr no_plus ↦ elim (Bool-cases (c == b'?')) [
          | inl question ↦
              rw (no_plus, question)
                (spaces, codes "?=", all, refl, with_token spaces b'?' e (ground arith))
          | inr no_question ↦ elim (Bool-cases (c == b'!')) [
            | inl bang ↦
                rw (no_plus, no_question, bang)
                  (spaces, codes "!=", all, refl, with_token spaces b'!' e (ground arith))
            | inr no_bang ↦ rw (no_plus, no_question, no_bang) (other-RoundOk seen end c (d ∷ p) h)
          ]
        ]
      ]

  plain_round-RoundOk :
      (seen : Text) (end : Option Text) (c : ℕ) (p : Text)
      → Passed whole seen end (c ∷ p)
      → RoundOk whole (c ∷ p) (plain_round seen end c p)
  unfolding plain_round
  plain_round-RoundOk seen end c [] h = other-RoundOk seen end c [] h
  plain_round-RoundOk seen end c (d ∷ p) h = elim (Bool-cases (d == b'=')) [
    | inl equals ↦ rw equals (two_bytes-RoundOk seen end c d p equals h)
    | inr no_equals ↦ rw no_equals (other-RoundOk seen end c (d ∷ p) h)
  ]

  blank_round-RoundOk :
      (seen : Text) (end : Option Text) (c : ℕ) (p : Text)
      → is_blank c ≡ true
      → Passed whole seen end (c ∷ p)
      → RoundOk whole (c ∷ p) (blank_round seen end p)
  unfolding RoundOk blank_round Passed is_space
  blank_round-RoundOk seen (some name) c p blank h = tt
  blank_round-RoundOk seen none c p blank h =
      let (spaces, all, split) = next_token-split p in
      let space : is_space c ≡ true = rw blank refl in
      let whole_is = h ∙ reverse_aux-eq seen (c ∷ p) ∙ ap (λ t. reverse seen ++ (c ∷ t)) split in
      ((c ∷ spaces, (space, all), whole_is), omega (arith, next_token-le p))

  pub round-RoundOk :
      (seen : Text) (end : Option Text) (p : Text)
      → Passed whole seen end p
      → RoundOk whole p (round seen end p)
  unfolding RoundOk round
  round-RoundOk seen end [] h = tt
  round-RoundOk seen end (c ∷ p) h = elim (Bool-cases (c == b'#')) [
    | inl comment ↦ rw comment tt
    | inr no_comment ↦ elim (Bool-cases (is_blank c)) [
      | inl blank ↦ rw (no_comment, blank) (blank_round-RoundOk seen end c p blank h)
      | inr no_blank ↦ elim (Bool-cases (c == b'=')) [
        | inl equals ↦
            rw (no_comment, no_blank, equals)
              (equals_found (Passed-name whole seen end (c ∷ p) h) (ground arith))
        | inr no_equals ↦ elim (Bool-cases (c == b':')) [
          | inl a_colon ↦
              let (spaces, all, e) = Passed-name whole seen end (c ∷ p) h in
              let same : c ≡ b':' = ground arith in
              rw (no_comment, no_blank, no_equals, a_colon)
                (colon-RoundOk whole (name_at end seen) spaces (c ∷ p) p all
                  (e ∙ ap (λ x. name_at end seen ++ (spaces ++ (x ∷ p))) same))
          | inr no_colon ↦
              rw (no_comment, no_blank, no_equals, no_colon) (plain_round-RoundOk seen end c p h)
        ]
      ]
    ]
  ]
    where
      equals_found :
          (spaces : Text) × AllSpace spaces × (whole ≡ name_at end seen ++ (spaces ++ (c ∷ p)))
          → c ≡ b'='
          → Splits whole (name_at end seen) f_recursive p
      equals_found (spaces, all, e) same =
          (spaces, codes "=", all, refl, e ∙ ap (λ x. name_at end seen ++ (spaces ++ (x ∷ p))) same)
