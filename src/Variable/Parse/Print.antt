-- ===== src/Variable/Parse/Print.antt =====
-- Definitions written out are read back.
use mathlib.Core.List.{reverse, reverse_aux, reverse-reverse}
use make.Variable.{
  Flavor, f_bogus, f_simple, f_recursive, f_expand, f_append, f_conditional, f_shell,
  f_append_value,
}
use make.Variable.Parse.{
  Assignment, found, continue, name_at, blank_round, third_colon, second_colon, colon, other,
  two_bytes, plain_round, round, after_round, parse_loop, parse_variable_definition,
}
use make.Text.Words.{rounds_pos, rounds-append}
use make.Variable.Parse.Passed.{AllSpace, IsOperator}
use make.Text.{Text, is_blank, is_space, next_token, rounds}
use make.Prelude.{
  ℕ, zero, suc, ◌+◌, ◌≤◌, ◌≡◌, inl, inr, refl, ap, ◌∙◌, Bool, true, not, ◌&&◌, Option, none, some,
  [], ◌∷◌, ◌++◌, length, ◌==◌, arith,
}

-- A byte that no rule of the loop is about.
abbrev pub is_plain : ℕ → Bool
is_plain c =
    not (is_space c)
    && (not (c == b'#')
        && (not (c == b'=')
            && (not (c == b':')
                && (not (c == b'$') && (not (c == b'+') && (not (c == b'?') && not (c == b'!')))))))

abbrev pub AllPlain : Text → Type 0
AllPlain [] = Unit
AllPlain (c ∷ t) = (is_plain c ≡ true) × AllPlain t

abbrev pub AllBlank : Text → Type 0
AllBlank [] = Unit
AllBlank (c ∷ t) = (is_blank c ≡ true) × AllBlank t

operator_round :
    (seen : Text) (end : Option Text) (flavor : Flavor) (token rest : Text)
    → IsOperator flavor token
    → round seen end (token ++ rest) ≡ found (name_at end seen) flavor rest
unfolding round colon second_colon third_colon plain_round two_bytes is_blank
operator_round seen end f_recursive token rest e = rw e refl
operator_round seen end f_simple token rest (inl e) = rw e refl
operator_round seen end f_simple token rest (inr e) = rw e refl
operator_round seen end f_expand token rest e = rw e refl
operator_round seen end f_append token rest e = rw e refl
operator_round seen end f_conditional token rest e = rw e refl
operator_round seen end f_shell token rest e = rw e refl
operator_round seen end f_bogus token rest e = elim e [ ]
operator_round seen end f_append_value token rest e = elim e [ ]

plain_byte_round :
    (seen : Text) (c : ℕ) (p : Text)
    → is_plain c ≡ true
    → round seen none (c ∷ p) ≡ continue (c ∷ seen) none p
unfolding round plain_round two_bytes other is_space
plain_byte_round seen c [] h = ground arith
plain_byte_round seen c (d ∷ p) h = ground arith

blank_round_end :
    (seen : Text) (c : ℕ) (p : Text)
    → is_blank c ≡ true
    → round seen none (c ∷ p) ≡ continue seen (some (reverse seen)) (next_token p)
unfolding round blank_round is_blank
blank_round_end seen c p e = ground arith

next_token-plain : (c : ℕ) (t : Text) → is_plain c ≡ true → next_token (c ∷ t) ≡ c ∷ t
unfolding next_token
next_token-plain c t h = ground arith

next_token-skip :
    (spaces : Text) (p : Text) → AllSpace spaces → next_token (spaces ++ p) ≡ next_token p
unfolding next_token
next_token-skip [] p h = refl
next_token-skip (c ∷ spaces) p (e, h) = rw e (next_token-skip spaces p h)

AllBlank-AllSpace : (t : Text) → AllBlank t → AllSpace t
unfolding is_space
AllBlank-AllSpace [] h = tt
AllBlank-AllSpace (c ∷ t) (e, h) = (rw e refl, AllBlank-AllSpace t h)

next_token-operator :
    (flavor : Flavor) (token rest : Text)
    → IsOperator flavor token
    → next_token (token ++ rest) ≡ token ++ rest
unfolding next_token is_space is_blank
next_token-operator f_recursive token rest e = rw e refl
next_token-operator f_simple token rest (inl e) = rw e refl
next_token-operator f_simple token rest (inr e) = rw e refl
next_token-operator f_expand token rest e = rw e refl
next_token-operator f_append token rest e = rw e refl
next_token-operator f_conditional token rest e = rw e refl
next_token-operator f_shell token rest e = rw e refl
next_token-operator f_bogus token rest e = elim e [ ]
next_token-operator f_append_value token rest e = elim e [ ]

-- The definition that is read.
abbrev assigned : Text → Flavor → Text → Option (Option Assignment)
assigned name flavor rest =
    some (some (record { name = name; flavor = flavor; value = next_token rest; after = rest }))

module _ (flavor : Flavor) (token rest : Text) (operator : IsOperator flavor token) where
  after_name :
      (fuel : ℕ) (seen blanks : Text)
      → AllBlank blanks
      → 2 ≤ fuel
      → parse_loop fuel seen none (blanks ++ (token ++ rest)) ≡ assigned (reverse seen) flavor rest
  unfolding parse_loop after_round
  after_name zero seen blanks h k = absurd (omega arith)
  after_name (suc zero) seen blanks h k = absurd (omega arith)
  after_name (suc (suc fuel)) seen [] h k =
      rw (operator_round seen none flavor token rest operator) refl
  after_name (suc (suc fuel)) seen (c ∷ blanks) (e, h) k =
      let skipped : next_token (blanks ++ (token ++ rest)) ≡ token ++ rest =
        next_token-skip blanks (token ++ rest) (AllBlank-AllSpace blanks h)
        ∙ next_token-operator flavor token rest operator in
      rw
        (
          blank_round_end seen c (blanks ++ (token ++ rest)) e,
          skipped,
          operator_round seen (some (reverse seen)) flavor token rest operator,
        )
        refl

  whole_name :
      (fuel : ℕ) (seen name blanks : Text)
      → AllPlain name
      → AllBlank blanks
      → length name + 2 ≤ fuel
      → parse_loop fuel seen none (name ++ (blanks ++ (token ++ rest)))
        ≡ assigned (reverse (reverse_aux name seen)) flavor rest
  unfolding parse_loop after_round
  whole_name fuel seen [] blanks h b k = after_name fuel seen blanks b (omega arith)
  whole_name zero seen (c ∷ name) blanks h b k = absurd (omega arith)
  whole_name (suc fuel) seen (c ∷ name) blanks (e, h) b k =
      rw (plain_byte_round seen c (name ++ (blanks ++ (token ++ rest))) e)
        (whole_name fuel (c ∷ seen) name blanks h b (omega arith))

operator_length : (flavor : Flavor) (token : Text) → IsOperator flavor token → 1 ≤ length token
operator_length f_recursive token e = rw e (omega arith)
operator_length f_simple token (inl e) = rw e (omega arith)
operator_length f_simple token (inr e) = rw e (omega arith)
operator_length f_expand token e = rw e (omega arith)
operator_length f_append token e = rw e (omega arith)
operator_length f_conditional token e = rw e (omega arith)
operator_length f_shell token e = rw e (omega arith)
operator_length f_bogus token e = elim e [ ]
operator_length f_append_value token e = elim e [ ]

-- A definition that is written out is read back: spaces, a name of bytes that no rule of the loop
-- is about, blanks, an assignment token of the flavor and the rest of the line are read as the
-- definition of the name in the flavor, with the rest as value, without the spaces before it.
pub parse_variable_definition-print :
    (spaces : Text) (c : ℕ) (name blanks : Text) (flavor : Flavor) (token rest : Text)
    → AllSpace spaces
    → AllPlain (c ∷ name)
    → AllBlank blanks
    → IsOperator flavor token
    → parse_variable_definition (spaces ++ (c ∷ name ++ (blanks ++ (token ++ rest))))
      ≡ some (
          some (record { name = c ∷ name; flavor = flavor; value = next_token rest; after = rest }))
unfolding parse_variable_definition
parse_variable_definition-print spaces c name blanks flavor token rest s plain b operator =
    let line = c ∷ name ++ (blanks ++ (token ++ rest)) in
    let start : next_token (spaces ++ line) ≡ line =
      next_token-skip spaces line s
      ∙ next_token-plain c (name ++ (blanks ++ (token ++ rest))) plain.0 in
    let fuel : length (c ∷ name) + 2 ≤ rounds line = omega (
      arith,
      rounds-append name (blanks ++ (token ++ rest)),
      rounds-append blanks (token ++ rest),
      rounds-append token rest,
      operator_length flavor token operator,
      rounds_pos rest,
    ) in
    ap parse_from start
    ∙ whole_name flavor token rest operator (rounds line) [] (c ∷ name) blanks plain b fuel
    ∙ ap (λ t. assigned t flavor rest) (reverse-reverse (c ∷ name))
  where
    parse_from : Text → Option (Option Assignment)
    parse_from t = parse_loop (rounds t) [] none t
