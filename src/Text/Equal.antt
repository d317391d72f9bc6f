-- ===== src/Text/Equal.antt =====
-- `streq` decides equality of texts.
use make.Text.{Text, streq}
use make.Prelude.{
  ◌≡◌, refl, sym, ap, ◌∙◌, true, false, [], ◌∷◌, ◌==◌, ==_refl, inl, inr, Bool-cases, arith,
}

pub streq-eq : (a b : Text) → streq a b ≡ true → a ≡ b
streq-eq [] [] e = refl
streq-eq [] (d ∷ b) e = absurd (cc)
streq-eq (c ∷ a) [] e = absurd (cc)
streq-eq (c ∷ a) (d ∷ b) e = elim (Bool-cases (c == d)) [
  | inl same ↦
      let c=d : c ≡ d = ground arith in
      let tail : streq a b ≡ true = rw same at e in rw c=d (ap (λ r. d ∷ r) (streq-eq a b tail))
  | inr other ↦ let no : false ≡ true = rw other at e in absurd (cc)
]

pub streq_refl : (a : Text) → streq a a ≡ true
streq_refl [] = refl
streq_refl (c ∷ a) = rw (==_refl c) (streq_refl a)

-- A text that equals one of two that differ does not equal the other.
pub streq_other : (a b c : Text) → streq a b ≡ false → streq a c ≡ true → streq b c ≡ false
streq_other a b c differ same = elim (Bool-cases (streq b c)) [
  | inl e ↦
      let a=b : a ≡ b = streq-eq a c same ∙ sym (streq-eq b c e) in
      let no : true ≡ false = rw (a=b, streq_refl b) at differ in absurd cc
  | inr e ↦ e
]
