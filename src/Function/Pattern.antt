-- ===== src/Function/Pattern.antt =====
-- `pattern_matches`. A pattern is the text before its `%` and the text after it, as `find_percent`
-- splits it.
use make.Text.Equal.{streq-eq, streq_refl}
use make.Text.{Text, streq}
use make.Prelude.{
  ℕ, zero, suc, ◌+◌, ◌-◌, ◌≤◌, ◌≡◌, ◌↔◌, refl, sym, ap, ◌∙◌, Bool, true, false, not, ◌&&◌, [], ◌∷◌,
  ◌++◌, length, length-append, take, drop, take-append-drop, ltb, arith,
}

-- `strneq (a, b, n)`
abbrev pub strneq : Text → Text → ℕ → Bool
strneq a b n = streq (take n a) (take n b)

unfoldable pub pattern_matches : Text → Text → Text → Bool
pattern_matches pre post str =
    not (ltb (length str) (length pre + length post))
    && (strneq pre str (length pre) && streq post (drop (length str - length post) str))

pub take-length_append : (a b : Text) → take (length a) (a ++ b) ≡ a
take-length_append [] b = refl
take-length_append (c ∷ a) b = ap (λ r. c ∷ r) (take-length_append a b)

pub drop-length_append : (a b : Text) → drop (length a) (a ++ b) ≡ b
drop-length_append [] b = refl
drop-length_append (c ∷ a) b = drop-length_append a b

pub take_all : (a : Text) → take (length a) a ≡ a
take_all [] = refl
take_all (c ∷ a) = ap (λ r. c ∷ r) (take_all a)

drop_nil : (n : ℕ) → drop {A = ℕ} n [] ≡ []
drop_nil zero = refl
drop_nil (suc n) = refl

drop-drop : (m n : ℕ) (a : Text) → drop n (drop m a) ≡ drop (m + n) a
drop-drop zero n a = ap (λ k. drop k a) (omega arith)
drop-drop (suc m) n [] = drop_nil n ∙ sym (drop_nil (suc m + n))
drop-drop (suc m) n (c ∷ a) =
    let e : suc (m + n) ≡ suc m + n = omega arith in drop-drop m n a ∙ ap (λ k. drop k (c ∷ a)) e

pub and_both : (a b : Bool) → (a && b) ≡ true → (a ≡ true) × (b ≡ true)
and_both true b e = (refl, e)
and_both false b e = absurd (cc)

and_true : (a b : Bool) → a ≡ true → b ≡ true → (a && b) ≡ true
and_true a b e e' = rw (e, e') refl

-- The stem: what stands between the two parts.
pub stem_between :
    (pre post str : Text)
    → length pre + length post ≤ length str
    → pre ≡ take (length pre) str
    → post ≡ drop (length str - length post) str
    → (stem : Text) × (str ≡ pre ++ (stem ++ post))
stem_between pre post str long head tail =
    let rest = drop (length pre) str in
    let m = length str - length post - length pre in
    let last : drop m rest ≡ post =
      drop-drop (length pre) m str ∙ ap (λ k. drop k str) (omega arith) ∙ sym tail in
    (
      take m rest,
      sym (take-append-drop (length pre) str)
          ∙ ap (λ x. x ++ rest) (sym head)
          ∙ ap (λ x. pre ++ x) (sym (take-append-drop m rest) ∙ ap (λ x. take m rest ++ x) last),
    )

-- `pattern_matches` says yes exactly where the text is the part before the `%`, a stem and the part
-- after it.
pub pattern_matches_lem :
    (pre post str : Text)
    → (pattern_matches pre post str ≡ true) ↔ ((stem : Text) × (str ≡ pre ++ (stem ++ post)))
unfolding pattern_matches
pattern_matches_lem pre post str = (splits, joins)
  where
    splits : pattern_matches pre post str ≡ true → (stem : Text) × (str ≡ pre ++ (stem ++ post))
    splits e =
        let same = strneq pre str (length pre) in
        let ends = streq post (drop (length str - length post) str) in
        let (long, both) =
          and_both (not (ltb (length str) (length pre + length post))) (same && ends) e in
        let (head, tail) = and_both same ends both in
        stem_between pre post str (ground arith)
          (sym (take_all pre) ∙ streq-eq (take (length pre) pre) (take (length pre) str) head)
          (streq-eq post (drop (length str - length post) str) tail)

    joins : ((stem : Text) × (str ≡ pre ++ (stem ++ post))) → pattern_matches pre post str ≡ true
    joins (stem, e) =
        let size : length str ≡ length pre + (length stem + length post) =
          ap length e
          ∙ length-append pre (stem ++ post)
          ∙ ap (λ n. length pre + n) (length-append stem post) in
        let enough : ltb (length str) (length pre + length post) ≡ false = ground arith in
        let head : take (length pre) str ≡ pre =
          ap (take (length pre)) e ∙ take-length_append pre (stem ++ post) in
        let tail : drop (length str - length post) str ≡ post =
          ap (λ k. drop k str) (omega (arith, size))
          ∙ sym (drop-drop (length pre) (length stem) str)
          ∙ ap (λ x. drop (length stem) (drop (length pre) x)) e
          ∙ ap (drop (length stem)) (drop-length_append pre (stem ++ post))
          ∙ drop-length_append stem post in
        rw (enough, head, tail, take_all pre)
          (and_true (streq pre pre) (streq post post) (streq_refl pre) (streq_refl post))
