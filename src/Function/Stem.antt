-- ===== src/Function/Stem.antt =====
-- The words that `patsubst_expand_pat` takes for matches, and what it makes of them.
use make.Function.Patsubst.{
  percent, same_byte, prefix_matches, suffix_matches, word_matches, replacement,
}
use make.Function.Pattern.{
  strneq, and_both, stem_between, take_all, take-length_append, drop-length_append,
}
use make.Text.Equal.{streq-eq}
use make.Text.{Text}
use make.Prelude.{
  ℕ, zero, suc, ◌+◌, ◌-◌, ◌≤◌, ◌≡◌, refl, sym, ap, ◌∙◌, true, not, ◌&&◌, Option, none, some, [],
  ◌∷◌, ◌++◌, length, length-append, get_elem?, take, drop, ltb, ◌==◌, arith,
}

get-drop : (m k : ℕ) (t : Text) → get_elem? (drop m t) k ≡ get_elem? t (m + k)
get-drop zero k t = ap (get_elem? t) (omega arith)
get-drop (suc m) k [] = refl
get-drop (suc m) k (c ∷ t) =
    let e : suc (m + k) ≡ suc m + k = omega arith in get-drop m k t ∙ ap (get_elem? (c ∷ t)) e

length-drop : (m : ℕ) (t : Text) → length (drop m t) ≡ length t - m
length-drop zero t = omega arith
length-drop (suc m) [] = omega arith
length-drop (suc m) (c ∷ t) = omega (arith, length-drop m t)

same_byte-eq : (x y : Option ℕ) → same_byte x y ≡ true → x ≡ y
same_byte-eq none y e = absurd (cc)
same_byte-eq (some c) none e = absurd (cc)
same_byte-eq (some c) (some d) e = ap some (ground arith)

-- Two texts of one length that agree up to the last byte and there.
last_agrees :
    (k : ℕ) (u v : Text)
    → length u ≡ suc k
    → length v ≡ suc k
    → take k u ≡ take k v
    → get_elem? u k ≡ get_elem? v k
    → u ≡ v
last_agrees k [] v e e' h g = absurd (omega arith)
last_agrees k (c ∷ u) [] e e' h g = absurd (omega arith)
last_agrees zero (c ∷ []) (d ∷ []) e e' h g = let c=d : c ≡ d = cc in ap (λ x. x ∷ []) c=d
last_agrees zero (c ∷ b ∷ u) (d ∷ v) e e' h g = absurd (omega arith)
last_agrees zero (c ∷ []) (d ∷ b ∷ v) e e' h g = absurd (omega arith)
last_agrees (suc k) (c ∷ u) (d ∷ v) e e' h g =
    let c=d : c ≡ d = cc in
    let rest : take k u ≡ take k v = cc in
    rw c=d (ap (λ x. d ∷ x) (last_agrees k u v (omega arith) (omega arith) rest g))

prefix-eq : (pre t : Text) → prefix_matches pre t ≡ true → pre ≡ take (length pre) t
unfolding prefix_matches
prefix-eq [] t e = refl
prefix-eq (c ∷ pre) [] e = absurd (cc)
prefix-eq (c ∷ pre) (d ∷ t) e =
    let n = suc (length pre) - 1 in
    let inner = same_byte (get_elem? (d ∷ t) n) (get_elem? (c ∷ pre) n) in
    let rest = strneq t pre n in
    let (head, both) = and_both (d == c) (inner && rest) e in
    let (_, tail) = and_both inner rest both in
    let d=c : d ≡ c = ground arith in
    let n_eq : n ≡ length pre = omega arith in
    let same : take n t ≡ take n pre = streq-eq (take n t) (take n pre) tail in
    let same' : pre ≡ take (length pre) t =
      sym (take_all pre) ∙ ap (λ m. take m pre) (sym n_eq) ∙ sym same ∙ ap (λ m. take m t) n_eq in
    ap (λ x. x ∷ pre) (sym d=c) ∙ ap (λ x. d ∷ x) same'

drop_all : (t : Text) → drop (length t) t ≡ []
drop_all [] = refl
drop_all (c ∷ t) = drop_all t

suffix-eq :
    (post t : Text)
    → length post ≤ length t
    → suffix_matches post t ≡ true
    → post ≡ drop (length t - length post) t
unfolding suffix_matches
suffix-eq [] t h e =
    let all : length t - 0 ≡ length t = omega arith in sym (ap (λ k. drop k t) all ∙ drop_all t)
suffix-eq (c ∷ post) t h e =
    let n = suc (length post) in
    let m = length t - n in
    let final = same_byte (get_elem? t (length t - 1)) (get_elem? (c ∷ post) (n - 1)) in
    let initial = same_byte (get_elem? t m) (some c) in
    let rest = strneq (drop m t) (c ∷ post) (n - 1) in
    let (last, both) = and_both final (initial && rest) e in
    let (_, tail) = and_both initial rest both in
    let k_eq : n - 1 ≡ length post = omega arith in
    let body : take (length post) (drop m t) ≡ take (length post) (c ∷ post) =
      ap (λ k. take k (drop m t)) (sym k_eq)
      ∙ streq-eq (take (n - 1) (drop m t)) (take (n - 1) (c ∷ post)) tail
      ∙ ap (λ k. take k (c ∷ post)) k_eq in
    let end : get_elem? (drop m t) (length post) ≡ get_elem? (c ∷ post) (length post) =
      get-drop m (length post) t
      ∙ ap (get_elem? t) (omega arith)
      ∙ same_byte-eq (get_elem? t (length t - 1)) (get_elem? (c ∷ post) (n - 1)) last
      ∙ ap (get_elem? (c ∷ post)) k_eq in
    sym (
      last_agrees (length post) (drop m t) (c ∷ post) (length-drop m t ∙ omega arith) refl body end)

-- A word that matches is the part before the `%`, a stem and the part after it, and a replacement
-- with a `%` puts its own two parts around the same stem.
pub word_matches-replacement :
    (pre post before after t : Text)
    → word_matches pre post t ≡ true
    → (stem : Text) × (t ≡ pre ++ (stem ++ post))
      × (replacement (percent before after) pre post t ≡ (before ++ stem) ++ after)
unfolding word_matches replacement
word_matches-replacement pre post before after t e =
    let fits = prefix_matches pre t in
    let ends = suffix_matches post t in
    let (long, both) =
      and_both (not (ltb (length t) (length pre + length post))) (fits && ends) e in
    let (head, tail) = and_both fits ends both in
    let enough : length pre + length post ≤ length t = ground arith in
    let (stem, split) =
      stem_between pre post t enough (prefix-eq pre t head) (suffix-eq post t (omega arith) tail) in
    let size : length t ≡ length pre + (length stem + length post) =
      ap length split
      ∙ length-append pre (stem ++ post)
      ∙ ap (λ n. length pre + n) (length-append stem post) in
    let rest : drop (length pre) t ≡ stem ++ post =
      ap (drop (length pre)) split ∙ drop-length_append pre (stem ++ post) in
    let middle : take (length t - (length pre + length post)) (drop (length pre) t) ≡ stem =
      ap (λ k. take k (drop (length pre) t)) (omega (arith, size))
      ∙ ap (take (length stem)) rest
      ∙ take-length_append stem post in
    (stem, split, ap (λ x. (before ++ x) ++ after) middle)
