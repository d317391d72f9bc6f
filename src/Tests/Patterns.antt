-- ===== src/Tests/Patterns.antt =====
-- `func_subst` and `pattern_matches` of src/function.c on short texts.
use make.Function.Subst.{
  strstr, joined, AllFirst, next_place, subst_loop, subst_round, choose, subst_expand, func_subst,
  func_subst-joined,
}
use make.Function.Pattern.{pattern_matches, pattern_matches_lem}
use make.Text.{Text, codes, is_blank, is_space, next_token, end_of_token}
use make.Prelude.{◌≡◌, ◌↔◌, refl, true, List, [], ◌∷◌, ◌++◌}

all_parts : func_subst [] (codes "aa") (codes "b") (codes "xaaaya") ≡ codes "xbaya"
unfolding func_subst subst_expand subst_loop subst_round next_place strstr choose
all_parts = refl

whole_words : subst_expand [] (codes "a ba a") (codes "a") (codes "x") true ≡ codes "x ba x"
unfolding subst_expand subst_loop subst_round next_place strstr choose is_space is_blank next_token
    end_of_token
whole_words = refl

func_subst-joined_example :
    (p : Text) × (ps : List Text) × (codes "xaaaya" ≡ joined (codes "aa") (p ∷ ps))
    × AllFirst (codes "aa") (p ∷ ps)
    × (func_subst [] (codes "aa") (codes "b") (codes "xaaaya") ≡ [] ++ joined (codes "b") (p ∷ ps))
func_subst-joined_example = func_subst-joined [] b'a' (codes "a") (codes "b") (codes "xaaaya")

pattern_matches_lem_example :
    (pattern_matches (codes "src/") (codes ".c") (codes "src/foo.c") ≡ true)
    ↔ ((stem : Text) × (codes "src/foo.c" ≡ codes "src/" ++ (stem ++ codes ".c")))
pattern_matches_lem_example = pattern_matches_lem (codes "src/") (codes ".c") (codes "src/foo.c")
