-- ===== src/Tests/Logic.antt =====
-- `func_or` and `func_and` with an expansion that gives the text itself and counts its calls.
use make.Function.Logic.{
  func_or, func_if, value, expand_stripped, skipped, if_result, strip_whitespace, strip_end,
  FirstTrue, func_or-FirstTrue,
}
use make.Text.{Text, codes, is_space, is_blank, next_token}
use make.Prelude.{ℕ, ◌+◌, ◌≡◌, refl, List, [], ◌∷◌}

abbrev counted : ℕ → Text → Text × ℕ
counted n t = (t, n + 1)

abbrev conditions : List Text
conditions = codes " " ∷ codes "b " ∷ codes "c" ∷ []

func_or-FirstTrue_example : FirstTrue counted [] conditions 0 (func_or counted [] conditions 0)
func_or-FirstTrue_example = func_or-FirstTrue counted [] conditions 0

no_else : func_if counted (codes "x") (codes " ") (codes "then" ∷ []) 0 ≡ (codes "x", 0)
unfolding func_if value expand_stripped skipped if_result strip_whitespace strip_end is_space
    is_blank next_token
no_else = refl
