-- ===== src/Tests/Shuffle.antt =====
-- Shuffling a graph of three files with a cycle.
use mathlib.Core.List.{Perm}
use make.Shuffle.Order.{shuffler-Perm, reverse_shuffle_array-mirror}
use make.Shuffle.Marks.{targets, AllIn, IsClosed}
use make.Shuffle.Visit.{VisitsAll, shuffle_deps_recursive-VisitsAll}
use make.Shuffle.{
  sm_random, sm_reverse, Dep, File, Walk, make_rand, reverse_loop, reverse_shuffle_array, swap,
  shuffler, shuffle_deps_recursive,
}
use make.Prelude.{
  ℕ, zero, suc, ◌-◌, ◌≡◌, refl, false, none, some, List, [], ◌∷◌, length, get_elem?, Returns, arith,
}

abbrev letters : List ℕ
letters = 97 ∷ 98 ∷ 99 ∷ 100 ∷ 101 ∷ []

reversed : reverse_shuffle_array letters ≡ 101 ∷ 100 ∷ 99 ∷ 98 ∷ 97 ∷ []
unfolding reverse_shuffle_array reverse_loop swap
reversed = refl

first_rand : make_rand 0 1 ≡ 270369
unfolding make_rand
first_rand = refl

shuffler-Perm_example : Perm ((shuffler sm_random 0 letters 1).0) letters
shuffler-Perm_example = shuffler-Perm sm_random 0 letters 1

reverse_shuffle_array-mirror_example :
    get_elem? (reverse_shuffle_array letters) 1 ≡ get_elem? letters (length letters - 1 - 1)
reverse_shuffle_array-mirror_example = reverse_shuffle_array-mirror letters 1 (omega arith)

abbrev to : ℕ → Dep
to f = record { file = some f; wait_here = false; shuf = none }

-- File 0 needs 1 and 2, file 1 needs 0.
abbrev store : Walk
store = record {
  files =
      record { was_shuffled = false; deps = to 1 ∷ to 2 ∷ [] }
      ∷ record { was_shuffled = false; deps = to 0 ∷ [] }
      ∷ record { was_shuffled = false; deps = [] }
      ∷ [];
  mk_state = 0;
}

closed_at :
    (f : ℕ) (x y z w : File)
    → get_elem? (x ∷ y ∷ z ∷ []) f ≡ some w
    → AllIn 3 (targets x.deps)
    → AllIn 3 (targets y.deps)
    → AllIn 3 (targets z.deps)
    → AllIn 3 (targets w.deps)
closed_at zero x y z w e a b c = let x=w : x ≡ w = cc in rw (← x=w) a
closed_at (suc zero) x y z w e a b c = let y=w : y ≡ w = cc in rw (← y=w) b
closed_at (suc (suc zero)) x y z w e a b c = let z=w : z ≡ w = cc in rw (← z=w) c
closed_at (suc (suc (suc f))) x y z w e a b c = absurd (cc)

store-IsClosed : IsClosed store.files
store-IsClosed f w e =
    closed_at f (record { was_shuffled = false; deps = to 1 ∷ to 2 ∷ [] })
      (record { was_shuffled = false; deps = to 0 ∷ [] })
      (record { was_shuffled = false; deps = [] }) w e (omega arith, (omega arith, tt))
      (omega arith, tt) tt

shuffle_deps_recursive-VisitsAll_example :
    Returns (shuffle_deps_recursive sm_reverse 0 false 7 (to 0 ∷ []) store) λ r.
      (targets r.0 ≡ targets (to 0 ∷ [])) × VisitsAll store.files (targets (to 0 ∷ [])) r.1.files
shuffle_deps_recursive-VisitsAll_example =
    shuffle_deps_recursive-VisitsAll sm_reverse 0 7 (to 0 ∷ []) store refl store-IsClosed
      (omega arith, tt)
