-- ===== src/Shuffle/Deps.antt =====
-- `shuffle_deps` on one list of prerequisites.
use mathlib.Core.List.{Perm}
use mathlib.Core.List.Perm
use make.Shuffle.Order.{swap-length, reverse_loop-length, shuffler-Perm}
use make.Shuffle.{
  ShuffleMode, sm_none, sm_random, sm_reverse, sm_identity, make_rand, swap, random_loop,
  random_shuffle_array, reverse_shuffle_array, shuffler, Dep, any_wait, places, write_back,
  shuffle_deps,
}
use make.Prelude.{
  ℕ, zero, suc, ◌+◌, ◌/◌, ◌%◌, ◌≡◌, inl, inr, refl, ap, ◌∙◌, false, Option, some, List, [], ◌∷◌,
  map, length, ◌==◌, Bool-cases, arith,
}

-- The pointers `shuf` in list order.
abbrev pub shufs : List Dep → List (Option ℕ)
shufs [] = []
shufs (d ∷ ds) = d.shuf ∷ shufs ds

random_loop-length :
    (entropy n i len : ℕ) (a : List ℕ) (s : ℕ)
    → length ((random_loop entropy n i len a s).0) ≡ length a
unfolding random_loop
random_loop-length entropy zero i len a s = refl
random_loop-length entropy (suc n) i len a s =
    let rand = make_rand entropy s in
    elim (Bool-cases (i == rand % len)) [
      | inl e ↦ rw (e, random_loop) (random_loop-length entropy n (i + 1) len a rand)
      | inr e ↦
          rw (e, random_loop)
            (random_loop-length entropy n (i + 1) len (swap a i (rand % len)) rand
              ∙ swap-length a i (rand % len))
    ]

shuffler-length :
    (mode : ShuffleMode) (entropy : ℕ) (a : List ℕ) (s : ℕ)
    → length ((shuffler mode entropy a s).0) ≡ length a
unfolding shuffler random_shuffle_array reverse_shuffle_array
shuffler-length sm_none entropy a s = refl
shuffler-length sm_random entropy a s = random_loop-length entropy (length a) 0 (length a) a s
shuffler-length sm_reverse entropy a s = reverse_loop-length (length a / 2) a
shuffler-length sm_identity entropy a s = refl

places-length : (i : ℕ) (ds : List Dep) → length (places i ds) ≡ length ds
places-length i [] = refl
places-length i (d ∷ ds) = ap suc (places-length (i + 1) ds)

write_back-shufs :
    (ds : List Dep) (da : List ℕ) → length da ≡ length ds → shufs (write_back ds da) ≡ map some da
write_back-shufs [] [] e = refl
write_back-shufs [] (p ∷ da) e = absurd (omega arith)
write_back-shufs (d ∷ ds) [] e = absurd (omega arith)
write_back-shufs (d ∷ ds) (p ∷ da) e = ap (λ t. some p ∷ t) (write_back-shufs ds da (omega arith))

-- The pointers `shuf` of a list without `.WAIT` are set to the places of the list, each once.
shuffle_deps-Perm :
    (mode : ShuffleMode) (entropy : ℕ) (deps : List Dep) (s : ℕ)
    → any_wait deps ≡ false
    → (da : List ℕ) × (shufs ((shuffle_deps mode entropy deps s).0) ≡ map some da)
      × Perm da (places 0 deps)
unfolding shuffle_deps
shuffle_deps-Perm mode entropy [] s e = ([], refl, Perm.refl [])
shuffle_deps-Perm mode entropy (d ∷ ds) s e =
    let da = (shuffler mode entropy (places 0 (d ∷ ds)) s).0 in
    (
      da,
      rw e (
          write_back-shufs (d ∷ ds) da
            (shuffler-length mode entropy (places 0 (d ∷ ds)) s ∙ places-length 0 (d ∷ ds))),
      shuffler-Perm mode entropy (places 0 (d ∷ ds)) s,
    )
