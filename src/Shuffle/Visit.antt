-- ===== src/Shuffle/Visit.antt =====
-- The walk over the dependency graph ends, and marks what it reaches.
use make.Shuffle.Marks.{
  targets, shuffle_deps-targets, IsMarked, AllMarked, IsIn, AllIn, IsClosed, unmarked, Keeps,
  Keeps-refl, Keeps-trans, Keeps-IsMarked, Keeps-AllMarked, Keeps-IsClosed, mark-Keeps, mark-other,
  unmarked_bound,
}
use make.Shuffle.{
  ShuffleMode, sm_none, sm_random, sm_reverse, sm_identity, Dep, File, Walk, each_dep, mark,
  shuffle_file_deps_recursive, shuffle_deps_recursive, shuffle_deps, shuffle_goals, seeded, is_none,
}
use make.Prelude.{
  ℕ, zero, suc, ◌+◌, ◌<◌, ◌≡◌, ◌≢◌, ◌⊎◌, inl, inr, refl, sym, ap, ◌∙◌, subst, true, false, Option,
  none, some, List, [], ◌∷◌, length, get_elem?, get_elem?_total, ◌>>=◌, Returns, Bool-cases, arith,
}

-- Every file marked on the way from `fs` to `fs'` has all its prerequisites marked.
abbrev pub Reaches : List File → List File → Type 0
Reaches fs fs' =
    (f : ℕ) (x y : File)
    → get_elem? fs f ≡ some x
    → x.was_shuffled ≡ false
    → get_elem? fs' f ≡ some y
    → y.was_shuffled ≡ true
    → AllMarked fs' (targets y.deps)

abbrev pub Visits : List File → Option ℕ → List File → Type 0
Visits fs t fs' = Keeps fs fs' × Reaches fs fs' × IsMarked fs' t

Reaches-refl : (fs : List File) → Reaches fs fs
Reaches-refl fs f x y e m e' m' = absurd (cc)

Reaches-trans :
    (a b c : List File) → Keeps a b → Keeps b c → Reaches a b → Reaches b c → Reaches a c
Reaches-trans a b c k l r r' f x z e m e'' m'' =
    let (y, at, _, _) = k.kept f x e in
    elim (Bool-cases y.was_shuffled) [
      | inl on ↦
          let (z', at', _, same) = l.kept f y at in
          let z'=z : z' ≡ z = cc in
          subst (AllMarked c) (sym same ∙ ap (λ w. targets w.deps) z'=z)
            (Keeps-AllMarked b c (targets y.deps) l (r f x y e m at on))
      | inr off ↦ r' f y z at off e'' m''
    ]

-- What a visit of one file promises, with `n` rounds of fuel.
abbrev Visitor : (Walk → Option ℕ → Option Walk) → ℕ → Type 0
Visitor visit n =
    (s : Walk) (t : Option ℕ)
    → IsClosed s.files
    → IsIn (length s.files) t
    → unmarked s.files < n
    → Returns (visit s t) λ s'. Visits s.files t s'.files

abbrev pub VisitsAll : List File → List (Option ℕ) → List File → Type 0
VisitsAll fs ts fs' = Keeps fs fs' × Reaches fs fs' × AllMarked fs' ts

each_dep-VisitsAll :
    (visit : Walk → Option ℕ → Option Walk) (n : ℕ)
    → Visitor visit n
    → (ds : List Dep) (s : Walk) → IsClosed s.files
    → AllIn (length s.files) (targets ds)
    → unmarked s.files < n
    → Returns (each_dep visit ds s) λ s'. VisitsAll s.files (targets ds) s'.files
unfolding each_dep
each_dep-VisitsAll visit n v [] s c i h = (s, refl, (Keeps-refl s.files, Reaches-refl s.files, tt))
each_dep-VisitsAll visit n v (d ∷ ds) s c (i, is) h =
    let (s₁, run, (k, r, on)) = v s d.file c i h in
    let (s₂, run', (l, r', all_on)) =
      each_dep-VisitsAll visit n v ds s₁ (Keeps-IsClosed s.files s₁.files k c)
        (subst (λ m. AllIn m (targets ds)) (sym k.same_length) is) (omega (arith, k.fewer, h)) in
    (
      s₂,
      rw (run, ◌>>=◌) run',
      (
        Keeps-trans s.files s₁.files s₂.files k l,
        Reaches-trans s.files s₁.files s₂.files k l r r',
        (Keeps-IsMarked s₁.files s₂.files d.file l on, all_on),
      ),
    )

module _ (mode : ShuffleMode) (entropy : ℕ) where
  -- The file just marked is the one new mark whose prerequisites the loop still has to visit.
  marked_first :
      (s : Walk) (f : ℕ) (x : File)
      → get_elem? s.files f ≡ some x
      → x.was_shuffled ≡ false
      → (fs : List File) → VisitsAll (mark mode entropy s f x).files (targets x.deps) fs
      → Visits s.files (some f) fs
  marked_first s f x e m fs (l, r, all_on) =
      let (k, less, on) = mark-Keeps mode entropy s f x e m in
      let b = (mark mode entropy s f x).files in
      let whole = Keeps-trans s.files b fs k l in
      (whole, new_marks whole, Keeps-IsMarked b fs (some f) l on)
    where
      new_marks : Keeps s.files fs → Reaches s.files fs
      new_marks whole g y z e' m' e'' m'' = go (get_cases g)
        where
          get_cases : (g : ℕ) → (f ≡ g) ⊎ (f ≢ g)
          get_cases g = ground arith

          go : (f ≡ g) ⊎ (f ≢ g) → AllMarked fs (targets z.deps)
          go (inl f=g) =
              let (z', at', _, same) = whole.kept f x e in
              let there : get_elem? fs f ≡ some z = ap (get_elem? fs) f=g ∙ e'' in
              let z'=z : z' ≡ z = cc in
              subst (AllMarked fs) (sym same ∙ ap (λ w. targets w.deps) z'=z) all_on
          go (inr f≠g) = r g y z (mark-other mode entropy s f g x f≠g ∙ e') m' e'' m''

  -- With more rounds of fuel than files without a mark, the walk from a file ends: it keeps the
  -- store, marks the file, and every file that it marks has all its prerequisites marked.
  pub shuffle_file_deps_recursive-Visits :
      (n : ℕ) (s : Walk) (t : Option ℕ)
      → IsClosed s.files
      → IsIn (length s.files) t
      → unmarked s.files < n
      → Returns (shuffle_file_deps_recursive mode entropy n s t) λ s'. Visits s.files t s'.files
  unfolding shuffle_file_deps_recursive
  shuffle_file_deps_recursive-Visits zero s t c i h = absurd (omega arith)
  shuffle_file_deps_recursive-Visits (suc n) s none c i h =
      (s, refl, (Keeps-refl s.files, Reaches-refl s.files, tt))
  shuffle_file_deps_recursive-Visits (suc n) s (some f) c i h =
      enter (get_elem?_total s.files f i) (shuffle_file_deps_recursive-Visits n)
    where
      Done : Type 0
      Done =
          Returns (shuffle_file_deps_recursive mode entropy (suc n) s (some f))
            λ s'. Visits s.files (some f) s'.files

      enter :
          ((x : File) × (get_elem? s.files f ≡ some x))
          → Visitor (shuffle_file_deps_recursive mode entropy n) n
          → Done
      enter (x, e) v = elim (Bool-cases x.was_shuffled) [
        | inl on ↦
            (s, rw (e, ◌>>=◌, on) refl, (Keeps-refl s.files, Reaches-refl s.files, (x, e, on)))
        | inr off ↦
            let (k, less, _) = mark-Keeps mode entropy s f x e off in
            let (s', run, all) =
              each_dep-VisitsAll (shuffle_file_deps_recursive mode entropy n) n v x.deps
                (mark mode entropy s f x) (Keeps-IsClosed s.files _ k c)
                (subst (λ m. AllIn m (targets x.deps)) (sym k.same_length) (c f x e))
                (omega arith) in
            (s', rw (e, ◌>>=◌, off) run, marked_first s f x e off s'.files all)
      ]

  goals-VisitsAll :
      (deps : List Dep) (s : Walk)
      → IsClosed s.files
      → AllIn (length s.files) (targets deps)
      → Returns
          (shuffle_goals mode entropy deps s)
          λ r. (targets r.0 ≡ targets deps) × VisitsAll s.files (targets deps) r.1.files
  unfolding shuffle_goals
  goals-VisitsAll deps s c i =
      let r = shuffle_deps mode entropy deps s.mk_state in
      let (s', run, all) =
        each_dep-VisitsAll (shuffle_file_deps_recursive mode entropy (length s.files + 1))
          (length s.files + 1) (shuffle_file_deps_recursive-Visits (length s.files + 1)) deps
          (record s { mk_state = r.1 }) c i (omega (arith, unmarked_bound s.files)) in
      ((r.0, s'), rw (run, ◌>>=◌) refl, (shuffle_deps-targets mode entropy deps s.mk_state, all))

  -- Where shuffling is asked for and allowed, it ends, cycles or not, on a store that has every
  -- prerequisite: the goals are the same files, all of them are marked, and every file that is newly
  -- marked has all its prerequisites marked; no list names other files than before.
  pub shuffle_deps_recursive-VisitsAll :
      (seed : ℕ) (deps : List Dep) (s : Walk)
      → is_none mode ≡ false
      → IsClosed s.files
      → AllIn (length s.files) (targets deps)
      → Returns
          (shuffle_deps_recursive mode entropy false seed deps s)
          λ r. (targets r.0 ≡ targets deps) × VisitsAll s.files (targets deps) r.1.files
  unfolding shuffle_deps_recursive
  shuffle_deps_recursive-VisitsAll seed deps s on c i = rw on (go mode)
    where
      go :
          (m : ShuffleMode)
          → Returns
              (shuffle_goals mode entropy deps (seeded m seed s))
              λ r. (targets r.0 ≡ targets deps) × VisitsAll s.files (targets deps) r.1.files
      go sm_random = goals-VisitsAll deps (seeded sm_random seed s) c i
      go sm_none = goals-VisitsAll deps s c i
      go sm_reverse = goals-VisitsAll deps s c i
      go sm_identity = goals-VisitsAll deps s c i
