-- ===== src/Shuffle/Marks.antt =====
-- The marks `was_shuffled` on the store: what a walk keeps, and how many files it has still to mark.
use make.Shuffle.{
  ShuffleMode, Dep, File, Walk, write_back, shuffle_deps, mark, any_wait, shuffler, places,
}
use make.Prelude.{
  ℕ, zero, suc, ◌+◌, ◌≤◌, ◌<◌, ◌≡◌, ◌≢◌, inl, inr, refl, sym, ap, ◌∙◌, subst, true, false, Option,
  none, some, List, [], ◌∷◌, length, length-set, get_elem?, get_elem?_bound, get_elem?_total,
  get_elem?-set_self, get_elem?-set_ne, set, ◌==◌, if◌then◌else◌, Bool-cases, arith,
}

-- The files that a list of prerequisites names.
abbrev pub targets : List Dep → List (Option ℕ)
targets [] = []
targets (d ∷ ds) = d.file ∷ targets ds

write_back-targets : (ds : List Dep) (da : List ℕ) → targets (write_back ds da) ≡ targets ds
write_back-targets [] [] = refl
write_back-targets [] (p ∷ da) = refl
write_back-targets (d ∷ ds) [] = refl
write_back-targets (d ∷ ds) (p ∷ da) = ap (λ t. d.file ∷ t) (write_back-targets ds da)

-- Shuffling a list changes no prerequisite's file.
pub shuffle_deps-targets :
    (mode : ShuffleMode) (entropy : ℕ) (ds : List Dep) (s : ℕ)
    → targets ((shuffle_deps mode entropy ds s).0) ≡ targets ds
unfolding shuffle_deps
shuffle_deps-targets mode entropy [] s = refl
shuffle_deps-targets mode entropy (d ∷ ds) s = elim (Bool-cases (any_wait (d ∷ ds))) [
  | inl e ↦ rw e refl
  | inr e ↦ rw e (write_back-targets (d ∷ ds) ((shuffler mode entropy (places 0 (d ∷ ds)) s).0))
]

-- File `f` is in the store and marked; no file is.
abbrev pub IsMarked : List File → Option ℕ → Type 0
IsMarked fs none = Unit
IsMarked fs (some f) = (x : File) × (get_elem? fs f ≡ some x) × (x.was_shuffled ≡ true)

abbrev pub AllMarked : List File → List (Option ℕ) → Type 0
AllMarked fs [] = Unit
AllMarked fs (t ∷ ts) = IsMarked fs t × AllMarked fs ts

abbrev pub IsIn : ℕ → Option ℕ → Type 0
IsIn n none = Unit
IsIn n (some f) = f < n

abbrev pub AllIn : ℕ → List (Option ℕ) → Type 0
AllIn n [] = Unit
AllIn n (t ∷ ts) = IsIn n t × AllIn n ts

-- Every prerequisite's file is in the store.
abbrev pub IsClosed : List File → Type 0
IsClosed fs = (f : ℕ) (x : File) → get_elem? fs f ≡ some x → AllIn (length fs) (targets x.deps)

-- How many files have no mark.
abbrev pub unmarked : List File → ℕ
unmarked [] = 0
unmarked (x ∷ fs) = (if x.was_shuffled then 0 else 1) + unmarked fs

-- From `fs` to `fs'` no file or mark is lost, and every list of prerequisites names the same files.
pub record Keeps (fs fs' : List File) : Type 0 where
  pub same_length : length fs' ≡ length fs
  pub fewer : unmarked fs' ≤ unmarked fs
  pub kept :
      (f : ℕ) (x : File)
      → get_elem? fs f ≡ some x
      → (y : File) × (get_elem? fs' f ≡ some y)
        × (x.was_shuffled ≡ true → y.was_shuffled ≡ true)
        × (targets y.deps ≡ targets x.deps)

pub Keeps-refl : (fs : List File) → Keeps fs fs
Keeps-refl fs = record {
  same_length = refl;
  fewer = omega arith;
  kept = λ f x e. (x, e, (λ m. m), refl);
}

pub Keeps-trans : (a b c : List File) → Keeps a b → Keeps b c → Keeps a c
Keeps-trans a b c k l = record {
  same_length = l.same_length ∙ k.same_length;
  fewer = omega (arith, k.fewer, l.fewer);
  kept = λ f x e.
      let (y, e', m, t) = k.kept f x e in
      let (z, e'', m', t') = l.kept f y e' in (z, e'', (λ h. m' (m h)), t' ∙ t);
}

pub Keeps-IsMarked : (a b : List File) (t : Option ℕ) → Keeps a b → IsMarked a t → IsMarked b t
Keeps-IsMarked a b none k h = tt
Keeps-IsMarked a b (some f) k (x, e, m) = let (y, e', m', t) = k.kept f x e in (y, e', m' m)

pub Keeps-AllMarked :
    (a b : List File) (ts : List (Option ℕ)) → Keeps a b → AllMarked a ts → AllMarked b ts
Keeps-AllMarked a b [] k h = tt
Keeps-AllMarked a b (t ∷ ts) k (h, hs) = (Keeps-IsMarked a b t k h, Keeps-AllMarked a b ts k hs)

pub Keeps-IsClosed : (a b : List File) → Keeps a b → IsClosed a → IsClosed b
Keeps-IsClosed a b k c f y e =
    let (x, at) = get_elem?_total a f (omega (arith, get_elem?_bound b f y e, k.same_length)) in
    let (y', e', m, same) = k.kept f x at in
    let y'=y : y' ≡ y = cc in
    subst (λ n. AllIn n (targets y.deps)) (sym k.same_length)
      (subst (AllIn (length a)) (sym same ∙ ap (λ z. targets z.deps) y'=y) (c f x at))

unmarked-set :
    (fs : List File) (f : ℕ) (x : File) (ds : List Dep)
    → get_elem? fs f ≡ some x
    → x.was_shuffled ≡ false
    → suc (unmarked (set fs f (record { was_shuffled = true; deps = ds }))) ≡ unmarked fs
unmarked-set [] f x ds e m = absurd (cc)
unmarked-set (y ∷ fs) zero x ds e m =
    let y=x : y ≡ x = cc in
    let off : y.was_shuffled ≡ false = ap (λ z. z.was_shuffled) y=x ∙ m in rw off (omega arith)
unmarked-set (y ∷ fs) (suc f) x ds e m = omega (arith, unmarked-set fs f x ds e m)

-- Marking a file keeps the store, and leaves one file less to mark.
pub mark-Keeps :
    (mode : ShuffleMode) (entropy : ℕ) (s : Walk) (f : ℕ) (x : File)
    → get_elem? s.files f ≡ some x
    → x.was_shuffled ≡ false
    → Keeps s.files (mark mode entropy s f x).files
      × (unmarked (mark mode entropy s f x).files < unmarked s.files)
      × IsMarked (mark mode entropy s f x).files (some f)
unfolding mark
mark-Keeps mode entropy s f x e m =
    let ds = (shuffle_deps mode entropy x.deps s.mk_state).0 in
    let y : File = record { was_shuffled = true; deps = ds } in
    let one_less = unmarked-set s.files f x ds e m in
    let low = get_elem?_bound s.files f x e in
    (
      record {
        same_length = length-set s.files f y;
        fewer = omega (arith, one_less);
        kept = λ g z at. elim (Bool-cases (f == g)) [
          | inl same ↦
              let f=g : f ≡ g = ground arith in
              let x=z : x ≡ z = cc in
              (
                y,
                ap (get_elem? (set s.files f y)) (sym f=g) ∙ get_elem?-set_self s.files f y low,
                (λ h. refl),
                shuffle_deps-targets mode entropy x.deps s.mk_state ∙ ap (λ w. targets w.deps) x=z,
              )
          | inr other ↦
              (z, get_elem?-set_ne s.files f g y (λ f=g. ground arith) ∙ at, (λ h. h), refl)
        ];
      },
      omega (arith, one_less),
      (y, get_elem?-set_self s.files f y low, refl),
    )

-- Marking a file leaves every other one as it was.
pub mark-other :
    (mode : ShuffleMode) (entropy : ℕ) (s : Walk) (f g : ℕ) (x : File)
    → f ≢ g
    → get_elem? (mark mode entropy s f x).files g ≡ get_elem? s.files g
unfolding mark
mark-other mode entropy s f g x f≠g =
    get_elem?-set_ne s.files f g
      (record { was_shuffled = true; deps = (shuffle_deps mode entropy x.deps s.mk_state).0 }) f≠g

pub unmarked_bound : (fs : List File) → unmarked fs ≤ length fs
unmarked_bound [] = omega arith
unmarked_bound (x ∷ fs) = elim (Bool-cases x.was_shuffled) [
  | inl e ↦ rw e (omega (arith, unmarked_bound fs))
  | inr e ↦ rw e (omega (arith, unmarked_bound fs))
]
