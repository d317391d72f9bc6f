-- ===== src/Hash/Layout.antt =====
-- Where the items of a table may lie, and that storing and deleting keep it so.
use native.Mathlib.Decide.{ℕ_discrete}
use make.Bits.{bit_or-one_odd}
use make.Hash.Chain.{Chain, Chain-mono}
use make.Hash.{KeyFuncs, Slot, empty, deleted, item, u32, increment}
use make.Prelude.{
  ℕ, ◌%◌, ◌^◌, ◌<◌, ◌≡◌, ◌≢◌, ◌⊎◌, inl, inr, sym, ap, ◌∙◌, subst, bit_or, true, some, List, length,
  get_elem?, set, get_elem?-set_self, get_elem?-set_ne, length-set, arith,
}

module _ {ℓ} {A : Type ℓ} where
  pub read_set :
      (vec : List (Slot A)) (r : ℕ) (v : Slot A) (j : ℕ)
      → r < length vec
      → ((r ≡ j) × (get_elem? (set vec r v) j ≡ some v))
        ⊎ ((r ≢ j) × (get_elem? (set vec r v) j ≡ get_elem? vec j))
  read_set vec r v j low = elim (ℕ_discrete r j) [
    | yes e ↦
        inl (e, subst (λ m. get_elem? (set vec r v) m ≡ some v) e (get_elem?-set_self vec r v low))
    | no ne ↦ inr (ne, get_elem?-set_ne vec r j v ne)
  ]

  -- Writing anything but `empty` empties no slot.
  keeps_used :
      (vec : List (Slot A)) (r : ℕ) (v : Slot A)
      → r < length vec
      → v ≢ empty
      → (m : ℕ) → get_elem? vec m ≢ some empty
      → get_elem? (set vec r v) m ≢ some empty
  keeps_used vec r v low used m h e = elim (read_set vec r v m low) [
    | inl (_, at) ↦ used (cc)
    | inr (_, at) ↦ h (sym at ∙ e)
  ]

module _ {ℓ} {A : Type ℓ} ⦃fns : KeyFuncs A⦄ where
  -- The step of a search for `x`, and the slot that it begins at.
  abbrev pub step : A → ℕ
  step x = increment x 0

  abbrev pub home : ℕ → A → ℕ
  home k x = u32 (fns.hash_1 x) % 2 ^ k

  pub step_odd : (x : A) → step x % 2 ≡ 1
  unfolding increment
  step_odd x = omega (arith, bit_or-one_odd (fns.hash_2 x))

  increment_set : (x : A) (h : ℕ) → h % 2 ≡ 1 → increment x h ≡ h
  unfolding increment
  increment_set x h odd = ground arith

  pub step_stable : (x : A) → increment x (step x) ≡ step x
  step_stable x = increment_set x (step x) (step_odd x)

  pub step_congr : (x y : A) → fns.compare x y ≡ true → step x ≡ step y
  unfolding increment
  step_congr x y same = ap (λ h. u32 (bit_or h 1)) (fns.hash_2-compare x y same)

  pub home_congr : (k : ℕ) (x y : A) → fns.compare x y ≡ true → home k x ≡ home k y
  home_congr k x y same = ap (λ h. u32 h % 2 ^ k) (fns.hash_1-compare x y same)

  pub record IsLaid (k : ℕ) (vec : List (Slot A)) : Type ℓ where
    pub long : length vec ≡ 2 ^ k
    -- a search for a stored item reaches it
    pub placed :
        (j : ℕ) (y : A) → get_elem? vec j ≡ some (item y) → Chain vec (2 ^ k) (step y) j (home k y)
    -- no two slots hold items with the same key
    pub distinct :
        (i j : ℕ) (x y : A)
        → get_elem? vec i ≡ some (item x)
        → get_elem? vec j ≡ some (item y)
        → fns.compare x y ≡ true
        → i ≡ j

  module _ (k : ℕ) (vec : List (Slot A)) (laid : IsLaid k vec) (r : ℕ) (low : r < length vec) where
    pub delete-IsLaid : IsLaid k (set vec r deleted)
    delete-IsLaid = record {
      long = length-set vec r deleted ∙ laid.long;
      placed = λ j y at.
          Chain-mono _ (keeps_used vec r deleted low (λ e. cc)) (laid.placed j y (was j y at));
      distinct = λ i j x y p q. laid.distinct i j x y (was i x p) (was j y q);
    }
      where
        was :
            (j : ℕ) (y : A)
            → get_elem? (set vec r deleted) j ≡ some (item y)
            → get_elem? vec j ≡ some (item y)
        was j y at = elim (read_set vec r deleted j low) [
          | inl (_, e) ↦ cc
          | inr (_, e) ↦ sym e ∙ at
        ]

    -- `x` may go to the end of its own chain, if no other slot has its key.
    pub store-IsLaid :
        (x : A)
        → Chain vec (2 ^ k) (step x) r (home k x)
        → ((j : ℕ) (y : A) → get_elem? vec j ≡ some (item y) → fns.compare x y ≡ true → r ≡ j)
        → IsLaid k (set vec r (item x))
    store-IsLaid x chain only = record {
      long = length-set vec r (item x) ∙ laid.long;
      placed = λ j y at. Chain-mono _ keep (reached j y (now j y at));
      distinct = λ i j y z p q same. unique i j y z (now i y p) (now j z q) same;
    }
      where
        keep :
            (m : ℕ) → get_elem? vec m ≢ some empty → get_elem? (set vec r (item x)) m ≢ some empty
        keep = keeps_used vec r (item x) low (λ e. cc)

        now :
            (j : ℕ) (y : A)
            → get_elem? (set vec r (item x)) j ≡ some (item y)
            → ((r ≡ j) × (x ≡ y)) ⊎ (get_elem? vec j ≡ some (item y))
        now j y at = elim (read_set vec r (item x) j low) [
          | inl (e, v) ↦ inl (e, cc)
          | inr (_, e) ↦ inr (sym e ∙ at)
        ]

        reached :
            (j : ℕ) (y : A)
            → ((r ≡ j) × (x ≡ y)) ⊎ (get_elem? vec j ≡ some (item y))
            → Chain vec (2 ^ k) (step y) j (home k y)
        reached j y (inl (e, v)) =
            subst (λ m. Chain vec (2 ^ k) (step y) m (home k y)) e
              (subst (λ z. Chain vec (2 ^ k) (step z) r (home k z)) v chain)
        reached j y (inr at) = laid.placed j y at

        unique :
            (i j : ℕ) (y z : A)
            → ((r ≡ i) × (x ≡ y)) ⊎ (get_elem? vec i ≡ some (item y))
            → ((r ≡ j) × (x ≡ z)) ⊎ (get_elem? vec j ≡ some (item z))
            → fns.compare y z ≡ true
            → i ≡ j
        unique i j y z (inl (e, _)) (inl (e', _)) same = sym e ∙ e'
        unique i j y z (inl (e, v)) (inr at) same =
            sym e ∙ only j z at (subst (λ w. fns.compare w z ≡ true) (sym v) same)
        unique i j y z (inr at) (inl (e, v)) same =
            sym (
              only i y at (fns.compare_symm y x (subst (λ w. fns.compare y w ≡ true) (sym v) same)))
            ∙ e
        unique i j y z (inr p) (inr q) same = laid.distinct i j y z p q same
