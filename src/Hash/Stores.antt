-- ===== src/Hash/Stores.antt =====
-- What it means that an item is in the table, and what writing a slot does to it.
use make.Hash.Chain.{IsVacant}
use make.Hash.Layout.{read_set}
use make.Hash.{Slot, item}
use make.Prelude.{
  ℕ, zero, suc, ◌<◌, ◌≡◌, ◌⊎◌, inl, inr, sym, ap, ◌∙◌, some, List, ◌∷◌, length, get_elem?, set,
  get_elem?-set_self,
}

module _ {ℓ} {A : Type ℓ} where
  abbrev pub Stores : List (Slot A) → A → Type ℓ
  Stores vec y = (j : ℕ) × (get_elem? vec j ≡ some (item y))

  pub Stores-cons :
      (s : Slot A) (vec : List (Slot A)) (y : A) → Stores (s ∷ vec) y → (s ≡ item y) ⊎ Stores vec y
  Stores-cons s vec y (zero, at) = inl (cc)
  Stores-cons s vec y (suc j, at) = inr (j, at)

  module _ (vec : List (Slot A)) (r : ℕ) (low : r < length vec) (x : A) where
    pub Stores-set : (y : A) → Stores (set vec r (item x)) y → (x ≡ y) ⊎ Stores vec y
    Stores-set y (j, at) = elim (read_set vec r (item x) j low) [
      | inl (_, e) ↦ inl (cc)
      | inr (_, e) ↦ inr (j, sym e ∙ at)
    ]

    pub Stores-set_new : Stores (set vec r (item x)) x
    Stores-set_new = (r, get_elem?-set_self vec r (item x) low)

    -- What is overwritten is vacant: nothing is lost.
    pub Stores-set_old : (y : A) → IsVacant vec r → Stores vec y → Stores (set vec r (item x)) y
    Stores-set_old y free (j, at) = elim (read_set vec r (item x) j low) [
      | inl (e, _) ↦ absurd (clash free (ap (get_elem? vec) e ∙ at))
      | inr (_, e) ↦ (j, e ∙ at)
    ]
      where
        clash : IsVacant vec r → get_elem? vec r ≡ some (item y) → ⊥
        clash (inl e) at = cc
        clash (inr e) at = cc
