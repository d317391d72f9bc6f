-- ===== src/Hash/Count.antt =====
-- The counters `ht_fill` and `ht_empty_slots` against the slots that they count.
use make.Hash.{Slot, empty, deleted, item, items}
use make.Prelude.{
  ℕ, zero, suc, ◌+◌, ◌≤◌, ◌<◌, ◌≡◌, refl, some, List, [], ◌∷◌, length, get_elem?, set, replicate,
  arith,
}

module _ {ℓ} {A : Type ℓ} where
  abbrev pub empty_weight : Slot A → ℕ
  empty_weight empty = 1
  empty_weight _ = 0

  abbrev pub item_weight : Slot A → ℕ
  item_weight (item x) = 1
  item_weight _ = 0

  pub empties : List (Slot A) → ℕ
  empties [] = 0
  empties (s ∷ vec) = empty_weight s + empties vec

  pub empties-set :
      (vec : List (Slot A)) (i : ℕ) (old new : Slot A)
      → get_elem? vec i ≡ some old
      → empties (set vec i new) + empty_weight old ≡ empties vec + empty_weight new
  unfolding empties
  empties-set [] i old new h = absurd (cc)
  empties-set (s ∷ vec) zero old new h = ground arith
  empties-set (s ∷ vec) (suc i) old new h = omega (arith, empties-set vec i old new h)

  pub items-set :
      (vec : List (Slot A)) (i : ℕ) (old new : Slot A)
      → get_elem? vec i ≡ some old
      → length (items (set vec i new)) + item_weight old ≡ length (items vec) + item_weight new
  unfolding items
  items-set [] i old new h = absurd (cc)
  items-set (s ∷ vec) zero old new h = ground arith
  items-set (empty ∷ vec) (suc i) old new h = items-set vec i old new h
  items-set (deleted ∷ vec) (suc i) old new h = items-set vec i old new h
  items-set (item x ∷ vec) (suc i) old new h = omega (arith, items-set vec i old new h)

  -- A positive count names a slot.
  pub find_empty :
      (vec : List (Slot A))
      → 0 < empties vec
      → (i : ℕ) × (i < length vec) × (get_elem? vec i ≡ some empty)
  unfolding empties
  find_empty [] h = absurd (omega arith)
  find_empty (empty ∷ vec) h = (0, omega arith, refl)
  find_empty (deleted ∷ vec) h =
      let (i, low, at) = find_empty vec (omega arith) in (suc i, omega arith, at)
  find_empty (item x ∷ vec) h =
      let (i, low, at) = find_empty vec (omega arith) in (suc i, omega arith, at)

  -- Items and empty slots together fit in the vector.
  pub items-empties-le : (vec : List (Slot A)) → length (items vec) + empties vec ≤ length vec
  unfolding items empties
  items-empties-le [] = omega arith
  items-empties-le (empty ∷ vec) = omega (arith, items-empties-le vec)
  items-empties-le (deleted ∷ vec) = omega (arith, items-empties-le vec)
  items-empties-le (item x ∷ vec) = omega (arith, items-empties-le vec)

pub empties-replicate {ℓ} : (A : Type ℓ) (n : ℕ) → empties {A = A} (replicate n empty) ≡ n
unfolding empties
empties-replicate A zero = refl
empties-replicate A (suc n) = omega (arith, empties-replicate A n)

pub items-replicate {ℓ} : (A : Type ℓ) (n : ℕ) → items {A = A} (replicate n empty) ≡ []
unfolding items
items-replicate A zero = refl
items-replicate A (suc n) = items-replicate A n
