-- ===== src/Hash/Target.antt =====
-- The slot that takes an item, and what storing it there does to the answers of the table.
use make.Hash.Chain.{Chain}
use make.Hash.Find.{IsFree, Answers}
use make.Hash.Layout.{read_set, step, home, step_congr, home_congr, IsLaid}
use make.Hash.Scan.{IsHit}
use make.Hash.Stores.{Stores}
use make.Hash.{KeyFuncs, Slot, empty, deleted, item, content}
use make.Prelude.{
  ℕ, ◌^◌, ◌<◌, ◌≡◌, ◌⊎◌, inl, inr, refl, sym, ap, ◌∙◌, subst, true, false, Option, none, some, List,
  length, get_elem?, set, get_elem?_bound, get_elem?-set_self, if◌then◌else◌, Bool-cases,
}

module _ {ℓ} {A : Type ℓ} ⦃fns : KeyFuncs A⦄ where
  -- The slot `r`, holding `old`, is the one for `x`.
  pub record IsTarget (k : ℕ) (vec : List (Slot A)) (x : A) (r : ℕ) (old : Slot A) : Type ℓ where
    pub at : get_elem? vec r ≡ some old
    pub chain : Chain vec (2 ^ k) (step x) r (home k x)
    pub only : (j : ℕ) (y : A) → get_elem? vec j ≡ some (item y) → fns.compare x y ≡ true → r ≡ j
    pub same : (y : A) → old ≡ item y → fns.compare x y ≡ true

  pub located-IsTarget :
      (k : ℕ) (vec : List (Slot A)) (x : A) (r : ℕ)
      → IsLaid k vec
      → IsHit vec x r ⊎ IsFree k vec x r
      → (old : Slot A) × IsTarget k vec x r old
  located-IsTarget k vec x r laid (inl (y, at, same)) = (
    item y,
    record {
      at = at;
      chain =
          let c = laid.placed r y at in
          let s = step_congr x y same in
          let h = home_congr k x y same in
          subst (λ m. Chain vec (2 ^ k) m r (home k x)) (sym s)
            (subst (λ m. Chain vec (2 ^ k) (step y) r m) (sym h) c);
      only = λ j z at' same'.
          laid.distinct r j y z at at' (fns.compare_trans y x z (fns.compare_symm x y same) same');
      same = λ z e. subst (λ w. fns.compare x w ≡ true) (item_eq z e) same;
    },
  )
    where
      item_eq : (z : A) → item y ≡ item z → y ≡ z
      item_eq z e = cc
  located-IsTarget k vec x r laid (inr (chain, inl at, none_has)) = (
    empty,
    record {
      at = at;
      chain = chain;
      only = λ j z at' same. absurd (none_has j z at' same);
      same = λ z e. cc;
    },
  )
  located-IsTarget k vec x r laid (inr (chain, inr at, none_has)) = (
    deleted,
    record {
      at = at;
      chain = chain;
      only = λ j z at' same. absurd (none_has j z at' same);
      same = λ z e. cc;
    },
  )

  -- What `vec'` holds: under the keys of `x` the item `x`, elsewhere what `vec` holds.
  abbrev pub Puts : List (Slot A) → A → List (Slot A) → Type ℓ
  Puts vec x vec' =
      (q : A) (o : Option A)
      → Answers vec q o
      → Answers vec' q (if fns.compare q x then some x else o)

  module _ (k : ℕ) (vec : List (Slot A)) (x : A) (r : ℕ) (old : Slot A)
      (target : IsTarget k vec x r old) where
    low : r < length vec
    low = get_elem?_bound vec r old target.at

    pub target-Answers : Answers vec x (content old)
    unfolding Answers
    target-Answers = go old target.at target.same target.only
      where
        go :
            (old : Slot A)
            → get_elem? vec r ≡ some old
            → ((y : A) → old ≡ item y → fns.compare x y ≡ true)
            → ((j : ℕ) (y : A) → get_elem? vec j ≡ some (item y) → fns.compare x y ≡ true → r ≡ j)
            → Answers vec x (content old)
        go (item y) at same only = (r, at, same y refl)
        go empty at same only = λ j y at' e. let k = ap (get_elem? vec) (only j y at' e) in cc
        go deleted at same only = λ j y at' e. let k = ap (get_elem? vec) (only j y at' e) in cc

    other_key :
        (q : A) (o : Option A)
        → fns.compare q x ≡ false
        → Answers vec q o
        → Answers (set vec r (item x)) q o
    unfolding Answers
    other_key q none ne absent = λ j y at e. elim (read_set vec r (item x) j low) [
      | inl (_, v) ↦
          let x=y : x ≡ y = cc in
          let hit : fns.compare q x ≡ true = subst (λ w. fns.compare q w ≡ true) (sym x=y) e in cc
      | inr (_, was) ↦ absent j y (sym was ∙ at) e
    ]
    other_key q (some y) ne (j, at, e) = elim (read_set vec r (item x) j low) [
      | inl (r=j, v) ↦
          let was : get_elem? vec r ≡ get_elem? vec j = ap (get_elem? vec) r=j in
          let old=y : old ≡ item y = let a = target.at in cc in
          let hit = fns.compare_trans q y x e (fns.compare_symm x y (target.same y old=y)) in cc
      | inr (_, was) ↦ (j, was ∙ at, e)
    ]

    pub store-Puts : Puts vec x (set vec r (item x))
    unfolding Answers
    store-Puts q o a = elim (Bool-cases (fns.compare q x)) [
      | inl e ↦ rw e (r, get_elem?-set_self vec r (item x) low, e)
      | inr e ↦ rw e (other_key q o e a)
    ]

  -- The same items under other slots give the same answers.
  pub Answers-transfer :
      (vec vec' : List (Slot A)) (q : A) (o : Option A)
      → ((y : A) → Stores vec' y → Stores vec y)
      → ((y : A) → Stores vec y → Stores vec' y)
      → Answers vec q o
      → Answers vec' q o
  unfolding Answers
  Answers-transfer vec vec' q none back forth absent =
      λ j y at e. let (i, at') = back y (j, at) in absent i y at' e
  Answers-transfer vec vec' q (some y) back forth (j, at, e) =
      let (i, at') = forth y (j, at) in (i, at', e)
