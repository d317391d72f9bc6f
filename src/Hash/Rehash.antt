-- ===== src/Hash/Rehash.antt =====
-- `hash_rehash`: the new vector holds the same items, and no deleted slot.
use make.Hash.Count.{empties, empties-set, items-set, items-empties-le}
use make.Hash.Find.{IsSearchable, IsFree, searched, hash_find_slot-Ends}
use make.Hash.Layout.{IsLaid, store-IsLaid}
use make.Hash.Stores.{Stores, Stores-cons, Stores-set, Stores-set_new, Stores-set_old}
use make.Hash.{KeyFuncs, Slot, empty, deleted, item, items, HashTable, reinsert}
use make.Prelude.{
  ℕ, suc, ◌+◌, ◌^◌, ◌≤◌, ◌<◌, ◌≡◌, ◌≢◌, ◌⊎◌, inl, inr, refl, sym, ap, ◌∙◌, subst, true, some, List,
  [], ◌∷◌, length, get_elem?, set, get_elem?_bound, length-set, ◌>>=◌, Returns, arith,
}

module _ {ℓ} {A : Type ℓ} ⦃fns : KeyFuncs A⦄ where
  abbrev pub AreApart : List (Slot A) → Type ℓ
  AreApart vec =
      (i j : ℕ) (x y : A)
      → get_elem? vec i ≡ some (item x)
      → get_elem? vec j ≡ some (item y)
      → fns.compare x y ≡ true
      → i ≡ j

  -- The table `t`, part way through the loop, with the slots `rest` still to be read.
  pub record IsRefilling (k : ℕ) (t : HashTable A) (rest : List (Slot A)) : Type ℓ where
    pub small : k ≤ 32
    pub wide : t.size ≡ 2 ^ k
    pub laid : IsLaid k t.vec
    pub total : length (items t.vec) + empties t.vec ≡ 2 ^ k
    pub fits : length (items t.vec) + length (items rest) < 2 ^ k
    pub apart : AreApart rest
    pub fresh : (y z : A) → Stores t.vec y → Stores rest z → fns.compare z y ≡ true → ⊥

  pub record IsRefilled (k : ℕ) (t : HashTable A) (rest : List (Slot A)) (r : HashTable A)
      : Type ℓ where
    pub laid : IsLaid k r.vec
    pub size : r.size ≡ t.size
    pub capacity : r.capacity ≡ t.capacity
    pub fill : r.fill ≡ t.fill
    pub total : length (items r.vec) + empties r.vec ≡ 2 ^ k
    pub count : length (items r.vec) ≡ length (items t.vec) + length (items rest)
    pub origin : (y : A) → Stores r.vec y → Stores t.vec y ⊎ Stores rest y
    pub keeps : (y : A) → Stores t.vec y → Stores r.vec y
    pub gains : (y : A) → Stores rest y → Stores r.vec y

  -- The state after one item has been written to the free slot that the search found.
  module _ (k : ℕ) (t : HashTable A) (x : A) (rest : List (Slot A))
      (now : IsRefilling k t (item x ∷ rest)) (r c : ℕ) (free : IsFree k t.vec x r) where
    stored : HashTable A
    stored = let t' = searched t c in record t' { vec = set t'.vec r (item x) }

    in_range : r < length t.vec
    in_range = elim (free.1) [
      | inl at ↦ get_elem?_bound t.vec r empty at
      | inr at ↦ get_elem?_bound t.vec r deleted at
    ]

    counts :
        (length (items (set t.vec r (item x))) ≡ length (items t.vec) + 1)
        × (length (items (set t.vec r (item x))) + empties (set t.vec r (item x)) ≡ 2 ^ k)
    unfolding items
    counts =
        let bound = items-empties-le (set t.vec r (item x)) in
        let width = length-set t.vec r (item x) ∙ now.laid.long in
        elim (free.1) [
          | inl at ↦
              let i = items-set t.vec r empty (item x) at in
              let e = empties-set t.vec r empty (item x) at in
              (omega (arith, i), omega (arith, i, e, now.total))
          | inr at ↦
              let i = items-set t.vec r deleted (item x) at in
              let e = empties-set t.vec r deleted (item x) at in
              (omega (arith, i), absurd (omega (arith, i, e, now.total, bound, width)))
        ]

    stored-IsRefilling : IsRefilling k stored rest
    unfolding stored items
    stored-IsRefilling = record {
      small = now.small;
      wide = now.wide;
      laid =
          store-IsLaid k t.vec now.laid r in_range x free.0
            (λ j y at same. absurd (free.2 j y at same));
      total = counts.1;
      fits = omega (arith, counts.0, now.fits);
      apart = λ i j y z p q same. omega (arith, now.apart (suc i) (suc j) y z p q same);
      fresh = λ y z p q same. elim (Stores-set t.vec r in_range x y p) [
        | inl e ↦
            let other : 0 ≡ suc q.0 =
              now.apart 0 (suc q.0) x z refl q.1
                (subst (λ w. fns.compare w z ≡ true) (sym e) (fns.compare_symm z y same)) in
            omega arith
        | inr old ↦ now.fresh y z old (suc q.0, q.1) same
      ];
    }

    stored-IsRefilled :
        (q : HashTable A) → IsRefilled k stored rest q → IsRefilled k t (item x ∷ rest) q
    unfolding stored items
    stored-IsRefilled q done = record {
      laid = done.laid;
      size = done.size;
      capacity = done.capacity;
      fill = done.fill;
      total = done.total;
      count = omega (arith, done.count, counts.0);
      origin = λ y p. elim (done.origin y p) [
        | inl a ↦ elim (Stores-set t.vec r in_range x y a) [
          | inl e ↦ inr (0, ap (λ z. some (item z)) e)
          | inr old ↦ inl old
        ]
        | inr b ↦ inr (suc b.0, b.1)
      ];
      keeps = λ y p. done.keeps y (Stores-set_old t.vec r in_range x y free.1 p);
      gains = λ y p. elim (Stores-cons (item x) rest y p) [
        | inl e ↦ done.keeps y (
            subst (λ z. Stores (set t.vec r (item x)) z) (item_eq e)
              (Stores-set_new t.vec r in_range x))
        | inr b ↦ done.gains y b
      ];
    }
      where
        item_eq : {y : A} → item x ≡ item y → x ≡ y
        item_eq e = cc

  refilling-IsSearchable :
      (k : ℕ) (t : HashTable A) (rest : List (Slot A)) → IsRefilling k t rest → IsSearchable k t
  refilling-IsSearchable k t rest now = record {
    small = now.small;
    wide = now.wide;
    laid = now.laid;
    hole = omega (arith, now.total, now.fits);
  }

  skip-IsRefilling :
      (k : ℕ) (t : HashTable A) (s : Slot A) (rest : List (Slot A))
      → length (items (s ∷ rest)) ≡ length (items rest)
      → IsRefilling k t (s ∷ rest)
      → IsRefilling k t rest
  skip-IsRefilling k t s rest e now = record {
    small = now.small;
    wide = now.wide;
    laid = now.laid;
    total = now.total;
    fits = omega (arith, now.fits);
    apart = λ i j y z p q same. omega (arith, now.apart (suc i) (suc j) y z p q same);
    fresh = λ y z p q same. now.fresh y z p (suc q.0, q.1) same;
  }

  skip-IsRefilled :
      (k : ℕ) (t r : HashTable A) (s : Slot A) (rest : List (Slot A))
      → length (items (s ∷ rest)) ≡ length (items rest)
      → ((y : A) → s ≢ item y)
      → IsRefilled k t rest r
      → IsRefilled k t (s ∷ rest) r
  skip-IsRefilled k t r s rest e vacant done = record {
    laid = done.laid;
    size = done.size;
    capacity = done.capacity;
    fill = done.fill;
    total = done.total;
    count = omega (arith, done.count);
    origin = λ y p. elim (done.origin y p) [ inl a ↦ inl a | inr b ↦ inr (suc b.0, b.1) ];
    keeps = done.keeps;
    gains = λ y p. elim (Stores-cons s rest y p) [
      | inl e ↦ absurd (vacant y e)
      | inr q ↦ done.gains y q
    ];
  }

  -- The loop ends, with every item of the old slots in the new vector and nothing else.
  pub reinsert-IsRefilled :
      (k : ℕ) (t : HashTable A) (rest : List (Slot A))
      → IsRefilling k t rest
      → Returns (reinsert rest t) (IsRefilled k t rest)
  unfolding reinsert items stored
  reinsert-IsRefilled k t [] now = (
    t,
    refl,
    record {
      laid = now.laid;
      size = refl;
      capacity = refl;
      fill = refl;
      total = now.total;
      count = omega arith;
      origin = λ y p. inl p;
      keeps = λ y p. p;
      gains = λ y p. absurd (cc (p.1));
    },
  )
  reinsert-IsRefilled k t (empty ∷ rest) now =
      let (r, run, done) =
        reinsert-IsRefilled k t rest (skip-IsRefilling k t empty rest refl now) in
      (r, run, skip-IsRefilled k t r empty rest refl (λ y e. cc) done)
  reinsert-IsRefilled k t (deleted ∷ rest) now =
      let (r, run, done) =
        reinsert-IsRefilled k t rest (skip-IsRefilling k t deleted rest refl now) in
      (r, run, skip-IsRefilled k t r deleted rest refl (λ y e. cc) done)
  reinsert-IsRefilled k t (item x ∷ rest) now =
      let ready = refilling-IsSearchable k t (item x ∷ rest) now in
      let (r, c, run, out) = hash_find_slot-Ends k t ready x in
      elim out [
        | inl (y, at, same) ↦ absurd (now.fresh y x (r, at) (0, refl) same)
        | inr free ↦
            let (q, run', done) =
              reinsert-IsRefilled k (stored k t x rest now r c free) rest
                (stored-IsRefilling k t x rest now r c free) in
            (q, rw (run, ◌>>=◌) run', stored-IsRefilled k t x rest now r c free q done)
      ]
