-- ===== src/Hash/Valid.antt =====
-- The invariant of a table between calls, and the insertions and deletions that keep it.
use make.Hash.Count.{empties, items-empties-le, empties-replicate, items-replicate}
use make.Hash.Find.{IsSearchable}
use make.Hash.Layout.{IsLaid}
use make.Hash.Rehash.{IsRefilling, reinsert-IsRefilled}
use make.Hash.Stores.{Stores}
use make.Hash.{KeyFuncs, Slot, empty, item, items, HashTable, u32, u64, grow, hash_rehash}
use native.Mathlib.Nat.{two-pow-succ, pow-le-pow_right}
use make.Prelude.{
  ℕ, suc, ◌+◌, ◌-◌, ◌/◌, ◌^◌, ◌≤◌, ◌<◌, ◌≡◌, inl, inr, refl, sym, ap, ◌∙◌, some, List, length,
  get_elem?, get_elem?_bound, replicate, length-replicate, get_elem?-replicate, ◌>>=◌, Returns, leb,
  Bool-cases, arith,
}

module _ {ℓ} {A : Type ℓ} ⦃fns : KeyFuncs A⦄ where
  -- The counters tell the truth, and a sixteenth of the slots is empty.
  pub record IsValid (k : ℕ) (t : HashTable A) : Type ℓ where
    pub small : k ≤ 32
    pub roomy : 16 ≤ 2 ^ k
    pub wide : t.size ≡ 2 ^ k
    pub laid : IsLaid k t.vec
    pub capacity : t.capacity ≡ t.size - t.size / 16
    pub fill : t.fill ≡ length (items t.vec)
    pub counted : t.empty_slots ≡ empties t.vec
    pub slack : t.size / 16 ≤ t.empty_slots

  pub valid-IsSearchable : (k : ℕ) (t : HashTable A) → IsValid k t → IsSearchable k t
  valid-IsSearchable k t v = record {
    small = v.small;
    wide = v.wide;
    laid = v.laid;
    hole = omega (arith, v.roomy, v.wide, v.counted, v.slack);
  }

  -- A table in need of `hash_rehash`: as a valid one, but for the slack.
  pub record IsTight (k : ℕ) (t : HashTable A) : Type ℓ where
    pub small : k ≤ 31
    pub roomy : 16 ≤ 2 ^ k
    pub wide : t.size ≡ 2 ^ k
    pub laid : IsLaid k t.vec
    pub capacity : t.capacity ≡ t.size - t.size / 16
    pub fill : t.fill ≡ length (items t.vec)

  pub no_item : (n : ℕ) {vec : List (Slot A)} → vec ≡ replicate n empty → (y : A) → Stores vec y → ⊥
  no_item n {vec} blank y (i, at) =
      let at' : get_elem? (replicate n empty) i ≡ some (item y) = rw blank at at in
      let low = get_elem?_bound (replicate n empty) i (item y) at' in
      let blank_i : get_elem? (replicate {A = Slot A} n empty) i ≡ some empty =
        get_elem?-replicate n i empty (rw (length-replicate n) at low) in
      cc

  -- A fresh vector of `2 ^ j` slots, about to take the items of `t`.
  fresh-IsRefilling :
      (k j : ℕ) (t g : HashTable A)
      → IsTight k t
      → j ≤ 32
      → g.size ≡ 2 ^ j
      → g.vec ≡ replicate (2 ^ j) empty
      → t.fill < 2 ^ j
      → IsRefilling j g t.vec
  fresh-IsRefilling k j t g v low wide blank room = record {
    small = low;
    wide = wide;
    laid = record {
      long = ap length blank ∙ length-replicate (2 ^ j) empty;
      placed = λ i y at. absurd (no_item _ blank y (i, at));
      distinct = λ i i' x y p q same. absurd (no_item _ blank x (i, p));
    };
    total = rw blank (rw (items-replicate A (2 ^ j), empties-replicate A (2 ^ j)) (omega arith));
    fits = rw blank (rw (items-replicate A (2 ^ j)) (omega (arith, v.fill, room)));
    apart = v.laid.distinct;
    fresh = λ y z p q same. no_item _ blank y p;
  }

  -- The two outcomes of the test at the head of `hash_rehash`, and the room that each gives.
  record IsGrown (j : ℕ) (t g : HashTable A) : Type ℓ where
    low : j ≤ 32
    roomy : 16 ≤ 2 ^ j
    wide : g.size ≡ 2 ^ j
    capacity : g.capacity ≡ g.size - g.size / 16
    fill : g.fill ≡ t.fill
    room : t.fill + 2 ^ j / 16 ≤ 2 ^ j

  grow-IsGrown : (k : ℕ) (t : HashTable A) → IsTight k t → (j : ℕ) × IsGrown j t (grow t)
  unfolding grow
  grow-IsGrown k t v =
      let bound : length (items t.vec) ≤ 2 ^ k =
        omega (arith, items-empties-le t.vec, v.laid.long) in
      let top : 2 ^ k ≤ 2 ^ 31 = pow-le-pow_right (omega arith) v.small in
      let twice : 2 ^ suc k ≡ 2 ^ k + 2 ^ k = two-pow-succ k in
      elim (Bool-cases (leb t.capacity t.fill)) [
        | inl full ↦ (
          suc k,
          rw full (record {
            low = omega (arith, v.small);
            roomy = omega (arith, v.roomy, twice);
            wide = omega (arith, v.wide, twice, top);
            capacity = omega arith;
            fill = refl;
            room = omega (arith, v.fill, bound, twice);
          }),
        )
        | inr spare ↦ (
          k,
          rw spare (record {
            low = omega (arith, v.small);
            roomy = v.roomy;
            wide = v.wide;
            capacity = v.capacity;
            fill = refl;
            room = ground (arith, v.wide, v.capacity);
          }),
        )
      ]

  -- Rehashing ends in a valid table that stores the same items.
  pub hash_rehash-IsValid :
      (k : ℕ) (t : HashTable A)
      → IsTight k t
      → Returns (hash_rehash t) λ r.
        ((j : ℕ) × IsValid j r)
        × ((y : A) → Stores r.vec y → Stores t.vec y)
        × ((y : A) → Stores t.vec y → Stores r.vec y)
  unfolding hash_rehash
  hash_rehash-IsValid k t v =
      let (j, g) = grow-IsGrown k t v in
      let base : HashTable A =
        let g = grow t in
        record g { rehashes = u32 (g.rehashes + 1); vec = replicate g.size empty } in
      let blank : base.vec ≡ replicate (2 ^ j) empty = ap (λ n. replicate n empty) g.wide in
      let none_yet : length (items base.vec) ≡ 0 =
        rw blank (ap length (items-replicate A (2 ^ j))) in
      let room : 1 ≤ 2 ^ j / 16 = omega (arith, g.roomy) in
      let (r, run, done) =
        reinsert-IsRefilled j base t.vec
          (fresh-IsRefilling k j t base v g.low g.wide blank (omega (arith, g.room, room))) in
      let stored : r.fill ≡ length (items r.vec) =
        omega (arith, done.fill, g.fill, v.fill, done.count, none_yet) in
      let wide : r.size ≡ 2 ^ j = done.size ∙ g.wide in
      let top : 2 ^ j ≤ 2 ^ 32 = pow-le-pow_right (omega arith) g.low in
      let left : u64 (r.size + 2 ^ 64 - r.fill) ≡ r.size - r.fill =
        omega (arith, wide, top, done.fill, g.fill, g.room, room) in
      (
        record r { empty_slots = u64 (r.size + 2 ^ 64 - r.fill) },
        rw (run, ◌>>=◌),
        (
          (
            j,
            record {
              small = g.low;
              roomy = g.roomy;
              wide = wide;
              laid = done.laid;
              capacity = done.capacity ∙ g.capacity ∙ ap (λ n. n - n / 16) (sym done.size);
              fill = stored;
              counted = omega (arith, left, stored, done.total, wide);
              slack = omega (arith, left, wide, done.fill, g.fill, g.room);
            },
          ),
          λ y p. elim (done.origin y p) [ inl q ↦ absurd (no_item _ blank y q) | inr q ↦ q ],
          done.gains,
        ),
      )
