-- ===== src/Hash/Delete.antt =====
-- `hash_delete`, and the calls that empty or list the whole table.
use native.Mathlib.Nat.{pow-le-pow_right}
use make.Hash.Count.{empties-set, items-set, items-empties-le}
use make.Hash.Find.{searched, hash_find_slot-Ends, Answers}
use make.Hash.Layout.{read_set, delete-IsLaid}
use make.Hash.Target.{IsTarget, located-IsTarget, target-Answers}
use make.Hash.Insert.{searched-IsValid}
use make.Hash.Valid.{IsValid, valid-IsSearchable}
use make.Hash.{
  KeyFuncs, Slot, empty, deleted, item, items, HashTable, u64, hash_delete_at, hash_delete,
}
use make.Prelude.{
  ℕ, ◌+◌, ◌-◌, ◌^◌, ◌≤◌, ◌<◌, ◌≡◌, inl, inr, sym, ap, ◌∙◌, true, false, Option, none, some, List,
  length, get_elem?, set, get_elem?_bound, ◌>>=◌, Returns, if◌then◌else◌, Bool-cases, arith,
}

module _ {ℓ} {A : Type ℓ} ⦃fns : KeyFuncs A⦄ where
  -- What `vec'` holds: nothing under the keys of `x`, elsewhere what `vec` holds.
  abbrev pub Removes : List (Slot A) → A → List (Slot A) → Type ℓ
  Removes vec x vec' =
      (q : A) (o : Option A)
      → Answers vec q o
      → Answers vec' q (if fns.compare q x then none else o)

  -- Nothing under the keys of `x`: the table need not change.
  absent-Removes : (vec : List (Slot A)) (x : A) → Answers vec x none → Removes vec x vec
  unfolding Answers
  absent-Removes vec x absent q o a = elim (Bool-cases (fns.compare q x)) [
    | inl e ↦ rw e λ j y at e'. absent j y at (fns.compare_trans x q y (fns.compare_symm q x e) e')
    | inr e ↦ rw e a
  ]

  module _ (k : ℕ) (vec : List (Slot A)) (x y : A) (r : ℕ)
      (target : IsTarget k vec x r (item y)) where
    low : r < length vec
    low = get_elem?_bound vec r (item y) target.at

    gone : (q : A) → fns.compare q x ≡ true → Answers (set vec r deleted) q none
    unfolding Answers
    gone q e j z at e' = elim (read_set vec r deleted j low) [
      | inl (_, v) ↦ cc
      | inr (ne, was) ↦
          ne (target.only j z (sym was ∙ at) (fns.compare_trans x q z (fns.compare_symm q x e) e'))
    ]

    other_key :
        (q : A) (o : Option A)
        → fns.compare q x ≡ false
        → Answers vec q o
        → Answers (set vec r deleted) q o
    unfolding Answers
    other_key q none ne absent = λ j z at e. elim (read_set vec r deleted j low) [
      | inl (_, v) ↦ cc
      | inr (_, was) ↦ absent j z (sym was ∙ at) e
    ]
    other_key q (some z) ne (j, at, e) = elim (read_set vec r deleted j low) [
      | inl (r=j, v) ↦
          let was : get_elem? vec r ≡ get_elem? vec j = ap (get_elem? vec) r=j in
          let y=z : item y ≡ item z = let a = target.at in cc in
          let hit = fns.compare_trans q z x e (fns.compare_symm x z (target.same z y=z)) in cc
      | inr (_, was) ↦ (j, was ∙ at, e)
    ]

    delete-Removes : Removes vec x (set vec r deleted)
    delete-Removes q o a = elim (Bool-cases (fns.compare q x)) [
      | inl e ↦ rw e (gone q e)
      | inr e ↦ rw e (other_key q o e a)
    ]

  abbrev Deletes : ℕ → HashTable A → A → Option A × HashTable A → Type ℓ
  Deletes k t x r = Answers t.vec x r.0 × IsValid k r.1 × Removes t.vec x r.1.vec

  delete_at :
      (k : ℕ) (t : HashTable A) (x : A) (r c : ℕ) (old : Slot A)
      → IsValid k t
      → IsTarget k t.vec x r old
      → Returns (hash_delete_at (searched t c) r) (Deletes k t x)
  unfolding hash_delete_at items
  delete_at k t x r c empty v target =
      let a = target-Answers k t.vec x r empty target in
      (
        (none, searched t c),
        rw (target.at, ◌>>=◌),
        (a, searched-IsValid k t c v, absent-Removes t.vec x a),
      )
  delete_at k t x r c deleted v target =
      let a = target-Answers k t.vec x r deleted target in
      (
        (none, searched t c),
        rw (target.at, ◌>>=◌),
        (a, searched-IsValid k t c v, absent-Removes t.vec x a),
      )
  delete_at k t x r c (item y) v target =
      let i = items-set t.vec r (item y) deleted target.at in
      let e = empties-set t.vec r (item y) deleted target.at in
      let top : 2 ^ k ≤ 2 ^ 32 = pow-le-pow_right (omega arith) v.small in
      let room = items-empties-le t.vec in
      (
        (
          some y,
          record (searched t c) { vec = set t.vec r deleted; fill = u64 (t.fill + 2 ^ 64 - 1) },
        ),
        rw (target.at, ◌>>=◌),
        (
          target-Answers k t.vec x r (item y) target,
          record {
            small = v.small;
            roomy = v.roomy;
            wide = v.wide;
            laid = delete-IsLaid k t.vec v.laid r (get_elem?_bound t.vec r (item y) target.at);
            capacity = v.capacity;
            fill = omega (arith, v.fill, i, room, top, v.laid.long);
            counted = omega (arith, v.counted, e);
            slack = v.slack;
          },
          delete-Removes k t.vec x y r target,
        ),
      )

  -- Deletion from a valid table ends: it returns what the table held under the key, and the new table
  -- is valid and holds nothing there, and elsewhere what it held before.
  pub hash_delete-Removes :
      (k : ℕ) (t : HashTable A) (x : A)
      → IsValid k t
      → Returns (hash_delete t x) λ r. Answers t.vec x r.0 × IsValid k r.1 × Removes t.vec x r.1.vec
  unfolding hash_delete
  hash_delete-Removes k t x v =
      let (r, c, run, out) = hash_find_slot-Ends k t (valid-IsSearchable k t v) x in
      let (old, target) = located-IsTarget k t.vec x r v.laid out in
      let (s, run', w) = delete_at k t x r c old v target in (s, rw (run, ◌>>=◌, run'), w)
