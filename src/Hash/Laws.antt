-- ===== src/Hash/Laws.antt =====
-- The table as a map, call against call.
use native.Mathlib.Nat.{pow-le-pow_right}
use make.Hash.Count.{empties, empties-replicate, items-replicate}
use make.Hash.Delete.{hash_delete-Removes}
use make.Hash.Find.{searched, Answers, Answers-unique, hash_find_item-Answers}
use make.Hash.Insert.{hash_insert-Puts}
use make.Hash.Valid.{IsValid, valid-IsSearchable, no_item}
use make.Hash.{
  KeyFuncs, Slot, empty, items, HashTable, round_up_2, hash_init, hash_find_item, hash_insert,
  hash_delete, hash_delete_items, hash_free_items,
}
use make.Prelude.{
  ℕ, ◌-◌, ◌/◌, ◌^◌, ◌≤◌, ◌≡◌, refl, sym, ap, ◌∙◌, none, some, List, length, replicate,
  length-replicate, ◌>>=◌, Returns, if◌then◌else◌, arith,
}

module _ {ℓ} {A : Type ℓ} ⦃fns : KeyFuncs A⦄ where
  -- On a valid table of at most 2^31 slots, a search after an insertion finds the inserted item under
  -- every key that compares equal to it, and under any other key what a search before the insertion
  -- finds; none of the calls runs on.
  pub find_item-insert :
      (k : ℕ) (t : HashTable A) (x q : A)
      → IsValid k t
      → k ≤ 31
      → Returns
          (hash_insert t x >>= λ r. hash_find_item r.1 q)
          λ s. Returns (hash_find_item t q) λ u. s.0 ≡ (if fns.compare q x then some x else u.0)
  find_item-insert k t x q v small =
      let (r, run, (_, (j, w), puts)) = hash_insert-Puts k t x v small in
      let (o, c, before, a) = hash_find_item-Answers k t (valid-IsSearchable k t v) q in
      let (o', c', after, b) = hash_find_item-Answers j r.1 (valid-IsSearchable j r.1 w) q in
      (
        (o', searched r.1 c'),
        rw (run, ◌>>=◌) after,
        ((o, searched t c), before, Answers-unique j r.1.vec q o' _ w.laid b (puts q o a)),
      )

  -- On a valid table, a search after a deletion finds nothing under the keys that compare equal to
  -- the deleted one, and under any other key what a search before the deletion finds; none of the
  -- calls runs on.
  pub find_item-delete :
      (k : ℕ) (t : HashTable A) (x q : A)
      → IsValid k t
      → Returns
          (hash_delete t x >>= λ r. hash_find_item r.1 q)
          λ s. Returns (hash_find_item t q) λ u. s.0 ≡ (if fns.compare q x then none else u.0)
  find_item-delete k t x q v =
      let (r, run, (_, w, removes)) = hash_delete-Removes k t x v in
      let (o, c, before, a) = hash_find_item-Answers k t (valid-IsSearchable k t v) q in
      let (o', c', after, b) = hash_find_item-Answers k r.1 (valid-IsSearchable k r.1 w) q in
      (
        (o', searched r.1 c'),
        rw (run, ◌>>=◌) after,
        ((o, searched t c), before, Answers-unique k r.1.vec q o' _ w.laid b (removes q o a)),
      )

  blank-IsValid :
      (k : ℕ) (t : HashTable A)
      → 16 ≤ 2 ^ k
      → k ≤ 32
      → t.size ≡ 2 ^ k
      → t.vec ≡ replicate (2 ^ k) empty
      → t.capacity ≡ t.size - t.size / 16
      → t.fill ≡ 0
      → t.empty_slots ≡ t.size
      → IsValid k t
  blank-IsValid k t roomy small wide blank capacity fill counted = record {
    small = small;
    roomy = roomy;
    wide = wide;
    laid = record {
      long = ap length blank ∙ length-replicate (2 ^ k) empty;
      placed = λ i y at. absurd (no_item _ blank y (i, at));
      distinct = λ i j x y p q same. absurd (no_item _ blank x (i, p));
    };
    capacity = capacity;
    fill =
        fill ∙ sym (ap (λ vec. length (items vec)) blank ∙ ap length (items-replicate A (2 ^ k)));
    counted = counted ∙ wide ∙ sym (ap empties blank ∙ empties-replicate A (2 ^ k));
    slack = omega arith;
  }

  blank-Answers :
      (n : ℕ) (vec : List (Slot A)) (q : A) → vec ≡ replicate n empty → Answers vec q none
  unfolding Answers
  blank-Answers n vec q blank j y at e = no_item n blank y (j, at)

  -- A new table whose size comes out between 16 and 2^32 slots is valid and holds nothing.
  pub hash_init-IsValid :
      (n k : ℕ)
      → round_up_2 n ≡ 2 ^ k
      → 4 ≤ k
      → k ≤ 32
      → let t : HashTable A = hash_init n in IsValid k t × ((q : A) → Answers t.vec q none)
  unfolding hash_init
  hash_init-IsValid n k e roomy small =
      let t : HashTable A = hash_init n in
      let blank : t.vec ≡ replicate (2 ^ k) empty = ap (λ m. replicate m empty) e in
      (
        blank-IsValid k t (pow-le-pow_right (omega arith) roomy) small e blank refl refl refl,
        λ q. blank-Answers (2 ^ k) t.vec q blank,
      )

  -- Both ways to empty a valid table leave a valid table that holds nothing.
  emptied-IsValid :
      (k : ℕ) (t : HashTable A)
      → IsValid k t
      → IsValid k (hash_delete_items t)
        × IsValid k (hash_free_items t)
        × ((q : A) → Answers (hash_delete_items t).vec q none)
        × ((q : A) → Answers (hash_free_items t).vec q none)
  unfolding hash_delete_items hash_free_items
  emptied-IsValid k t v =
      let blank : replicate {A = Slot A} t.size empty ≡ replicate (2 ^ k) empty =
        ap (λ n. replicate n empty) v.wide in
      (
        blank-IsValid k (hash_delete_items t) v.roomy v.small v.wide blank v.capacity refl refl,
        blank-IsValid k (hash_free_items t) v.roomy v.small v.wide blank v.capacity refl refl,
        λ q. blank-Answers (2 ^ k) (replicate t.size empty) q blank,
        λ q. blank-Answers (2 ^ k) (replicate t.size empty) q blank,
      )
