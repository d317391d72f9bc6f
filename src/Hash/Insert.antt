-- ===== src/Hash/Insert.antt =====
-- `hash_insert` as an update of the map that the table stands for.
use native.Mathlib.Nat.{pow-le-pow_right}
use make.Hash.Count.{empties, empties-set, items-set, items-empties-le}
use make.Hash.Find.{searched, hash_find_slot-Ends, Answers}
use make.Hash.Layout.{IsLaid, store-IsLaid}
use make.Hash.Target.{
  IsTarget, located-IsTarget, Puts, target-Answers, store-Puts, Answers-transfer,
}
use make.Hash.Valid.{IsValid, valid-IsSearchable, hash_rehash-IsValid}
use make.Hash.{
  KeyFuncs, Slot, empty, deleted, item, items, content, HashTable, u64, hash_find_slot, occupy,
  hash_rehash, hash_insert_at, hash_insert,
}
use make.Prelude.{
  ℕ, ◌+◌, ◌-◌, ◌/◌, ◌^◌, ◌≤◌, ◌<◌, ◌≡◌, inl, inr, Option, some, List, length, set, get_elem?_bound,
  length-set, ◌>>=◌, Returns, ltb, if◌then◌else◌, Bool-cases, arith,
}

module _ {ℓ} {A : Type ℓ} ⦃fns : KeyFuncs A⦄ where
  -- A table whose counters are true, whatever its slack.
  record IsCounted (k : ℕ) (t : HashTable A) : Type ℓ where
    wide : t.size ≡ 2 ^ k
    laid : IsLaid k t.vec
    capacity : t.capacity ≡ t.size - t.size / 16
    fill : t.fill ≡ length (items t.vec)
    counted : t.empty_slots ≡ empties t.vec

  module _ (k : ℕ) (t : HashTable A) (v : IsValid k t) (small : k ≤ 31) (x : A) (r c : ℕ) where
    top : 2 ^ k ≤ 2 ^ 31
    top = pow-le-pow_right (omega arith) small

    stored-IsCounted :
        (old : Slot A) → IsTarget k t.vec x r old → IsCounted k (occupy (searched t c) x r old)
    unfolding occupy items
    stored-IsCounted old target = go old target
      where
        within : (old : Slot A) → IsTarget k t.vec x r old → r < length t.vec
        within old target = get_elem?_bound t.vec r old target.at

        laid : (old : Slot A) → IsTarget k t.vec x r old → IsLaid k (set t.vec r (item x))
        laid old target =
            store-IsLaid k t.vec v.laid r (within old target) x target.chain target.only

        room : length (items (set t.vec r (item x))) + empties (set t.vec r (item x)) ≤ 2 ^ k
        room = omega (
          arith,
          items-empties-le (set t.vec r (item x)),
          length-set t.vec r (item x),
          v.laid.long,
        )

        go : (old : Slot A) → IsTarget k t.vec x r old → IsCounted k (occupy (searched t c) x r old)
        go empty target = record {
          wide = v.wide;
          laid = laid empty target;
          capacity = v.capacity;
          fill = omega (arith, v.fill, items-set t.vec r empty (item x) target.at, room, top);
          counted =
              omega (arith, v.counted, empties-set t.vec r empty (item x) target.at, room, top);
        }
        go deleted target = record {
          wide = v.wide;
          laid = laid deleted target;
          capacity = v.capacity;
          fill = omega (arith, v.fill, items-set t.vec r deleted (item x) target.at, room, top);
          counted = omega (arith, v.counted, empties-set t.vec r deleted (item x) target.at);
        }
        go (item y) target = record {
          wide = v.wide;
          laid = laid (item y) target;
          capacity = v.capacity;
          fill = omega (arith, v.fill, items-set t.vec r (item y) (item x) target.at);
          counted = omega (arith, v.counted, empties-set t.vec r (item y) (item x) target.at);
        }

    stored-Puts :
        (old : Slot A) → IsTarget k t.vec x r old → Puts t.vec x (occupy (searched t c) x r old).vec
    unfolding occupy
    stored-Puts empty target = store-Puts k t.vec x r empty target
    stored-Puts deleted target = store-Puts k t.vec x r deleted target
    stored-Puts (item y) target = store-Puts k t.vec x r (item y) target

  pub searched-IsValid : (j : ℕ) (t : HashTable A) (c : ℕ) → IsValid j t → IsValid j (searched t c)
  searched-IsValid j t c v = record {
    small = v.small;
    roomy = v.roomy;
    wide = v.wide;
    laid = v.laid;
    capacity = v.capacity;
    fill = v.fill;
    counted = v.counted;
    slack = v.slack;
  }

  abbrev pub Keeps : List (Slot A) → List (Slot A) → Type ℓ
  Keeps vec vec' = (q : A) (o : Option A) → Answers vec q o → Answers vec' q o

  -- The end of `hash_insert_at`: rehashed or not, the table is valid and gives the same answers.
  settle :
      (k : ℕ) (t : HashTable A) (x : A) (i : ℕ)
      → IsCounted k t
      → k ≤ 31
      → 16 ≤ 2 ^ k
      → Returns
          (if ltb t.empty_slots (u64 (t.size + 2 ^ 64 - t.capacity))
            then hash_rehash t >>= (λ r. hash_find_slot r x)
            else some (i, t))
          λ s. ((j : ℕ) × IsValid j s.1) × Keeps t.vec s.1.vec
  settle k t x i n small roomy =
      let top : 2 ^ k ≤ 2 ^ 31 = pow-le-pow_right (omega arith) small in
      elim (Bool-cases (ltb t.empty_slots (u64 (t.size + 2 ^ 64 - t.capacity)))) [
        | inl tight ↦
            let (r, run, ((j, w), back, forth)) = hash_rehash-IsValid k t (record {
              small = small;
              roomy = roomy;
              wide = n.wide;
              laid = n.laid;
              capacity = n.capacity;
              fill = n.fill;
            }) in
            let (i', c, run', _) = hash_find_slot-Ends j r (valid-IsSearchable j r w) x in
            (
              (i', searched r c),
              rw (tight, run, ◌>>=◌) run',
              ((j, searched-IsValid j r c w), λ q o. Answers-transfer t.vec r.vec q o back forth),
            )
        | inr slack ↦ (
          (i, t),
          rw slack,
          (
            (
              k,
              record {
                small = omega (arith, small);
                roomy = roomy;
                wide = n.wide;
                laid = n.laid;
                capacity = n.capacity;
                fill = n.fill;
                counted = n.counted;
                slack = ground (arith, n.wide, n.capacity, top);
              },
            ),
            λ q o a. a,
          ),
        )
      ]

  hash_insert_at-Puts :
      (k : ℕ) (t : HashTable A) (v : IsValid k t) (small : k ≤ 31) (x : A) (r c : ℕ) (old : Slot A)
      → IsTarget k t.vec x r old
      → Returns
          (hash_insert_at (searched t c) x r)
          λ s. ((j : ℕ) × IsValid j s.1) × Puts t.vec x s.1.vec
  unfolding hash_insert_at
  hash_insert_at-Puts k t v small x r c old target =
      let t' = occupy (searched t c) x r old in
      let (s, run, (w, keeps)) =
        settle k t' x r (stored-IsCounted k t v small x r c old target) small v.roomy in
      (
        s,
        rw (target.at, ◌>>=◌) run,
        (w, λ q o a. keeps q _ (stored-Puts k t v small x r c old target q o a)),
      )

  -- Insertion into a valid table of at most 2^31 slots ends: it returns what the table held under the
  -- key, and the new table is valid and holds the item there, and elsewhere what it held before.
  pub hash_insert-Puts :
      (k : ℕ) (t : HashTable A) (x : A)
      → IsValid k t
      → k ≤ 31
      → Returns
          (hash_insert t x)
          λ r. Answers t.vec x r.0 × ((j : ℕ) × IsValid j r.1) × Puts t.vec x r.1.vec
  unfolding hash_insert
  hash_insert-Puts k t x v small =
      let (r, c, run, out) = hash_find_slot-Ends k t (valid-IsSearchable k t v) x in
      let (old, target) = located-IsTarget k t.vec x r v.laid out in
      let (s, run', (w, puts)) = hash_insert_at-Puts k t v small x r c old target in
      (
        (content old, s.1),
        rw (run, ◌>>=◌, target.at, run'),
        (target-Answers k t.vec x r old target, w, puts),
      )
