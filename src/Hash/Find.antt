-- ===== src/Hash/Find.antt =====
-- `hash_find_slot`, `hash_find_item` and `hash_delete` on a table that is laid out.
use make.Hash.Chain.{IsVacant, Chain}
use make.Hash.Count.{empties, find_empty}
use make.Hash.Cover.{covers}
use make.Hash.Layout.{step, home, step_odd, step_stable, step_congr, home_congr, IsLaid}
use make.Hash.Scan.{IsHit, IsAbsent, probe-Ends}
use make.Hash.{KeyFuncs, Slot, empty, item, HashTable, u32, u64, hash_find_slot, hash_find_item}
use make.Prelude.{
  ℕ, ◌+◌, ◌*◌, ◌%◌, ◌^◌, ◌≤◌, ◌<◌, ◌≡◌, ◌⊎◌, inl, inr, refl, sym, ap, ◌∙◌, subst, true, Option,
  none, some, List, get_elem?, ◌>>=◌,
}

module _ {ℓ} {A : Type ℓ} ⦃fns : KeyFuncs A⦄ where
  -- The table with its counters moved on, as a search leaves it.
  abbrev pub searched : HashTable A → ℕ → HashTable A
  searched t c = record t { lookups = u64 (t.lookups + 1); collisions = c }

  abbrev pub NoneHas : List (Slot A) → A → Type ℓ
  NoneHas vec key = (j : ℕ) (y : A) → get_elem? vec j ≡ some (item y) → fns.compare key y ≡ true → ⊥

  abbrev pub IsFree : ℕ → List (Slot A) → A → ℕ → Type ℓ
  IsFree k vec key r =
      Chain vec (2 ^ k) (step key) r (home k key) × IsVacant vec r × NoneHas vec key

  abbrev pub Located : ℕ → HashTable A → A → Type ℓ
  Located k t key =
      (r c : ℕ) × (hash_find_slot t key ≡ some (r, searched t c))
      × (IsHit t.vec key r ⊎ IsFree k t.vec key r)

  -- A table of `2 ^ k` slots with an empty one. The index arithmetic is in 32 bits, so `k ≤ 32`.
  pub record IsSearchable (k : ℕ) (t : HashTable A) : Type ℓ where
    pub small : k ≤ 32
    pub wide : t.size ≡ 2 ^ k
    pub laid : IsLaid k t.vec
    pub hole : 0 < empties t.vec

  module _ (k : ℕ) (t : HashTable A) (ready : IsSearchable k t) (key : A) where
    steps_to_hole :
        (m : ℕ) × (m < 2 ^ k)
        × (get_elem? t.vec ((u32 (fns.hash_1 key) + m * step key) % 2 ^ k) ≡ some empty)
    steps_to_hole =
        let (i, low, at) = find_empty t.vec ready.hole in
        let (m, below, meets) =
          covers k (u32 (fns.hash_1 key)) (step key) i (step_odd key) (rw ready.laid.long at low) in
        (m, below, ap (get_elem? t.vec) meets ∙ at)

    -- The search ends, at an item with the key or, if no slot has it, at a slot that may take it.
    pub hash_find_slot-Ends :
        (r c : ℕ) × (hash_find_slot t key ≡ some (r, searched t c))
        × (IsHit t.vec key r ⊎ IsFree k t.vec key r)
    unfolding hash_find_slot
    hash_find_slot-Ends =
        let (m, below, at) = steps_to_hole in
        let (r, run, out) =
          probe-Ends t key k (step key) ready.small ready.wide ready.laid.long t.size
            (u32 (fns.hash_1 key)) 0 none t.collisions m refl (step_stable key)
            (rw ready.wide below) at in
        (
          r.0,
          r.1,
          rw (run, hash_find_slot),
          elim out [
            | inl hit ↦ inl hit
            | inr (lands, absent) ↦ inr (lands.0, lands.1, everywhere absent)
          ],
        )
      where
        everywhere : IsAbsent t.vec (2 ^ k) (step key) key (home k key) → NoneHas t.vec key
        everywhere absent j y at same =
            let s=s : step y ≡ step key = sym (step_congr key y same) in
            let h=h : home k y ≡ home k key = sym (home_congr k key y same) in
            let chain : Chain t.vec (2 ^ k) (step key) j (home k y) =
              subst (λ s. Chain t.vec (2 ^ k) s j (home k y)) s=s (ready.laid.placed j y at) in
            absent j y at same (subst (λ h. Chain t.vec (2 ^ k) (step key) j h) h=h chain)

  -- What a table holds under a key: `o` is its item with the key, or nothing if there is none.
  unfoldable pub Answers : List (Slot A) → A → Option A → Type ℓ
  Answers vec key none = NoneHas vec key
  Answers vec key (some y) =
      (j : ℕ) × (get_elem? vec j ≡ some (item y)) × (fns.compare key y ≡ true)

  abbrev pub FindsItem : HashTable A → A → Type ℓ
  FindsItem t key =
      (o : Option A) × (c : ℕ) × (hash_find_item t key ≡ some (o, searched t c))
      × Answers t.vec key o

  -- The answer is determined: no two items of the table have one key.
  pub Answers-unique :
      (k : ℕ) (vec : List (Slot A)) (key : A) (o o' : Option A)
      → IsLaid k vec
      → Answers vec key o
      → Answers vec key o'
      → o ≡ o'
  unfolding Answers
  Answers-unique k vec key none none laid a b = refl
  Answers-unique k vec key none (some y) laid a (j, at, same) = absurd (a j y at same)
  Answers-unique k vec key (some x) none laid (i, at, same) b = absurd (b i x at same)
  Answers-unique k vec key (some x) (some y) laid (i, p, e) (j, q, e') =
      let i=j =
        laid.distinct i j x y p q (fns.compare_trans x key y (fns.compare_symm key x e) e') in
      let same : get_elem? vec i ≡ get_elem? vec j = ap (get_elem? vec) i=j in cc

  module _ (k : ℕ) (t : HashTable A) (ready : IsSearchable k t) (key : A) where
    -- On a table laid out for searching, `hash_find_item` ends, returns what the table holds under
    -- the key, and moves only counters.
    pub hash_find_item-Answers : FindsItem t key
    unfolding hash_find_item Answers
    hash_find_item-Answers = go (hash_find_slot-Ends k t ready key)
      where
        go : Located k t key → FindsItem t key
        go (r, c, run, inl (y, at, same)) =
            (some y, c, rw (run, ◌>>=◌, at, hash_find_item), (r, at, same))
        go (r, c, run, inr (_, inl at, none_has)) =
            (none, c, rw (run, ◌>>=◌, at, hash_find_item), none_has)
        go (r, c, run, inr (_, inr at, none_has)) =
            (none, c, rw (run, ◌>>=◌, at, hash_find_item), none_has)
