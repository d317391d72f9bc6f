-- ===== src/Hash.antt =====
-- src/hash.c and the slot macros of src/hash.h: an open-addressing table with double hashing.
-- `ht_vec` is a list of slots, a pointer to a slot is its index, and `hash_deleted_item` is the
-- constructor `deleted`. A table whose search finds neither its key nor an empty slot loops in C;
-- here it runs out of fuel and gives `none`.
pub mod Cover
pub mod Chain
pub mod Scan
pub mod Count
pub mod Layout
pub mod Find
pub mod Stores
pub mod Rehash
pub mod Valid
pub mod Target
pub mod Insert
pub mod Delete
pub mod Laws
use make.Prelude.{
  ℕ, zero, suc, ◌+◌, ◌-◌, ◌*◌, ◌/◌, ◌%◌, ◌^◌, ◌≡◌, bit_and, bit_or, Bool, true, false, ◌||◌, Option,
  none, some, List, [], ◌∷◌, get_elem?, set, replicate, ltb, leb, ◌==◌, if◌then◌else◌, ◌>>=◌,
}
use mathlib.Core.List.{foldl}

-- What a client registers with `hash_init`. `compare a b` is the test `(*ht_compare) (a, b) == 0`,
-- `same` is equality of the pointers. The laws are what a hash table asks of its client.
pub record KeyFuncs {ℓ} (A : Type ℓ) : Type ℓ where
  pub hash_1 : A → ℕ
  pub hash_2 : A → ℕ
  pub compare : A → A → Bool
  pub same : A → A → Bool
  pub same_eq : (a b : A) → same a b ≡ true → a ≡ b
  pub compare_refl : (a : A) → compare a a ≡ true
  pub compare_symm : (a b : A) → compare a b ≡ true → compare b a ≡ true
  pub compare_trans : (a b c : A) → compare a b ≡ true → compare b c ≡ true → compare a c ≡ true
  pub hash_1-compare : (a b : A) → compare a b ≡ true → hash_1 a ≡ hash_1 b
  pub hash_2-compare : (a b : A) → compare a b ≡ true → hash_2 a ≡ hash_2 b

pub data Slot {ℓ} (A : Type ℓ) : Type ℓ where
  empty : Slot A
  deleted : Slot A
  item : A → Slot A

-- What `HASH_VACANT (slot) ? 0 : slot` returns.
abbrev pub content {ℓ} : {A : Type ℓ} → Slot A → Option A
content (item x) = some x
content _ = none

pub record HashTable {ℓ} (A : Type ℓ) : Type ℓ where
  pub vec : List (Slot A)
  pub size : ℕ
  pub capacity : ℕ
  pub fill : ℕ
  pub empty_slots : ℕ
  pub collisions : ℕ
  pub lookups : ℕ
  pub rehashes : ℕ

-- `unsigned int` and `unsigned long`
abbrev pub u32 : ℕ → ℕ
u32 x = x % 2 ^ 32

abbrev pub u64 : ℕ → ℕ
u64 x = x % 2 ^ 64

unfoldable pub round_up_2 : ℕ → ℕ
round_up_2 n₀ =
    let n₁ = bit_or n₀ (n₀ / 2 ^ 1) in
    let n₂ = bit_or n₁ (n₁ / 2 ^ 2) in
    let n₄ = bit_or n₂ (n₂ / 2 ^ 4) in
    let n₈ = bit_or n₄ (n₄ / 2 ^ 8) in
    let n₁₆ = bit_or n₈ (n₈ / 2 ^ 16) in let n₃₂ = bit_or n₁₆ (n₁₆ / 2 ^ 32) in u64 (n₃₂ + 1)

unfoldable pub hash_init {ℓ} : {A : Type ℓ} → ℕ → HashTable A
unfolding round_up_2
hash_init n =
    let size = round_up_2 n in
    record {
      vec = replicate size empty;
      size = size;
      capacity = size - size / 16;
      fill = 0;
      empty_slots = size;
      collisions = 0;
      lookups = 0;
      rehashes = 0;
    }

-- The two branches that `deleted_slot` decides.
abbrev pub first {ℓ} : {A : Type ℓ} → Option A → A → A
first (some d) i = d
first none i = i

module _ {ℓ} {A : Type ℓ} ⦃fns : KeyFuncs A⦄ where
  -- `if (!hash_2) hash_2 = (*ht->ht_hash_2) (key) | 1;`
  unfoldable pub increment : A → ℕ → ℕ
  increment key hash_2 = if hash_2 == 0 then u32 (bit_or (fns.hash_2 key) 1) else hash_2

  -- The `for (;;)` of `hash_find_slot`: the slot found and the count of collisions.
  unfoldable pub probe : ℕ → HashTable A → A → ℕ → ℕ → Option ℕ → ℕ → Option (ℕ × ℕ)
  probe zero t key hash_1 hash_2 deleted_slot collisions = none
  probe (suc fuel) t key hash_1 hash_2 deleted_slot collisions =
      let i = bit_and hash_1 (u64 (t.size + 2 ^ 64 - 1)) in
      let h₂ = increment key hash_2 in
      let past_deleted =
        probe fuel t key (u32 (i + h₂)) h₂ (some (first deleted_slot i)) collisions in
      let past_item = probe fuel t key (u32 (i + h₂)) h₂ deleted_slot (u64 (collisions + 1)) in
      elim (get_elem? t.vec i) [
        | none ↦ none
        | some empty ↦ some (first deleted_slot i, collisions)
        | some deleted ↦ past_deleted
        | some (item y) ↦
            if fns.same key y || fns.compare key y then some (i, collisions) else past_item
      ]

  -- The slot, and the table with its counters moved on.
  unfoldable pub hash_find_slot : HashTable A → A → Option (ℕ × HashTable A)
  unfolding probe increment
  hash_find_slot t key = elim (probe t.size t key (u32 (fns.hash_1 key)) 0 none t.collisions) [
    | none ↦ none
    | some (i, c) ↦ some (i, record t { lookups = u64 (t.lookups + 1); collisions = c })
  ]

  unfoldable pub hash_find_item : HashTable A → A → Option (Option A × HashTable A)
  hash_find_item t key = do
    (i, t') ← hash_find_slot t key
    s ← get_elem? t'.vec i
    some (content s, t')

  -- The loop of `hash_rehash` over the old vector.
  unfoldable pub reinsert : List (Slot A) → HashTable A → Option (HashTable A)
  reinsert [] t = some t
  reinsert (item x ∷ old) t = do
    (i, t') ← hash_find_slot t x
    reinsert old (record t' { vec = set t'.vec i (item x) })
  reinsert (_ ∷ old) t = reinsert old t

  -- `ht_size` and `ht_capacity` after the test at the head of `hash_rehash`.
  unfoldable pub grow : HashTable A → HashTable A
  grow t =
      if leb t.capacity t.fill
      then (let size = u64 (t.size * 2) in record t { size = size; capacity = size - size / 2 ^ 4 })
      else t

  unfoldable pub hash_rehash : HashTable A → Option (HashTable A)
  unfolding grow
  hash_rehash t = do
    let g = grow t
    r ← reinsert t.vec (record g { rehashes = u32 (g.rehashes + 1); vec = replicate g.size empty })
    some (record r { empty_slots = u64 (r.size + 2 ^ 64 - r.fill) })

  -- The bookkeeping of `hash_insert_at`, before its test of the load.
  unfoldable pub occupy : HashTable A → A → ℕ → Slot A → HashTable A
  occupy t x i (item y) = record t { vec = set t.vec i (item x) }
  occupy t x i deleted = record t { vec = set t.vec i (item x); fill = u64 (t.fill + 1) }
  occupy t x i empty = record t {
    vec = set t.vec i (item x);
    fill = u64 (t.fill + 1);
    empty_slots = u64 (t.empty_slots + 2 ^ 64 - 1);
  }

  unfoldable pub hash_insert_at : HashTable A → A → ℕ → Option (ℕ × HashTable A)
  hash_insert_at t x i = do
    old ← get_elem? t.vec i
    let t' = occupy t x i old
    let rehashed = hash_rehash t' >>= λ r. hash_find_slot r x
    if ltb t'.empty_slots (u64 (t'.size + 2 ^ 64 - t'.capacity)) then rehashed else some (i, t')

  unfoldable pub hash_insert : HashTable A → A → Option (Option A × HashTable A)
  hash_insert t x = do
    (i, t') ← hash_find_slot t x
    old ← get_elem? t'.vec i
    (j, r) ← hash_insert_at t' x i
    some (content old, r)

  unfoldable pub hash_delete_at : HashTable A → ℕ → Option (Option A × HashTable A)
  hash_delete_at t i = get_elem? t.vec i >>= elim [
    | item x ↦
        some (some x, record t { vec = set t.vec i deleted; fill = u64 (t.fill + 2 ^ 64 - 1) })
    | _ ↦ some (none, t)
  ]

  unfoldable pub hash_delete : HashTable A → A → Option (Option A × HashTable A)
  hash_delete t x = do (i, t') ← hash_find_slot t x; hash_delete_at t' i

  -- `item_table` as the list of its `cardinality` items.
  unfoldable pub hash_load : HashTable A → List A → Option (HashTable A)
  hash_load t [] = some t
  hash_load t (x ∷ xs) = do (_, t') ← hash_insert t x; hash_load t' xs

module _ {ℓ} {A : Type ℓ} where
  -- The items of the vector, in slot order.
  unfoldable pub items : List (Slot A) → List A
  items [] = []
  items (item x ∷ vec) = x ∷ items vec
  items (_ ∷ vec) = items vec

  -- `map` is any callback on a state of the caller's.
  unfoldable pub hash_map_arg {κ} : {S : Type κ} → (A → S → S) → HashTable A → S → S
  unfolding items
  hash_map_arg map t s = foldl (λ acc x. map x acc) s (items t.vec)

  -- `sort` stands for `qsort` with the caller's comparison, when one is given.
  unfoldable pub hash_dump : Option (List A → List A) → HashTable A → List A
  unfolding items
  hash_dump none t = items t.vec
  hash_dump (some sort) t = sort (items t.vec)

  unfoldable pub hash_free_items : HashTable A → HashTable A
  hash_free_items t = record t { vec = replicate t.size empty; fill = 0; empty_slots = t.size }

  unfoldable pub hash_delete_items : HashTable A → HashTable A
  hash_delete_items t = record t {
    vec = replicate t.size empty;
    fill = 0;
    collisions = 0;
    lookups = 0;
    rehashes = 0;
    empty_slots = t.size;
  }
