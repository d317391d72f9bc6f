-- ===== src/Tests/HashTable.antt =====
-- src/hash.c with small numbers for keys, compared and hashed by their last decimal digit.
use make.Hash.Find.{FindsItem, hash_find_item-Answers}
use make.Hash.Insert.{hash_insert-Puts}
use make.Hash.Valid.{IsValid, valid-IsSearchable}
use make.Hash.Laws.{find_item-insert, find_item-delete, hash_init-IsValid}
use make.Hash.{
  KeyFuncs, HashTable, round_up_2, hash_init, hash_find_slot, hash_find_item, hash_insert_at,
  hash_insert, hash_delete, hash_load, hash_dump, occupy,
}
use mathlib.Core.Option
use make.Prelude.{
  ℕ, ◌%◌, ◌^◌, ◌≡◌, refl, ap, true, Option, none, some, List, [], ◌∷◌, ◌==◌, if◌then◌else◌, ◌>>=◌,
  Returns, arith,
}

digit_same : (a b : ℕ) → (a == b) ≡ true → a ≡ b
digit_same a b h = ground arith

digit_refl : (a : ℕ) → (a % 10 == a % 10) ≡ true
digit_refl a = ground arith

digit_symm : (a b : ℕ) → (a % 10 == b % 10) ≡ true → (b % 10 == a % 10) ≡ true
digit_symm a b h = ground arith

digit_trans :
    (a b c : ℕ) → (a % 10 == b % 10) ≡ true → (b % 10 == c % 10) ≡ true → (a % 10 == c % 10) ≡ true
digit_trans a b c h h' = ground arith

digit_hash_1 : (a b : ℕ) → (a % 10 == b % 10) ≡ true → a % 10 ≡ b % 10
digit_hash_1 a b h = ground arith

digit_hash_2 : (a b : ℕ) → (a % 10 == b % 10) ≡ true → a % 10 % 4 ≡ b % 10 % 4
digit_hash_2 a b h = ap (λ m. m % 4) (digit_hash_1 a b h)

instance abbrev digit_keys : KeyFuncs ℕ
digit_keys = record {
  hash_1 = λ a. a % 10;
  hash_2 = λ a. a % 10 % 4;
  compare = λ a b. a % 10 == b % 10;
  same = λ a b. a == b;
  same_eq = digit_same;
  compare_refl = digit_refl;
  compare_symm = digit_symm;
  compare_trans = digit_trans;
  hash_1-compare = digit_hash_1;
  hash_2-compare = digit_hash_2;
}

abbrev blank : HashTable ℕ
blank = hash_init 13

size_16 : round_up_2 13 ≡ 2 ^ 4
unfolding round_up_2
size_16 = refl

blank-IsValid : IsValid 4 blank
blank-IsValid = (hash_init-IsValid 13 4 size_16 (omega arith) (omega arith)).0

-- A table that holds 27.
abbrev one : HashTable ℕ
one = (hash_insert-Puts 4 blank 27 blank-IsValid (omega arith)).0.1

abbrev one-width : ℕ
one-width = (hash_insert-Puts 4 blank 27 blank-IsValid (omega arith)).2.1.0

one-IsValid : IsValid one-width one
one-IsValid = (hash_insert-Puts 4 blank 27 blank-IsValid (omega arith)).2.1.1

find_item-insert_example :
    Returns (hash_insert blank 27 >>= λ r. hash_find_item r.1 57) λ s.
      Returns (hash_find_item blank 57) λ u. s.0 ≡ (if 57 % 10 == 27 % 10 then some 27 else u.0)
find_item-insert_example = find_item-insert 4 blank 27 57 blank-IsValid (omega arith)

find_item-delete_example :
    Returns
      (hash_delete one 7 >>= λ r. hash_find_item r.1 57)
      λ s. Returns (hash_find_item one 57) λ u. s.0 ≡ (if 57 % 10 == 7 % 10 then none else u.0)
find_item-delete_example = find_item-delete one-width one 7 57 one-IsValid

hash_find_item-Answers_example : FindsItem one 57
hash_find_item-Answers_example =
    hash_find_item-Answers one-width one (valid-IsSearchable one-width one one-IsValid) 57

-- 14 and 34 collide with 4; 4 and 14 and 34 have one key.
abbrev load : Option (HashTable ℕ)
load = hash_load blank (27 ∷ 4 ∷ 12 ∷ 34 ∷ [])

abbrev summary : HashTable ℕ → List ℕ × ℕ × ℕ
summary t = (hash_dump none t, t.fill, t.empty_slots)

dump_loaded : Option.map summary load ≡ some (12 ∷ 34 ∷ 27 ∷ [], 3, 13)
unfolding hash_init hash_find_slot hash_insert_at hash_insert occupy hash_load hash_dump
dump_loaded = refl

-- A power of two is doubled: 16 asked for, 32 given.
doubled : round_up_2 16 ≡ 32
unfolding round_up_2
doubled = refl
