-- ===== src/Shuffle.antt =====
-- src/shuffle.c, with `make_seed` and `make_rand` of src/misc.c. An array of pointers is a list; the
-- `struct dep` that `shuf` points to is given by its place in its own list, and a `struct file` by
-- its place in the store.
pub mod Order
pub mod Deps
pub mod Marks
pub mod Visit
use make.Prelude.{
  ℕ, zero, suc, ◌+◌, ◌-◌, ◌*◌, ◌/◌, ◌%◌, ◌^◌, bit_xor, Bool, true, false, ◌||◌, Option, none, some,
  List, [], ◌∷◌, length, get_elem?, set, ◌==◌, if◌then◌else◌, ◌>>=◌,
}

pub data ShuffleMode : Type 0 where
  sm_none sm_random sm_reverse sm_identity : ShuffleMode

-- `mk_state` is seeded.
unfoldable pub make_seed : ℕ → ℕ
make_seed seed = seed

-- The new `mk_state`, which is also the result. `entropy` is `time (NULL) ^ make_pid ()`.
unfoldable pub make_rand : ℕ → ℕ → ℕ
make_rand entropy mk_state =
    let s₀ = if mk_state == 0 then (entropy + 1) % 2 ^ 32 else mk_state in
    let s₁ = bit_xor s₀ (s₀ * 2 ^ 13 % 2 ^ 32) in
    let s₂ = bit_xor s₁ (s₁ / 2 ^ 17) in bit_xor s₂ (s₂ * 2 ^ 5 % 2 ^ 32)

module _ {ℓ} {A : Type ℓ} where
  -- `t = a[i]; a[i] = a[j]; a[j] = t;`
  unfoldable pub swap : List A → ℕ → ℕ → List A
  swap a i j = exchange (get_elem? a i) (get_elem? a j)
    where
      exchange : Option A → Option A → List A
      exchange (some t) (some u) = set (set a i u) j t
      exchange _ _ = a

  -- The rounds of `random_shuffle_array` that are left, from index `i` on.
  unfoldable pub random_loop : ℕ → ℕ → ℕ → ℕ → List A → ℕ → List A × ℕ
  random_loop entropy zero i len a mk_state = (a, mk_state)
  random_loop entropy (suc n) i len a mk_state =
      let rand = make_rand entropy mk_state in
      let j = rand % len in
      random_loop entropy n (i + 1) len (if i == j then a else swap a i j) rand

  unfoldable pub random_shuffle_array : ℕ → List A → ℕ → List A × ℕ
  unfolding random_loop
  random_shuffle_array entropy a mk_state = random_loop entropy (length a) 0 (length a) a mk_state

  -- The rounds of `reverse_shuffle_array` up to index `n`.
  unfoldable pub reverse_loop : ℕ → List A → List A
  reverse_loop zero a = a
  reverse_loop (suc n) a = let b = reverse_loop n a in swap b n (length a - 1 - n)

  unfoldable pub reverse_shuffle_array : List A → List A
  unfolding reverse_loop
  reverse_shuffle_array a = reverse_loop (length a / 2) a

  abbrev pub identity_shuffle_array : List A → List A
  identity_shuffle_array a = a

  -- `config.shuffler`; in mode `sm_none` nothing calls it.
  unfoldable pub shuffler : ShuffleMode → ℕ → List A → ℕ → List A × ℕ
  unfolding random_shuffle_array reverse_shuffle_array
  shuffler sm_random entropy a mk_state = random_shuffle_array entropy a mk_state
  shuffler sm_reverse entropy a mk_state = (reverse_shuffle_array a, mk_state)
  shuffler sm_identity entropy a mk_state = (identity_shuffle_array a, mk_state)
  shuffler sm_none entropy a mk_state = (a, mk_state)

-- The fields of `struct dep` and of `struct file` that shuffling uses.
pub record Dep : Type 0 where
  pub file : Option ℕ
  pub wait_here : Bool
  pub shuf : Option ℕ

pub record File : Type 0 where
  pub was_shuffled : Bool
  pub deps : List Dep

abbrev pub any_wait : List Dep → Bool
any_wait [] = false
any_wait (d ∷ ds) = d.wait_here || any_wait ds

-- The array `da`, before it is shuffled.
abbrev pub places : ℕ → List Dep → List ℕ
places i [] = []
places i (d ∷ ds) = i ∷ places (i + 1) ds

-- `dep->shuf = *dp`
abbrev pub write_back : List Dep → List ℕ → List Dep
write_back (d ∷ ds) (p ∷ da) = record d { shuf = some p } ∷ write_back ds da
write_back ds _ = ds

unfoldable pub shuffle_deps : ShuffleMode → ℕ → List Dep → ℕ → List Dep × ℕ
unfolding shuffler
shuffle_deps mode entropy deps mk_state = if any_wait deps then (deps, mk_state) else shuffled deps
  where
    shuffled : List Dep → List Dep × ℕ
    shuffled [] = ([], mk_state)
    shuffled (d ∷ ds) =
        let r = shuffler mode entropy (places 0 (d ∷ ds)) mk_state in
        (write_back (d ∷ ds) (r.0), r.1)

-- All files, and the state of the random numbers.
pub record Walk : Type 0 where
  pub files : List File
  pub mk_state : ℕ

-- `make_seed (config.seed)`, in mode `sm_random`.
abbrev pub seeded : ShuffleMode → ℕ → Walk → Walk
seeded sm_random seed s = record s { mk_state = make_seed seed }
seeded _ seed s = s

abbrev pub is_none : ShuffleMode → Bool
is_none sm_none = true
is_none _ = false

-- The loop over `dep->next`.
unfoldable pub each_dep : (Walk → Option ℕ → Option Walk) → List Dep → Walk → Option Walk
each_dep visit [] s = some s
each_dep visit (d ∷ ds) s = visit s d.file >>= λ s'. each_dep visit ds s'

module _ (mode : ShuffleMode) (entropy : ℕ) where
  -- The store once file `f` is marked and its own list is shuffled.
  unfoldable pub mark : Walk → ℕ → File → Walk
  unfolding shuffle_deps
  mark s f x =
      let r = shuffle_deps mode entropy x.deps s.mk_state in
      record { files = set s.files f (record { was_shuffled = true; deps = r.0 }); mk_state = r.1 }

  -- On fuel; a file out of the store is no result.
  unfoldable pub shuffle_file_deps_recursive : ℕ → Walk → Option ℕ → Option Walk
  unfolding each_dep mark
  shuffle_file_deps_recursive zero s f = none
  shuffle_file_deps_recursive (suc n) s none = some s
  shuffle_file_deps_recursive (suc n) s (some f) = get_elem? s.files f >>= λ x.
      if x.was_shuffled
      then some s
      else each_dep (shuffle_file_deps_recursive n) x.deps (mark s f x)

  -- The goals first, then every file reachable from them; the fuel is one more than the files.
  unfoldable pub shuffle_goals : List Dep → Walk → Option (List Dep × Walk)
  unfolding each_dep shuffle_file_deps_recursive shuffle_deps
  shuffle_goals deps s =
      let r = shuffle_deps mode entropy deps s.mk_state in
      each_dep (shuffle_file_deps_recursive (length s.files + 1)) deps (record s { mk_state = r.1 })
      >>= λ s'. some (r.0, s')

  unfoldable pub shuffle_deps_recursive : Bool → ℕ → List Dep → Walk → Option (List Dep × Walk)
  unfolding shuffle_goals make_seed
  shuffle_deps_recursive not_parallel seed deps s =
      if is_none mode || not_parallel
      then some (deps, s)
      else shuffle_goals deps (seeded mode seed s)
