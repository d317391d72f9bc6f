-- ===== src/Shuffle/Order.antt =====
-- What the shufflers do to an array: nothing is lost or doubled, and the reverse one reverses.
use mathlib.Core.List.{Perm, perm-cons}
use mathlib.Core.List.Perm
use make.Shuffle.{
  ShuffleMode, sm_none, sm_random, sm_reverse, sm_identity, make_rand, swap, random_loop,
  random_shuffle_array, reverse_loop, reverse_shuffle_array, shuffler,
}
use make.Prelude.{
  ℕ, zero, suc, ◌+◌, ◌-◌, ◌/◌, ◌%◌, ◌≤◌, ◌<◌, ◌≡◌, ◌⊎◌, inl, inr, refl, sym, ap, ◌∙◌, subst, true,
  false, Option, none, some, List, [], ◌∷◌, length, length-set, get_elem?, get_elem?_total,
  get_elem?_bound, get_elem?-set_self, get_elem?-set_ne, set, ◌==◌, if◌then◌else◌, Bool-cases,
  arith,
}

middle :
    (n p : ℕ)
    → p < n
    → (p < n / 2) ⊎ ((n ≤ p + n / 2) ⊎ ((p ≡ n - 1 - p) × (n / 2 ≤ p) × (p + n / 2 < n)))
middle n p low = omega arith

module _ {ℓ} {A : Type ℓ} where
  -- The swap of two places that hold `t` and `u`.
  swap-set :
      (a : List A) (i j : ℕ) (t u : A)
      → get_elem? a i ≡ some t
      → get_elem? a j ≡ some u
      → swap a i j ≡ set (set a i u) j t
  unfolding swap
  swap-set a i j t u e e' = rw (e, e') refl

  replace-Perm :
      (a : List A) (i : ℕ) (t u : A) → get_elem? a i ≡ some t → Perm (t ∷ set a i u) (u ∷ a)
  replace-Perm [] i t u e = absurd (cc)
  replace-Perm (x ∷ a) zero t u e =
      let x=t : x ≡ t = cc in subst (λ y. Perm (t ∷ u ∷ a) (u ∷ y ∷ a)) (sym x=t) (Perm.swap u t a)
  replace-Perm (x ∷ a) (suc i) t u e =
      Perm.trans (Perm.swap x t (set a i u))
        (Perm.trans (Perm.cons x (replace-Perm a i t u e)) (Perm.swap u x a))

  still_there :
      (a : List A) (i j : ℕ) (u : A) → get_elem? a j ≡ some u → get_elem? (set a i u) j ≡ some u
  still_there a i j u e = elim (Bool-cases (i == j)) [
    | inl same ↦
        let i=j : i ≡ j = ground arith in
        subst (λ m. get_elem? (set a m u) j ≡ some u) (sym i=j)
          (get_elem?-set_self a j u (get_elem?_bound a j u e))
    | inr other ↦ get_elem?-set_ne a i j u (λ i=j. ground arith) ∙ e
  ]

  swap-Perm : (a : List A) (i j : ℕ) → i < length a → j < length a → Perm (swap a i j) a
  swap-Perm a i j low low' =
      let (t, e) = get_elem?_total a i low in
      let (u, e') = get_elem?_total a j low' in
      subst (λ b. Perm b a) (sym (swap-set a i j t u e e'))
        ((perm-cons u).0 (
          Perm.trans (replace-Perm (set a i u) j u t (still_there a i j u e'))
            (replace-Perm a i t u e)))

  pub swap-length : (a : List A) (i j : ℕ) → length (swap a i j) ≡ length a
  unfolding swap
  swap-length a i j = go (get_elem? a i) (get_elem? a j) refl refl
    where
      go : (x y : Option A) → get_elem? a i ≡ x → get_elem? a j ≡ y → length (swap a i j) ≡ length a
      go (some t) (some u) e e' = rw (e, e') (length-set (set a i u) j t ∙ length-set a i u)
      go none y e e' = rw (e) refl
      go (some t) none e e' = rw (e, e') refl

  random_loop-Perm :
      (entropy n i len : ℕ) (a : List A) (s : ℕ)
      → length a ≡ len
      → i + n ≤ len
      → Perm ((random_loop entropy n i len a s).0) a
  unfolding random_loop
  random_loop-Perm entropy zero i len a s e h = Perm.refl a
  random_loop-Perm entropy (suc n) i len a s e h =
      let rand = make_rand entropy s in
      let j = rand % len in
      let low : j < len = omega arith in
      elim (Bool-cases (i == j)) [
        | inl same ↦
            rw (same, random_loop) (random_loop-Perm entropy n (i + 1) len a rand e (omega arith))
        | inr other ↦
            rw (other, random_loop)
              (Perm.trans
                (random_loop-Perm entropy n (i + 1) len (swap a i j) rand (swap-length a i j ∙ e)
                  (omega arith))
                (swap-Perm a i j (omega arith) (omega arith)))
      ]

  pub reverse_loop-length : (n : ℕ) (a : List A) → length (reverse_loop n a) ≡ length a
  unfolding reverse_loop
  reverse_loop-length zero a = refl
  reverse_loop-length (suc n) a =
      swap-length (reverse_loop n a) n (length a - 1 - n) ∙ reverse_loop-length n a

  reverse_loop-Perm : (n : ℕ) (a : List A) → n ≤ length a / 2 → Perm (reverse_loop n a) a
  unfolding reverse_loop
  reverse_loop-Perm zero a h = Perm.refl a
  reverse_loop-Perm (suc n) a h =
      let long = reverse_loop-length n a in
      Perm.trans
        (swap-Perm (reverse_loop n a) n (length a - 1 - n) (omega (arith, long))
          (omega (arith, long)))
        (reverse_loop-Perm n a (omega arith))

  -- Every mode leaves an array of the same pointers, each as often as before.
  pub shuffler-Perm :
      (mode : ShuffleMode) (entropy : ℕ) (a : List A) (s : ℕ)
      → Perm ((shuffler mode entropy a s).0) a
  unfolding shuffler random_shuffle_array reverse_shuffle_array
  shuffler-Perm sm_none entropy a s = Perm.refl a
  shuffler-Perm sm_random entropy a s =
      random_loop-Perm entropy (length a) 0 (length a) a s refl (omega arith)
  shuffler-Perm sm_reverse entropy a s = reverse_loop-Perm (length a / 2) a (omega arith)
  shuffler-Perm sm_identity entropy a s = Perm.refl a

  swap-get :
      (a : List A) (i j p : ℕ)
      → i < length a
      → j < length a
      → get_elem? (swap a i j) p
        ≡ (if p == j then get_elem? a i else if p == i then get_elem? a j else get_elem? a p)
  swap-get a i j p low low' =
      let (t, e) = get_elem?_total a i low in
      let (u, e') = get_elem?_total a j low' in
      rw (swap-set a i j t u e e') (elim (Bool-cases (p == j)) [
        | inl at_j ↦
            let p=j : p ≡ j = ground arith in
            rw at_j (
              ap (get_elem? (set (set a i u) j t)) p=j
              ∙ get_elem?-set_self (set a i u) j t (omega (arith, length-set a i u))
              ∙ sym e)
        | inr not_j ↦ rw not_j (
            get_elem?-set_ne (set a i u) j p t (λ j=p. ground arith) ∙ elim (Bool-cases (p == i)) [
              | inl at_i ↦
                  let p=i : p ≡ i = ground arith in
                  rw at_i (ap (get_elem? (set a i u)) p=i ∙ get_elem?-set_self a i u low ∙ sym e')
              | inr not_i ↦ rw not_i (get_elem?-set_ne a i p u (λ i=p. ground arith))
            ])
      ])

  -- After `n` rounds the first and the last `n` places are mirrored.
  reverse_loop-get :
      (n : ℕ) (a : List A) (p : ℕ)
      → n ≤ length a / 2
      → p < length a
      → ((p < n) → get_elem? (reverse_loop n a) p ≡ get_elem? a (length a - 1 - p))
        × ((length a ≤ p + n) → get_elem? (reverse_loop n a) p ≡ get_elem? a (length a - 1 - p))
        × ((n ≤ p) → (p + n < length a) → get_elem? (reverse_loop n a) p ≡ get_elem? a p)
  unfolding reverse_loop
  reverse_loop-get zero a p h low =
      ((λ l. absurd (omega arith)), (λ l. absurd (omega arith)), (λ l l'. refl))
  reverse_loop-get (suc n) a p h low =
      let m = length a - 1 - n in
      let long = reverse_loop-length n a in
      let at_p = reverse_loop-get n a p (omega arith) low in
      let at_n = reverse_loop-get n a n (omega arith) (omega arith) in
      let at_m = reverse_loop-get n a m (omega arith) (omega arith) in
      let swapped = swap-get (reverse_loop n a) n m p (omega (arith, long)) (omega (arith, long)) in
      let value_n = at_n.2 (omega arith) (omega arith) in
      let value_m = at_m.2 (omega arith) (omega arith) in
      let mirror_n : (p == m) ≡ true
          → get_elem? (reverse_loop (suc n) a) p ≡ get_elem? a (length a - 1 - p) =
        λ e.
          let p=m : p ≡ m = ground arith in
          (rw e at swapped) ∙ value_n ∙ ap (get_elem? a) (omega arith) in
      let mirror_m : (p == m) ≡ false
          → (p == n) ≡ true
          → get_elem? (reverse_loop (suc n) a) p ≡ get_elem? a (length a - 1 - p) =
        λ e e'.
          let p=n : p ≡ n = ground arith in
          (rw (e, e') at swapped) ∙ value_m ∙ ap (get_elem? a) (omega arith) in
      let rest : (p == m) ≡ false
          → (p == n) ≡ false
          → get_elem? (reverse_loop (suc n) a) p ≡ get_elem? (reverse_loop n a) p =
        λ e e'. rw (e, e') at swapped in
      elim (Bool-cases (p == m)) [
        | inl e ↦ ((λ l. mirror_n e), (λ l. mirror_n e), (λ l l'. absurd (ground arith)))
        | inr e ↦ elim (Bool-cases (p == n)) [
          | inl e' ↦ ((λ l. mirror_m e e'), (λ l. mirror_m e e'), (λ l l'. absurd (ground arith)))
          | inr e' ↦ (
            (λ l. rest e e' ∙ at_p.0 (ground arith)),
            (λ l. rest e e' ∙ at_p.1 (ground arith)),
            (λ l l'. rest e e' ∙ at_p.2 (omega arith) (omega arith)),
          )
        ]
      ]

  -- `--shuffle=reverse` reads the array from its end: place `p` gets what stood at the mirrored
  -- place.
  pub reverse_shuffle_array-mirror :
      (a : List A) (p : ℕ)
      → p < length a
      → get_elem? (reverse_shuffle_array a) p ≡ get_elem? a (length a - 1 - p)
  unfolding reverse_shuffle_array
  reverse_shuffle_array-mirror a p low =
      let at = reverse_loop-get (length a / 2) a p (omega arith) low in
      elim (middle (length a) p low) [
        | inl l ↦ at.0 l
        | inr (inl l) ↦ at.1 l
        | inr (inr (same, l, l')) ↦ at.2 l l' ∙ ap (get_elem? a) same
      ]
