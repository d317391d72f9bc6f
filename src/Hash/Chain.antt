-- ===== src/Hash/Chain.antt =====
-- The slots that a search walks through, and the arithmetic of its index.
use native.Mathlib.Nat.{mod-add-mod, mod-mod_of_dvd, dvd_refl, dvd-mul_right_of_dvd, pow-suc}
use native.Mathlib.Nat.{pow-le-pow_right}
use Prim.Native.Nat.{◌∣◌}
use make.Bits.{pow_pos, bit_and-mask}
use make.Hash.{Slot, empty, deleted, u32, u64}
use make.Prelude.{
  ℕ, zero, suc, ◌+◌, ◌-◌, ◌*◌, ◌%◌, ◌^◌, ◌≤◌, ◌≡◌, ◌≢◌, ◌⊎◌, inl, inr, refl, sym, ap, ◌∙◌, bit_and,
  some, List, get_elem?, arith,
}

module _ {ℓ} {A : Type ℓ} where
  abbrev pub IsVacant : List (Slot A) → ℕ → Type ℓ
  IsVacant vec i = (get_elem? vec i ≡ some empty) ⊎ (get_elem? vec i ≡ some deleted)

  -- From slot `i`, in steps of `s` modulo `n`, the slots before `j` are not empty.
  pub data Chain (vec : List (Slot A)) (n s j : ℕ) : ℕ → Type ℓ where
    here : Chain vec n s j j
    next :
        {i : ℕ} → get_elem? vec i ≢ some empty → Chain vec n s j ((i + s) % n) → Chain vec n s j i

  pub Chain-inv :
      {vec : List (Slot A)} {n s j i : ℕ}
      → Chain vec n s j i
      → (j ≡ i) ⊎ ((get_elem? vec i ≢ some empty) × Chain vec n s j ((i + s) % n))
  Chain-inv here = inl refl
  Chain-inv (next used c) = inr (used, c)

  -- A chain stays one when no slot is emptied.
  pub Chain-mono :
      {vec : List (Slot A)} (vec' : List (Slot A)) {n s j i : ℕ}
      → ((m : ℕ) → get_elem? vec m ≢ some empty → get_elem? vec' m ≢ some empty)
      → Chain vec n s j i
      → Chain vec' n s j i
  Chain-mono vec' keep here = here
  Chain-mono vec' keep (next used c) = next (keep _ used) (Chain-mono vec' keep c)

pow_dvd : (k n : ℕ) → k ≤ n → 2 ^ k ∣ 2 ^ n
pow_dvd zero zero h = dvd_refl (2 ^ 0)
pow_dvd (suc k) zero h = absurd (omega arith)
pow_dvd k (suc n) h =
    let last : (k ≡ suc n) ⊎ (k ≤ n) = omega arith in
    elim last [
      | inl e ↦ rw e (dvd_refl (2 ^ suc n))
      | inr below ↦ rw pow-suc (dvd-mul_right_of_dvd (2 ^ k) (pow_dvd k n below) 2)
    ]

module _ (k : ℕ) (small : k ≤ 32) where
  pub pow_below : 2 ^ k ≤ 2 ^ 32
  pow_below = pow-le-pow_right (omega arith) small

  -- `hash_1 &= (ht_size - 1)` is a remainder.
  pub index_mod : (h : ℕ) → bit_and h (u64 (2 ^ k + 2 ^ 64 - 1)) ≡ h % 2 ^ k
  index_mod h =
      let mask : u64 (2 ^ k + 2 ^ 64 - 1) ≡ 2 ^ k - 1 = omega (arith, pow_pos k, pow_below) in
      rw mask (bit_and-mask k h)

  pub u32_mod : (h : ℕ) → u32 h % 2 ^ k ≡ h % 2 ^ k
  u32_mod h = mod-mod_of_dvd (2 ^ k) h (pow_dvd k 32 small)

  -- One round of the search is one step of the walk.
  pub step_mod : (h s m : ℕ) → (u32 (h % 2 ^ k + s) + m * s) % 2 ^ k ≡ (h + suc m * s) % 2 ^ k
  step_mod h s m =
      let p = 2 ^ k in
      sym (mod-add-mod (u32 (h % p + s)) p (m * s))
      ∙ ap (λ x. (x + m * s) % p) (u32_mod (h % p + s) ∙ mod-add-mod h p s)
      ∙ mod-add-mod (h + s) p (m * s)
      ∙ ap (λ x. x % p) (omega arith)
