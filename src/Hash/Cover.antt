-- ===== src/Hash/Cover.antt =====
-- Why a search visits every slot: an odd step is prime to a table size that is a power of two.
use native.Mathlib.Nat.{two-pow-succ, mod-lt, mod-eq_of_lt, div-add-mod, add-mul-mod_self_left}
use make.Bits.{pow_pos}
use make.Prelude.{
  ℕ, zero, suc, ◌+◌, ◌*◌, ◌/◌, ◌%◌, ◌^◌, ◌≤◌, ◌<◌, ◌≡◌, sym, ap, ◌∙◌, ◌⊎◌, inl, inr, arith,
}

parity : (q : ℕ) → (q % 2 ≡ 0) ⊎ (q % 2 ≡ 1)
parity q = omega arith

-- The remainder by `p + p` of `p * q + r`: the parity of `q` chooses the half.
mod_halves : (p x q r : ℕ) → x ≡ p * q + r → r < p → x % (p + p) ≡ p * (q % 2) + r
mod_halves p x q r e low =
    let halves : q ≡ 2 * (q / 2) + q % 2 = omega arith in
    let whole : x ≡ p * (q % 2) + r + (p + p) * (q / 2) =
      omega (arith, e, ap (λ m. p * m) halves) in
    let small : p * (q % 2) + r < p + p = elim (parity q) [
      | inl z ↦ rw z (omega (arith, low))
      | inr o ↦ rw o (omega (arith, low))
    ] in
    ap (λ m. m % (p + p)) whole
    ∙ add-mul-mod_self_left (p * (q % 2) + r) (p + p) (q / 2)
    ∙ mod-eq_of_lt small

choose :
    (p u v w r : ℕ) {x y t : ℕ}
    → x ≡ p * u + r
    → y ≡ p * v + r
    → t ≡ p * w + r
    → u + v ≡ 1
    → w ≤ 1
    → (x ≡ t) ⊎ (y ≡ t)
choose p u v w r ex ey et one bit =
    let which : (u ≡ w) ⊎ (v ≡ w) = omega arith in
    elim which [ inl e ↦ inl (ex ∙ rw e (sym et)) | inr e ↦ inr (ey ∙ rw e (sym et)) ]

-- Of `x` and `x + p` one has the wanted remainder by `p + p`.
either_half :
    (p x t : ℕ) → 0 < p → t < p + p → x % p ≡ t % p → (x % (p + p) ≡ t) ⊎ ((x + p) % (p + p) ≡ t)
either_half p x t pos low e =
    let r = x % p in
    let rp : r < p = mod-lt x pos in
    let ex : p * (x / p) + r ≡ x = div-add-mod x p in
    let et : p * (t / p) + t % p ≡ t = div-add-mod t p in
    let half_x = mod_halves p x (x / p) r (sym ex) rp in
    let half_t = mod_halves p t (t / p) (t % p) (sym et) (mod-lt t pos) in
    let half_y = mod_halves p (x + p) (x / p + 1) r (omega (arith, ex)) rp in
    let same : t % (p + p) ≡ t = mod-eq_of_lt low in
    let q = x / p in
    let q' = t / p in
    choose p (q % 2) ((q + 1) % 2) (q' % 2) r half_x half_y (sym same ∙ rw (← e) at half_t)
      (omega arith) (omega arith)

-- `h, h + s, h + 2s, …` meets every remainder by `2 ^ k` in its first `2 ^ k` terms.
pub covers :
    (k h s t : ℕ) → s % 2 ≡ 1 → t < 2 ^ k → (n : ℕ) × (n < 2 ^ k) × ((h + n * s) % 2 ^ k ≡ t)
covers zero h s t odd low = (0, omega arith, omega arith)
covers (suc k) h s t odd low =
    let p = 2 ^ k in
    let pos : 0 < p = pow_pos k in
    let twice : 2 ^ suc k ≡ p + p = two-pow-succ k in
    let (n, below, meets) = covers k h s (t % p) odd (mod-lt t pos) in
    let x = h + n * s in
    let later : h + (n + p) * s ≡ x + p + (p + p) * (s / 2) =
      let e : s ≡ 2 * (s / 2) + 1 = omega arith in omega (arith, ap (λ m. p * m) e) in
    elim (either_half p x t pos (omega arith) meets) [
      | inl e ↦ (n, omega arith, rw twice e)
      | inr e ↦ (
        n + p,
        omega arith,
        rw twice (ap (λ m. m % (p + p)) later ∙ add-mul-mod_self_left (x + p) (p + p) (s / 2) ∙ e),
      )
    ]
