-- ===== src/Bits.antt =====
-- The masks of hash.c at variables: `x & (2^k - 1)` and `x | 1`.
use Prim.Native.Nat.{digits, bit_and-bitwise, bit_or-bitwise}
use native.Mathlib.Nat.{two-pow-succ, mod-lt, mod-eq_of_lt, div-add-mod, add-mul-mod_self_left}
use make.Prelude.{
  ℕ, zero, suc, ◌+◌, ◌-◌, ◌*◌, ◌/◌, ◌%◌, ◌^◌, ◌≤◌, ◌<◌, min, max, bit_and, bit_or, ◌≡◌, refl, ap,
  ◌∙◌, arith,
}

-- Both operations run the library's `digits` on a count that bounds the first argument.
module _ (rest : ℕ → ℕ) (op : ℕ → ℕ → ℕ) (stop : rest 0 ≡ 0) where
  enough : (n m a b : ℕ) → a ≤ n → a ≤ m → digits rest op n a b ≡ digits rest op m a b
  enough zero zero a b p q = refl
  enough zero (suc m) zero b p q = refl
  enough zero (suc m) (suc a) b p q = absurd (omega arith)
  enough (suc n) zero zero b p q = refl
  enough (suc n) zero (suc a) b p q = absurd (omega arith)
  enough (suc n) (suc m) zero b p q = refl
  enough (suc n) (suc m) (suc a) b p q =
      omega (arith, enough n m (suc a / 2) (b / 2) (omega arith) (omega arith))

and_enough :
    (n m a b : ℕ) → a ≤ n → a ≤ m → digits (λ y. zero) min n a b ≡ digits (λ y. zero) min m a b
and_enough = enough (λ y. zero) min refl

or_enough : (n m a b : ℕ) → a ≤ n → a ≤ m → digits (λ y. y) max n a b ≡ digits (λ y. y) max m a b
or_enough = enough (λ y. y) max refl

-- One binary digit at a time.
pub bit_and_digit : (a b : ℕ) → bit_and a b ≡ bit_and (a / 2) (b / 2) * 2 + min (a % 2) (b % 2)
bit_and_digit zero b = omega (arith, bit_and-bitwise 0 b, bit_and-bitwise 0 (b / 2))
bit_and_digit (suc a) b = omega (
  arith,
  bit_and-bitwise (suc a) b,
  bit_and-bitwise (suc a / 2) (b / 2),
  and_enough a (suc a / 2) (suc a / 2) (b / 2) (omega arith) (omega arith),
)

pub bit_or_digit : (a b : ℕ) → bit_or a b ≡ bit_or (a / 2) (b / 2) * 2 + max (a % 2) (b % 2)
bit_or_digit zero b = omega (arith, bit_or-bitwise 0 b, bit_or-bitwise 0 (b / 2))
bit_or_digit (suc a) b = omega (
  arith,
  bit_or-bitwise (suc a) b,
  bit_or-bitwise (suc a / 2) (b / 2),
  or_enough a (suc a / 2) (suc a / 2) (b / 2) (omega arith) (omega arith),
)

-- `x | 1` is odd.
pub bit_or-one_odd : (a : ℕ) → bit_or a 1 % 2 ≡ 1
bit_or-one_odd a = omega (arith, bit_or_digit a 1)

pub pow_pos : (k : ℕ) → 0 < 2 ^ k
pow_pos zero = omega arith
pow_pos (suc k) = omega (arith, pow_pos k, two-pow-succ k)

bit_and-zero_below : (n a : ℕ) → a ≤ n → bit_and a 0 ≡ 0
bit_and-zero_below n zero h = refl
bit_and-zero_below zero (suc a) h = absurd (omega arith)
bit_and-zero_below (suc n) (suc a) h =
    omega (arith, bit_and_digit (suc a) 0, bit_and-zero_below n (suc a / 2) (omega arith))

mod_double : (p a : ℕ) → 0 < p → a % (p + p) ≡ (a / 2) % p * 2 + a % 2
mod_double p a h =
    let r = (a / 2) % p in
    let q = a / 2 / p in
    let split : p * q + r ≡ a / 2 = div-add-mod (a / 2) p in
    let low : r < p = mod-lt (a / 2) h in
    let whole : a ≡ r * 2 + a % 2 + (p + p) * q = omega (arith, split) in
    ap (λ m. m % (p + p)) whole
    ∙ add-mul-mod_self_left (r * 2 + a % 2) (p + p) q
    ∙ mod-eq_of_lt (omega (arith, low))

-- `x & (2^k - 1)` is the remainder by `2^k`.
pub bit_and-mask : (k a : ℕ) → bit_and a (2 ^ k - 1) ≡ a % 2 ^ k
bit_and-mask zero a = omega (arith, bit_and-zero_below a a (omega arith))
bit_and-mask (suc k) a =
    let p = pow_pos k in
    let half : (2 ^ suc k - 1) / 2 ≡ 2 ^ k - 1 = omega (arith, p, two-pow-succ k) in
    let ones : (2 ^ suc k - 1) % 2 ≡ 1 = omega (arith, p, two-pow-succ k) in
    bit_and_digit a (2 ^ suc k - 1)
    ∙ rw (half, ones, bit_and-mask k (a / 2))
        (omega (arith, mod_double (2 ^ k) a p, ap (λ m. a % m) (two-pow-succ k)))
