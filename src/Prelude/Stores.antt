-- ===== src/Prelude/Stores.antt =====
-- A store: what stands at each address.
use Prim.Native.Nat.{ℕ}
use mathlib.Core.Bool.{false}
use mathlib.Core.Path.{◌≡◌, refl}
use make.Prelude.Tests.{◌==◌, ==_refl, if◌then◌else◌}

module _ {ℓ} {A : Type ℓ} where
  -- The store with `x` at the address.
  abbrev pub at : ℕ → A → (ℕ → A) → ℕ → A
  at a x f b = if b == a then x else f b

  pub at-other : (a b : ℕ) (x : A) (f : ℕ → A) → (b == a) ≡ false → at a x f b ≡ f b
  at-other a b x f e = rw e refl

  pub at-here : (a : ℕ) (x : A) (f : ℕ → A) → at a x f a ≡ x
  at-here a x f = rw (==_refl a) refl
