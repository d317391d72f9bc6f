-- ===== src/Rule/Chain.antt =====
-- The chain of pattern rules as pointers: distinct addresses, and a last rule that is the last.
use make.Rule.{Rule, Rules, set_next, next_of}
use make.Prelude.{
  ℕ, ◌≡◌, refl, ap, false, Option, none, some, List, [], ◌∷◌, ◌++◌, ◌==◌, ==_refl, arith,
}

-- No rule of the list stands at the address.
abbrev pub IsAbsent : ℕ → List Rule → Type 0
IsAbsent p [] = Unit
IsAbsent p (r ∷ rs) = ((r.address == p) ≡ false) × IsAbsent p rs

abbrev pub IsDistinct : List Rule → Type 0
IsDistinct [] = Unit
IsDistinct (r ∷ rs) = IsAbsent r.address rs × IsDistinct rs

-- The address of the last rule, `d` where there is none.
abbrev pub last_of : Option ℕ → List Rule → Option ℕ
last_of d [] = d
last_of d (r ∷ rs) = last_of (some r.address) rs

pub record IsLinked (s : Rules) : Type 0 where
  pub distinct : IsDistinct s.pattern_rules
  pub last : s.last_pattern_rule ≡ last_of none s.pattern_rules

flip_ne : (a b : ℕ) → (a == b) ≡ false → (b == a) ≡ false
flip_ne a b h = ground arith

pub last_of-append :
    (d : Option ℕ) (xs ys : List Rule) → last_of d (xs ++ ys) ≡ last_of (last_of d xs) ys
last_of-append d [] ys = refl
last_of-append d (x ∷ xs) ys = last_of-append (some x.address) xs ys

IsAbsent-append :
    (p : ℕ) (xs ys : List Rule) → IsAbsent p (xs ++ ys) → IsAbsent p xs × IsAbsent p ys
IsAbsent-append p [] ys h = (tt, h)
IsAbsent-append p (x ∷ xs) ys (n, h) = let (l, r) = IsAbsent-append p xs ys h in ((n, l), r)

pub append-IsAbsent :
    (p : ℕ) (xs ys : List Rule) → IsAbsent p xs → IsAbsent p ys → IsAbsent p (xs ++ ys)
append-IsAbsent p [] ys h k = k
append-IsAbsent p (x ∷ xs) ys (n, h) k = (n, append-IsAbsent p xs ys h k)

-- A last address is none of those that are absent.
pub last-ne :
    (q : ℕ) (x : Rule) (xs : List Rule) (p : ℕ)
    → (x.address == q) ≡ false
    → IsAbsent q xs
    → last_of (some x.address) xs ≡ some p
    → (q == p) ≡ false
last-ne q x [] p n h e = let x=p : x.address ≡ p = cc in rw (← x=p) (flip_ne x.address q n)
last-ne q x (y ∷ xs) p n (m, h) e = last-ne q y xs p m h e

-- Cutting the list behind the last rule of a part.
pub set_next-last :
    (x : Rule) (xs zs tail : List Rule) (p : ℕ)
    → IsDistinct (x ∷ xs)
    → last_of (some x.address) xs ≡ some p
    → set_next p tail (x ∷ xs ++ zs) ≡ x ∷ xs ++ tail
unfolding set_next
set_next-last x [] zs tail p h e = let x=p : x.address ≡ p = cc in rw (x=p, ==_refl p) refl
set_next-last x (y ∷ xs) zs tail p ((n, h), k) e =
    let other : (x.address == p) ≡ false = last-ne x.address y xs p n h e in
    rw other (ap (λ l. x ∷ l) (set_next-last y xs zs tail p k e))

pub next_of-middle :
    (r : Rule) (xs ys : List Rule) → IsAbsent r.address xs → next_of r.address (xs ++ r ∷ ys) ≡ ys
unfolding next_of
next_of-middle r [] ys h = rw (==_refl r.address) refl
next_of-middle r (x ∷ xs) ys (n, h) = rw n (next_of-middle r xs ys h)

pub IsDistinct-append : (xs ys : List Rule) → IsDistinct (xs ++ ys) → IsDistinct xs × IsDistinct ys
IsDistinct-append [] ys h = (tt, h)
IsDistinct-append (x ∷ xs) ys (n, h) =
    let (l, r) = IsDistinct-append xs ys h in (((IsAbsent-append x.address xs ys n).0, l), r)

-- A rule in the middle of a list of distinct ones.
pub middle-IsAbsent :
    (r : Rule) (xs ys : List Rule)
    → IsDistinct (xs ++ r ∷ ys)
    → IsAbsent r.address xs × IsAbsent r.address ys × IsDistinct (xs ++ ys)
middle-IsAbsent r [] ys (n, h) = (tt, n, h)
middle-IsAbsent r (x ∷ xs) ys (n, h) =
    let (l, m, k) = middle-IsAbsent r xs ys h in
    let (nx, (nr, ny)) = IsAbsent-append x.address xs (r ∷ ys) n in
    ((flip_ne r.address x.address nr, l), m, (append-IsAbsent x.address xs ys nx ny, k))
