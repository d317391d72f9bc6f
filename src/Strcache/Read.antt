-- ===== src/Strcache/Read.antt =====
-- C strings in memory that only grows at its end.
use make.Strcache.{c_string}
use make.Text.{Text}
use make.Prelude.{
  ℕ, zero, suc, ◌≡◌, refl, ap, false, Option, none, some, [], ◌∷◌, ◌++◌, ◌==◌, ◌>>=◌, length, take,
  drop, inl, inr, Bool-cases,
}

-- No byte is NUL.
abbrev pub NoNul : Text → Type 0
NoNul [] = Unit
NoNul (c ∷ t) = ((c == 0) ≡ false) × NoNul t

c_string-append : (t u r : Text) → c_string t ≡ some r → c_string (t ++ u) ≡ some r
unfolding c_string
c_string-append [] u r e = absurd cc
c_string-append (c ∷ t) u r e = elim (Bool-cases (c == 0)) [
  | inl nul ↦ let now : some [] ≡ some r = rw nul at e in rw nul now
  | inr byte ↦
      let later : (c_string t >>= λ s. some (c ∷ s)) ≡ some r = rw byte at e in
      rw byte (go (c_string t) refl later (c_string-append t u))
]
  where
    go :
        (o : Option Text)
        → c_string t ≡ o
        → (o >>= λ s. some (c ∷ s)) ≡ some r
        → ((s : Text) → c_string t ≡ some s → c_string (t ++ u) ≡ some s)
        → (c_string (t ++ u) >>= λ s. some (c ∷ s)) ≡ some r
    go none f e rec = absurd cc
    go (some s) f e rec = rw (rec s f) e

-- A string that starts in the memory is still there when the memory has grown.
pub c_string-drop :
    (o : ℕ) (t u r : Text) → c_string (drop o t) ≡ some r → c_string (drop o (t ++ u)) ≡ some r
unfolding c_string
c_string-drop zero t u r e = c_string-append t u r e
c_string-drop (suc o) [] u r e = absurd cc
c_string-drop (suc o) (c ∷ t) u r e = c_string-drop o t u r e

pub c_string_end : (t : Text) → NoNul t → c_string (t ++ 0 ∷ []) ≡ some t
unfolding c_string
c_string_end [] h = refl
c_string_end (c ∷ t) (n, h) = rw (n, c_string_end t h) refl

-- The string that has just been written.
pub c_string-written :
    (t s : Text) → NoNul s → c_string (drop (length t) (t ++ (s ++ 0 ∷ []))) ≡ some s
c_string-written [] s h = c_string_end s h
c_string-written (c ∷ t) s h = c_string-written t s h

pub take-length : (t : Text) → take (length t) t ≡ t
take-length [] = refl
take-length (c ∷ t) = ap (λ s. c ∷ s) (take-length t)
