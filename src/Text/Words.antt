-- ===== src/Text/Words.antt =====
-- The words of a text, said without a scan, and that the token loops go through them.
use mathlib.Core.List.{foldl}
use make.Text.{
  Text, is_space, next_token, end_of_token, token, cut_token, find_next_token, each_token, rounds,
}
use make.Prelude.{
  ℕ, zero, suc, ◌≤◌, ◌<◌, ◌≡◌, inl, inr, refl, sym, ap, ◌∙◌, false, Option, none, some, List, [],
  ◌∷◌, ◌++◌, length, ◌+◌, if◌then◌else◌, Bool-cases, arith,
}

extend : ℕ → List Text → List Text
extend c [] = (c ∷ []) ∷ []
extend c (w ∷ ws) = (c ∷ w) ∷ ws

-- Put `c`, no space, before the text `s` with the words `ws`.
attach : ℕ → Text → List Text → List Text
unfolding extend
attach c [] ws = (c ∷ []) ∷ ws
attach c (d ∷ s) ws = if is_space d then (c ∷ []) ∷ ws else extend c ws

-- The maximal runs of bytes that are not space.
unfoldable pub words : Text → List Text
unfolding attach
words [] = []
words (c ∷ s) = let ws = words s in if is_space c then ws else attach c s ws

-- No text of the list is empty.
abbrev pub AreFull : List Text → Type 0
AreFull [] = Unit
AreFull ([] ∷ ws) = ⊥
AreFull ((c ∷ w) ∷ ws) = AreFull ws

attach-AreFull : (c : ℕ) (s : Text) (ws : List Text) → AreFull ws → AreFull (attach c s ws)
unfolding attach extend
attach-AreFull c [] ws h = h
attach-AreFull c (d ∷ s) [] h = elim (Bool-cases (is_space d)) [ inl e ↦ rw e h | inr e ↦ rw e h ]
attach-AreFull c (d ∷ s) ([] ∷ ws) h = absurd h
attach-AreFull c (d ∷ s) ((x ∷ w) ∷ ws) h = elim (Bool-cases (is_space d)) [
  | inl e ↦ rw e h
  | inr e ↦ rw e h
]

-- No word is empty.
pub words-AreFull : (s : Text) → AreFull (words s)
unfolding words
words-AreFull [] = tt
words-AreFull (c ∷ s) = elim (Bool-cases (is_space c)) [
  | inl e ↦ rw e (words-AreFull s)
  | inr e ↦ rw e (attach-AreFull c s (words s) (words-AreFull s))
]

words-token :
    (c : ℕ) (s : Text)
    → is_space c ≡ false
    → words (c ∷ s) ≡ token (c ∷ s) ∷ words (end_of_token (c ∷ s))
unfolding words token end_of_token
words-token c [] h = ground arith
words-token c (d ∷ s) h = elim (Bool-cases (is_space d)) [
  | inl e ↦ ground arith
  | inr e ↦ let ih = words-token d s e in ground arith
]

words-next_token : (s : Text) → words (next_token s) ≡ words s
unfolding words next_token
words-next_token [] = refl
words-next_token (c ∷ s) = ground (arith, words-next_token s)

pub next_token-le : (s : Text) → rounds (next_token s) ≤ rounds s
unfolding next_token
next_token-le [] = omega arith
next_token-le (c ∷ s) = ground (arith, next_token-le s)

pub next_token_head : (s : Text) (c : ℕ) (r : Text) → next_token s ≡ c ∷ r → is_space c ≡ false
unfolding next_token
next_token_head [] c r h = absurd (cc)
next_token_head (d ∷ s) c r h = ground (arith, next_token_head s c r)

end_of_token-le : (s : Text) → rounds (end_of_token s) ≤ rounds s
unfolding end_of_token
end_of_token-le [] = omega arith
end_of_token-le (c ∷ s) = ground (arith, end_of_token-le s)

pub end_of_token-lt :
    (c : ℕ) (s : Text) → is_space c ≡ false → rounds (end_of_token (c ∷ s)) ≤ rounds s
unfolding end_of_token
end_of_token-lt c s h = ground (arith, end_of_token-le s)

pub rounds_pos : (s : Text) → 0 < rounds s
rounds_pos [] = omega arith
rounds_pos (c ∷ s) = omega arith

pub rounds-append : (line rest : Text) → rounds (line ++ rest) ≡ length line + rounds rest
rounds-append [] rest = omega arith
rounds-append (c ∷ line) rest = omega (arith, rounds-append line rest)

-- Where the spaces end, a word begins.
pub token-next_token :
    (s : Text) (c : ℕ) (r : Text) → next_token s ≡ c ∷ r → token (c ∷ r) ≡ c ∷ token r
unfolding token
token-next_token s c r h = rw (next_token_head s c r h)

-- The first word and what follows it, or that there is none.
abbrev pub Next : Text → Option (Text × Text) → Type 0
Next s none = words s ≡ []
Next s (some (w, r)) = (words s ≡ w ∷ words r) × (rounds r < rounds s)

-- `find_next_token` takes the first of the words, and leaves a shorter text with the others.
pub find_next_token-Next : (s : Text) → Next s (find_next_token s)
unfolding find_next_token cut_token
find_next_token-Next s = go (next_token s) refl
  where
    go : (t : Text) → next_token s ≡ t → Next s (cut_token t)
    go [] e = sym (words-next_token s) ∙ rw e (unfold words in refl)
    go (c ∷ r) e =
        let ns = next_token_head s c r e in
        (
          sym (words-next_token s) ∙ rw e (words-token c r ns),
          omega (arith, end_of_token-lt c r ns, next_token-le s, ap rounds e),
        )

-- A token loop is a loop over the words.
pub each_token-words {ℓ} :
    {S : Type ℓ} (body : Text → S → S) (fuel : ℕ) (text : Text) (s : S)
    → rounds text ≤ fuel
    → each_token fuel body text s ≡ foldl (λ s w. body w s) s (words text)
unfolding each_token
each_token-words body zero text s h = absurd (omega (arith, rounds_pos text))
each_token-words {S} body (suc fuel) text s h =
    go (find_next_token text) refl (find_next_token-Next text) (each_token-words body fuel)
  where
    go :
        (t : Option (Text × Text))
        → find_next_token text ≡ t
        → Next text t
        → ((r : Text) (s : S)
            → rounds r ≤ fuel
            → each_token fuel body r s ≡ foldl (λ s w. body w s) s (words r))
        → each_token (suc fuel) body text s ≡ foldl (λ s w. body w s) s (words text)
    go none e ws rec = rw (e, ws, each_token)
    go (some (w, r)) e (ws, shorter) rec = rw (e, ws, each_token) (rec r (body w s) (omega arith))
