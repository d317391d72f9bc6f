-- ===== src/Text/Emit.antt =====
-- The list functions of src/function.c write each result and a space, and take the last space back:
-- the output is the results joined by single spaces.
use mathlib.Core.List.{foldl}
use make.Text.Words.{words, each_token-words}
use make.Text.{Text, each_token, rounds, drop_last, kill_last}
use make.Prelude.{
  ℕ, ◌≡◌, refl, sym, ap, ◌∙◌, fun_ext, Bool, true, false, Option, none, some, List, [], ◌∷◌, ◌++◌,
  append_assoc, append-nil, arith,
}

-- The texts of a list with a space between each two.
unfoldable pub unwords : List Text → Text
unwords [] = []
unwords (w ∷ []) = w
unwords (w ∷ v ∷ ws) = w ++ 32 ∷ unwords (v ∷ ws)

abbrev pub Output : Type 0
Output = Text × Bool

-- One round: nothing, or a text and a space, with `doneany = 1`.
abbrev pub emit : (Text → Option Text) → Text → Output → Output
emit f w (o, done) = elim (f w) [ none ↦ (o, done) | some v ↦ ((o ++ v) ++ 32 ∷ [], true) ]

-- The results that are written.
unfoldable pub results : (Text → Option Text) → List Text → List Text
results f [] = []
results f (w ∷ ws) = let rest = results f ws in elim (f w) [ none ↦ rest | some v ↦ v ∷ rest ]

pub drop_last-append : (o : Text) (c : ℕ) → drop_last (o ++ c ∷ []) ≡ o
unfolding drop_last
drop_last-append [] c = refl
drop_last-append (x ∷ []) c = refl
drop_last-append (x ∷ y ∷ o) c = ap (λ t. x ∷ t) (drop_last-append (y ∷ o) c)

-- What the loop adds to the output, from its second round on.
unfoldable pub spaced : List Text → Text
spaced [] = []
spaced (w ∷ ws) = 32 ∷ w ++ spaced ws

pub unwords-spaced : (w : Text) (ws : List Text) → unwords (w ∷ ws) ≡ w ++ spaced ws
unfolding unwords spaced
unwords-spaced w [] = sym (append-nil w)
unwords-spaced w (v ∷ ws) = rw (unwords-spaced v ws)

-- After a first result `o` holds the text so far, and its space.
going :
    (f : Text → Option Text) (o : Text) (ws : List Text)
    → kill_last (foldl (λ s w. emit f w s) (o ++ 32 ∷ [], true) ws) ≡ o ++ spaced (results f ws)
unfolding kill_last results spaced
going f o [] = drop_last-append o 32 ∙ sym (append-nil o)
going f o (w ∷ ws) = go (f w) refl (λ o. going f o ws)
  where
    Goes : List Text → Text → List Text → Type 0
    Goes ws o rs = kill_last (foldl (λ s w. emit f w s) (o ++ 32 ∷ [], true) ws) ≡ o ++ spaced rs

    go :
        (r : Option Text)
        → f w ≡ r
        → ((o : Text) → Goes ws o (results f ws))
        → Goes (w ∷ ws) o (results f (w ∷ ws))
    go none e rec = rw (e, emit, results) (rec o)
    go (some v) e rec =
        rw (e, emit, results)
          (rec ((o ++ 32 ∷ []) ++ v)
            ∙ append_assoc (o ++ 32 ∷ []) v (spaced (results f ws))
            ∙ append_assoc o (32 ∷ []) (v ++ spaced (results f ws)))

starting :
    (f : Text → Option Text) (o : Text) (ws : List Text)
    → kill_last (foldl (λ s w. emit f w s) (o, false) ws) ≡ o ++ unwords (results f ws)
unfolding kill_last results unwords
starting f o [] = sym (append-nil o)
starting f o (w ∷ ws) = go (f w) refl (starting f o ws)
  where
    Starts : List Text → List Text → Type 0
    Starts ws rs = kill_last (foldl (λ s w. emit f w s) (o, false) ws) ≡ o ++ unwords rs

    go :
        (r : Option Text)
        → f w ≡ r
        → Starts ws (results f ws)
        → Starts (w ∷ ws) (results f (w ∷ ws))
    go none e rec = rw (e, emit, results) rec
    go (some v) e rec =
        rw (e, emit, results)
          (going f (o ++ v) ws
            ∙ append_assoc o v (spaced (results f ws))
            ∙ ap (λ t. o ++ t) (sym (unwords-spaced v (results f ws))))

-- A loop over the tokens whose round is `emit f` writes the results for the words, joined by spaces.
pub emit-unwords :
    (f : Text → Option Text) (body : Text → Output → Output) (o text : Text)
    → ((w : Text) (s : Output) → body w s ≡ emit f w s)
    → kill_last (each_token (rounds text) body text (o, false))
      ≡ o ++ unwords (results f (words text))
emit-unwords f body o text same =
    ap kill_last (each_token-words body (rounds text) text (o, false) (omega arith))
    ∙ ap (λ (b : Text → Output → Output). kill_last (foldl (λ s w. b w s) (o, false) (words text)))
        (fun_ext (λ w. fun_ext (λ s. same w s)))
    ∙ starting f o (words text)
