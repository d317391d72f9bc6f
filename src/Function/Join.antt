-- ===== src/Function/Join.antt =====
-- `func_join` and `func_strip`: loops over tokens that are not the plain one.
use make.Function.Lists.{join_loop, func_join}
use make.Text.Emit.{Output, unwords, spaced, unwords-spaced, drop_last-append}
use make.Text.Words.{words, Next, find_next_token-Next, token-next_token, rounds_pos}
use make.Text.{
  Text, next_token, token, end_of_token, cut_token, find_next_token, rounds, drop_last, kill_last,
}
use make.Prelude.{
  ℕ, zero, suc, ◌+◌, ◌≤◌, ◌≡◌, refl, sym, ap, ◌∙◌, Bool, true, false, Option, none, some, List, [],
  ◌∷◌, ◌++◌, append_assoc, append-nil, arith,
}

-- Words put together in pairs; the longer list keeps its rest.
unfoldable pub zip_words : List Text → List Text → List Text
zip_words [] vs = vs
zip_words (w ∷ ws) [] = w ∷ ws
zip_words (w ∷ ws) (v ∷ vs) = (w ++ v) ∷ zip_words ws vs

-- Every word and a space after it.
trailed : List Text → Text
trailed [] = []
trailed (w ∷ ws) = (w ++ 32 ∷ []) ++ trailed ws

any_of : List Text → Bool → Bool
any_of [] done = done
any_of (w ∷ ws) done = true

any_true : (ws : List Text) → any_of ws true ≡ true
unfolding any_of
any_true [] = refl
any_true (w ∷ ws) = refl

trailed-spaced : (w : Text) (ws : List Text) → trailed (w ∷ ws) ≡ (w ++ spaced ws) ++ 32 ∷ []
unfolding trailed spaced
trailed-spaced w [] = rw (append-nil, append-nil)
trailed-spaced w (v ∷ ws) = ap (λ t. (w ++ 32 ∷ []) ++ t) (trailed-spaced v ws) ∙ simp append_assoc

-- Taking the last space back leaves the words joined.
close : (o : Text) (ws : List Text) → kill_last (o ++ trailed ws, any_of ws false) ≡ o ++ unwords ws
unfolding kill_last any_of
close o [] = unfold trailed unwords in refl
close o (w ∷ ws) =
    ap (λ t. drop_last (o ++ t)) (trailed-spaced w ws)
    ∙ ap drop_last (sym (append_assoc o (w ++ spaced ws) (32 ∷ [])))
    ∙ drop_last-append (o ++ (w ++ spaced ws)) 32
    ∙ ap (λ t. o ++ t) (sym (unwords-spaced w ws))

zip_words-nil : (ws : List Text) → zip_words ws [] ≡ ws
unfolding zip_words
zip_words-nil [] = refl
zip_words-nil (w ∷ ws) = refl

-- The loop ends within its fuel, with every joined word and a space written.
join_loop-trailed :
    (fuel : ℕ) (a b o : Text) (done : Bool)
    → rounds a + rounds b ≤ fuel
    → join_loop fuel a b (o, done)
      ≡ (o ++ trailed (zip_words (words a) (words b)), any_of (zip_words (words a) (words b)) done)
unfolding zip_words trailed any_of join_loop
join_loop-trailed zero a b o done h = absurd (omega (arith, rounds_pos a))
join_loop-trailed (suc fuel) a b o done h =
    go (find_next_token a) (find_next_token b) refl refl (find_next_token-Next a)
      (find_next_token-Next b)
      (λ a' b' o' h'.
        join_loop-trailed fuel a' b' o' true h'
        ∙ ap (λ d. (o' ++ trailed (zip_words (words a') (words b')), d)) (any_true _))
  where
    Ends : ℕ → Text → Text → Text → Bool → Bool → Type 0
    Ends fuel a b o done done' =
        join_loop fuel a b (o, done) ≡ (o ++ trailed (zip_words (words a) (words b)), done')

    go :
        (tp pp : Option (Text × Text))
        → find_next_token a ≡ tp
        → find_next_token b ≡ pp
        → Next a tp
        → Next b pp
        → ((a' b' o' : Text) → rounds a' + rounds b' ≤ fuel → Ends fuel a' b' o' true true)
        → Ends (suc fuel) a b o done (any_of (zip_words (words a) (words b)) done)
    go none none e e' na nb rec = rw (na, nb, e, e', join_loop) (rw append-nil)
    go (some (w, ra)) none e e' na nb rec =
        rw (na.0, nb, e, e', join_loop)
          (rw e (
            rw (nb, zip_words-nil) at (rec ra b ((o ++ w) ++ 32 ∷ []) (omega (arith, na.1)))
            ∙ ap (λ t. (t, true)) (simp append_assoc)))
    go none (some (v, rb)) e e' na nb rec =
        rw (na, nb.0, e, e', join_loop)
          (rw (e, e')
            (rw (na) at (rec a rb ((o ++ v) ++ 32 ∷ []) (omega (arith, nb.1)))
              ∙ ap (λ t. (t, true)) (simp append_assoc)))
    go (some (w, ra)) (some (v, rb)) e e' na nb rec =
        rw (na.0, nb.0, e, e', join_loop)
          (rw e (
            rec ra rb (((o ++ w) ++ v) ++ 32 ∷ []) (omega (arith, na.1, nb.1))
            ∙ ap (λ t. (t, true)) (simp append_assoc)))

-- `$(join a,b)` puts the words of the two lists together in pairs, keeps what the longer list has
-- over, and joins the results by single spaces.
pub join-words : (o a b : Text) → func_join o a b ≡ o ++ unwords (zip_words (words a) (words b))
unfolding func_join
join-words o a b =
    ap kill_last (join_loop-trailed (rounds a + rounds b) a b o false (omega arith))
    ∙ close o (zip_words (words a) (words b))

-- `func_strip`: the word that the inner loop passes over; an empty one ends the loop.
strip_loop : ℕ → Text → Output → Output
strip_loop zero p s = s
strip_loop (suc fuel) [] s = s
strip_loop (suc fuel) (c ∷ p) (o, done) =
    let start = next_token (c ∷ p) in
    elim (token start) [
      | [] ↦ (o, done)
      | d ∷ w ↦ strip_loop fuel (end_of_token start) ((o ++ d ∷ w) ++ 32 ∷ [], true)
    ]

pub func_strip : Text → Text → Text
unfolding strip_loop
func_strip o text = kill_last (strip_loop (rounds text) text (o, false))

strip_loop-trailed :
    (fuel : ℕ) (p o : Text) (done : Bool)
    → rounds p ≤ fuel
    → strip_loop fuel p (o, done) ≡ (o ++ trailed (words p), any_of (words p) done)
unfolding strip_loop trailed any_of cut_token find_next_token
strip_loop-trailed zero p o done h = absurd (omega (arith, rounds_pos p))
strip_loop-trailed (suc fuel) [] o done h = unfold words in rw append-nil
strip_loop-trailed (suc fuel) (c ∷ p) o done h =
    go (next_token (c ∷ p)) refl (find_next_token-Next (c ∷ p)) (λ r o' h'.
      strip_loop-trailed fuel r o' true h' ∙ ap (λ d. (o' ++ trailed (words r), d)) (any_true _))
  where
    go :
        (t : Text)
        → next_token (c ∷ p) ≡ t
        → Next (c ∷ p) (find_next_token (c ∷ p))
        → ((r o' : Text)
            → rounds r ≤ fuel
            → strip_loop fuel r (o', true) ≡ (o' ++ trailed (words r), true))
        → strip_loop (suc fuel) (c ∷ p) (o, done)
          ≡ (o ++ trailed (words (c ∷ p)), any_of (words (c ∷ p)) done)
    go [] e n rec =
        let ws : words (c ∷ p) ≡ [] = rw (e, find_next_token) at n in
        rw (e, strip_loop, ws) (unfold token in rw append-nil)
    go (d ∷ s) e n rec =
        let n' : Next (c ∷ p) (cut_token (d ∷ s)) = rw (e, find_next_token) at n in
        let w = token-next_token (c ∷ p) d s e in
        rw (e, n'.0, w, strip_loop)
          (rw e (
            rec (end_of_token (d ∷ s)) ((o ++ d ∷ token s) ++ 32 ∷ []) (omega (arith, n'.1))
            ∙ ap (λ t. (t, true)) (simp append_assoc)))

-- `$(strip text)` is the words of the text joined by single spaces.
strip-words : (o text : Text) → func_strip o text ≡ o ++ unwords (words text)
unfolding func_strip
strip-words o text =
    ap kill_last (strip_loop-trailed (rounds text) text o false (omega arith))
    ∙ close o (words text)
