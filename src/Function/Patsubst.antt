-- ===== src/Function/Patsubst.antt =====
-- `patsubst_expand_pat`. A pattern with a `%` is the text before it and the text after it.
use make.Function.Subst.{subst_expand}
use make.Function.Pattern.{strneq}
use make.Text.Emit.{Output, emit, results, unwords, emit-unwords}
use make.Text.Words.{words, AreFull, words-AreFull}
use make.Text.{Text, each_token, rounds, kill_last}
use make.Prelude.{
  ℕ, zero, suc, ◌+◌, ◌-◌, ◌≡◌, refl, ap, Bool, true, false, not, ◌&&◌, ◌||◌, Option, none, some, [],
  ◌∷◌, ◌++◌, length, List, ◌∙◌, get_elem?, take, drop, append-nil, ltb, leb, if◌then◌else◌, ◌==◌,
  arith,
}

pub data Pattern : Type 0 where
  plain : Text → Pattern
  percent : Text → Text → Pattern

-- Two bytes in range that are the same.
abbrev pub same_byte : Option ℕ → Option ℕ → Bool
same_byte (some c) (some d) = c == d
same_byte _ _ = false

-- The test of the prefix; the byte before the `%` is `pattern_percent[-2]`.
unfoldable pub prefix_matches : Text → Text → Bool
prefix_matches [] t = true
prefix_matches (c ∷ pre) t =
    let n = length (c ∷ pre) in
    same_byte (get_elem? t 0) (some c)
    && (same_byte (get_elem? t (n - 1)) (get_elem? (c ∷ pre) (n - 1))
        && strneq (drop 1 t) pre (n - 1))

unfoldable pub suffix_matches : Text → Text → Bool
suffix_matches [] t = true
suffix_matches (c ∷ post) t =
    let n = length (c ∷ post) in
    let len = length t in
    same_byte (get_elem? t (len - 1)) (get_elem? (c ∷ post) (n - 1))
    && (same_byte (get_elem? t (len - n)) (some c) && strneq (drop (len - n) t) (c ∷ post) (n - 1))

-- `!fail`
unfoldable pub word_matches : Text → Text → Text → Bool
unfolding prefix_matches suffix_matches
word_matches pre post t =
    not (ltb (length t) (length pre + length post))
    && (prefix_matches pre t && suffix_matches post t)

-- What is written for a word that matches.
unfoldable pub replacement : Pattern → Text → Text → Text → Text
replacement (plain replace) pre post t = replace
replacement (percent before after) pre post t =
    (before ++ take (length t - (length pre + length post)) (drop (length pre) t)) ++ after

-- Whether a space follows it.
unfoldable pub spaced_out : Pattern → Text → Bool
spaced_out (plain replace) t = leb 1 (length replace)
spaced_out (percent before after) t = leb 1 (length before) || leb 1 (length t + length after)

unfoldable pub write_word : Text → Text → Pattern → Text → Output → Output
unfolding word_matches replacement spaced_out
write_word pre post replace t (o, doneany) =
    let matched = o ++ replacement replace pre post t in
    if word_matches pre post t
    then (if spaced_out replace t then (matched ++ 32 ∷ [], true) else (matched, doneany))
    else ((o ++ t) ++ 32 ∷ [], true)

-- The text of a pattern.
abbrev pub pattern_text : Pattern → Text
pattern_text (plain t) = t
pattern_text (percent pre post) = (pre ++ b'%' ∷ []) ++ post

unfoldable pub patsubst_expand_pat : Text → Text → Pattern → Pattern → Text
unfolding write_word
patsubst_expand_pat o text (plain pattern) replace =
    subst_expand o text pattern (pattern_text replace) true
patsubst_expand_pat o text (percent pre post) replace =
    kill_last (each_token (rounds text) (write_word pre post replace) text (o, false))

-- What the loop writes before a space for a word; `none` where it writes nothing.
unfoldable written : Text → Text → Pattern → Text → Option Text
written pre post replace t =
    if word_matches pre post t
    then (if spaced_out replace t then some (replacement replace pre post t) else none)
    else some t

nothing : (m n : ℕ) → take {A = ℕ} m (drop n []) ≡ []
nothing zero zero = refl
nothing zero (suc n) = refl
nothing (suc m) zero = refl
nothing (suc m) (suc n) = refl

-- Nothing is written for a match that gets no space.
unspaced :
    (replace : Pattern) (pre post t : Text)
    → spaced_out replace t ≡ false
    → replacement replace pre post t ≡ []
unfolding spaced_out replacement
unspaced (plain []) pre post t e = refl
unspaced (plain (c ∷ r)) pre post t e = absurd (ground arith)
unspaced (percent (c ∷ r) after) pre post t e = absurd (ground arith)
unspaced (percent [] []) pre post [] e =
    ap (λ x. x ++ []) (nothing (0 - (length pre + length post)) (length pre))
unspaced (percent [] (c ∷ after)) pre post [] e = absurd (ground arith)
unspaced (percent [] after) pre post (c ∷ t) e = absurd (ground arith)

-- The three cases of a word.
written-cases :
    (pre post : Text) (replace : Pattern) (t : Text) (m e : Bool)
    → word_matches pre post t ≡ m
    → spaced_out replace t ≡ e
    → written pre post replace t
      ≡ (if m then (if e then some (replacement replace pre post t) else none) else some t)
unfolding written
written-cases pre post replace t m e h h' = rw (h, h') refl

write_word-emit :
    (pre post : Text) (replace : Pattern) (t : Text) (s : Output)
    → write_word pre post replace t s ≡ emit (written pre post replace) t s
unfolding write_word
write_word-emit pre post replace t (o, done) =
    go (word_matches pre post t) (spaced_out replace t) refl refl
  where
    go :
        (m e : Bool)
        → word_matches pre post t ≡ m
        → spaced_out replace t ≡ e
        → write_word pre post replace t (o, done) ≡ emit (written pre post replace) t (o, done)
    go true true h h' = rw (h, h', written-cases pre post replace t true true h h', emit) refl
    go true false h h' =
        rw
          (
            h,
            h',
            written-cases pre post replace t true false h h',
            unspaced replace pre post t h',
            emit,
          )
          (ap (λ x. (x, done)) (append-nil o))
    go false e h h' = rw (h, written-cases pre post replace t false e h h', emit) refl

-- What is left of a match: nothing only where the replacement is the empty text, without a `%`.
abbrev left_of : Pattern → Text → Option Text
left_of (plain []) t = none
left_of _ t = some t

-- What becomes of a word.
unfoldable pub substituted : Text → Text → Pattern → Text → Option Text
substituted pre post replace t =
    if word_matches pre post t then left_of replace (replacement replace pre post t) else some t

written_word :
    (pre post : Text) (replace : Pattern) (c : ℕ) (w : Text)
    → written pre post replace (c ∷ w) ≡ substituted pre post replace (c ∷ w)
unfolding written substituted spaced_out
written_word pre post (plain []) c w = refl
written_word pre post (plain (d ∷ r)) c w =
    let spaced : leb 1 (length (d ∷ r)) ≡ true = ground arith in rw spaced refl
written_word pre post (percent before after) c w =
    let spaced : (leb 1 (length before) || leb 1 (length (c ∷ w) + length after)) ≡ true =
      ground arith in
    rw spaced refl

written_words :
    (pre post : Text) (replace : Pattern) (ws : List Text)
    → AreFull ws
    → results (written pre post replace) ws ≡ results (substituted pre post replace) ws
unfolding results
written_words pre post replace [] full = refl
written_words pre post replace ([] ∷ ws) full = absurd full
written_words pre post replace ((c ∷ w) ∷ ws) full =
    let f = written pre post replace in
    let g = substituted pre post replace in
    ap (λ r. (elim r [ none ↦ results f ws | some v ↦ v ∷ results f ws ]))
      (written_word pre post replace c w)
    ∙ ap (λ rest. (elim (g (c ∷ w)) [ none ↦ rest | some v ↦ v ∷ rest ]))
        (written_words pre post replace ws full)

-- With a `%` in the pattern, each word of the text is substituted on its own, and the results are
-- joined by single spaces. A word that matches is dropped only where the replacement is the empty
-- text without a `%`; one that a replacement with a `%` empties stays as an empty word, which gets
-- its space like any other, also at the start.
pub patsubst_expand_pat-words :
    (o text pre post : Text) (replace : Pattern)
    → patsubst_expand_pat o text (percent pre post) replace
      ≡ o ++ unwords (results (substituted pre post replace) (words text))
unfolding patsubst_expand_pat
patsubst_expand_pat-words o text pre post replace =
    emit-unwords (written pre post replace) (write_word pre post replace) o text
      (write_word-emit pre post replace)
    ∙ ap (λ ws. o ++ unwords ws) (written_words pre post replace (words text) (words-AreFull text))
