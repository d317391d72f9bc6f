-- ===== src/Function/Select.antt =====
-- `parse_numeric`, `func_word` and `func_findstring`.
use make.Function.Logic.{strip_whitespace}
use make.Function.Subst.{starts, strstr, starts-append, starts_self, Found, strstr-Found}
use make.Text.Words.{words, Next, find_next_token-Next, rounds_pos}
use make.Text.{Text, next_token, find_next_token, rounds}
use make.Prelude.{
  ℕ, zero, suc, ◌-◌, ◌≤◌, ◌≡◌, ◌⊎◌, inl, inr, refl, ap, ◌∙◌, true, false, ◌||◌, Option, none, some,
  [], ◌∷◌, ◌++◌, drop, length, get_elem?, ltb, ◌==◌, if◌then◌else◌, Bool-cases, arith,
}

-- A `long long`, by its sign.
pub data Numeral : Type 0 where
  negative : ℕ → Numeral
  natural : ℕ → Numeral

-- What `strtoll` gives: `errno == ERANGE`, or the number and the text from `endp` on.
pub data Strtoll : Type 0 where
  out_of_range : Strtoll
  parsed : Numeral → Text → Strtoll

-- The tests after the call; `beg` is the text from `beg` on, `stripped` what of it is before `end +
-- 1`.
unfoldable pub numeric : Text → Text → Strtoll → Option Numeral
numeric beg stripped out_of_range = none
numeric beg stripped (parsed num rest) =
    if length rest == length beg || ltb (length beg - length stripped) (length rest)
    then none
    else some num

unfoldable pub nonempty : (Text → Strtoll) → Text → Text → Option Numeral
unfolding numeric
nonempty strtoll beg [] = none
nonempty strtoll beg (c ∷ s) = numeric beg (c ∷ s) (strtoll beg)

-- `none` is a fatal error.
unfoldable pub parse_numeric : (Text → Strtoll) → Text → Option Numeral
unfolding nonempty strip_whitespace
parse_numeric strtoll s = nonempty strtoll (next_token s) (strip_whitespace s)

-- The word at which `--i == 0`.
unfoldable pub word_loop : ℕ → ℕ → Text → Option Text
word_loop zero i end_p = none
word_loop (suc fuel) i end_p = elim (find_next_token end_p) [
  | none ↦ none
  | some (p, rest) ↦ if i - 1 == 0 then some p else word_loop fuel (i - 1) rest
]

unfoldable pub word_output : Text → Option Text → Text
word_output o none = o
word_output o (some p) = o ++ p

unfoldable pub word_number : Text → Text → Option Numeral → Option Text
unfolding word_loop word_output
word_number o list (some (natural (suc i))) =
    some (word_output o (word_loop (rounds list) (suc i) list))
word_number o list _ = none

-- `none` is a fatal error: no number, or one below 1.
unfoldable pub func_word : (Text → Strtoll) → Text → Text → Text → Option Text
unfolding word_number parse_numeric
func_word strtoll o number list = word_number o list (parse_numeric strtoll number)

word_loop-get :
    (fuel i : ℕ) (list : Text)
    → rounds list ≤ fuel
    → word_loop fuel (suc i) list ≡ get_elem? (words list) i
unfolding word_loop
word_loop-get zero i list h = absurd (omega (arith, rounds_pos list))
word_loop-get (suc fuel) i list h =
    go i (find_next_token list) refl (find_next_token-Next list) (λ j. word_loop-get fuel j)
  where
    go :
        (i : ℕ) (r : Option (Text × Text))
        → find_next_token list ≡ r
        → Next list r
        → ((j : ℕ) (t : Text) → rounds t ≤ fuel → word_loop fuel (suc j) t ≡ get_elem? (words t) j)
        → word_loop (suc fuel) (suc i) list ≡ get_elem? (words list) i
    go i none e n rec = rw (n, e, word_loop) refl
    go zero (some (w, rest)) e n rec = rw (n.0, e, word_loop) refl
    go (suc i) (some (w, rest)) e n rec =
        let less : suc (suc i) - 1 ≡ suc i = omega arith in
        let more : (suc i == 0) ≡ false = ground arith in
        rw (n.0, e, word_loop) (rw (less, more) (rec i rest (omega (arith, n.1))))

-- `$(word n,list)`, for a text that reads as the natural number `n`, is the word at place `n`,
-- counted from 1, and empty where there is none; 0 is an error.
func_word-get :
    (strtoll : Text → Strtoll) (o number list : Text) (n : ℕ)
    → parse_numeric strtoll number ≡ some (natural n)
    → ((n ≡ 0) × (func_word strtoll o number list ≡ none))
      ⊎ ((1 ≤ n)
          × (func_word strtoll o number list
              ≡ some (word_output o (get_elem? (words list) (n - 1)))))
unfolding func_word
func_word-get strtoll o number list zero e = inl (refl, rw (e, word_number) refl)
func_word-get strtoll o number list (suc n) e = inr (
  omega arith,
  rw (e, word_number)
      (ap (λ r. some (word_output o r))
        (word_loop-get (rounds list) n list (omega arith)
          ∙ ap (get_elem? (words list)) (omega arith))),
)

unfoldable pub func_findstring : Text → Text → Text → Text
unfolding strstr
func_findstring o find text = elim (strstr find text) [ none ↦ o | some p ↦ o ++ find ]

-- An occurrence anywhere is found.
strstr-some :
    (s before after : Text) → (p : Text × Text) × (strstr s (before ++ (s ++ after)) ≡ some p)
unfolding strstr
strstr-some s [] after = here (s ++ after) (starts_self s after)
  where
    here : (t : Text) → starts s t ≡ true → (p : Text × Text) × (strstr s t ≡ some p)
    here [] e = (([], []), rw e refl)
    here (c ∷ t) e = (([], c ∷ t), rw e refl)
strstr-some s (c ∷ before) after =
    let t = before ++ (s ++ after) in
    let (p, later) = strstr-some s before after in
    elim (Bool-cases (starts s (c ∷ t))) [
      | inl e ↦ (([], c ∷ t), rw e refl)
      | inr e ↦ ((c ∷ p.0, p.1), rw (e, later) refl)
    ]

-- `$(findstring s,text)` is `s` where the text holds it, and empty elsewhere.
func_findstring_lem :
    (o find text : Text)
    → ((before : Text) × (after : Text) × (text ≡ before ++ (find ++ after))
        × (func_findstring o find text ≡ o ++ find))
      ⊎ (((before after : Text) → text ≡ before ++ (find ++ after) → ⊥)
          × (func_findstring o find text ≡ o))
unfolding func_findstring Found
func_findstring_lem o find text = go (strstr find text) refl (strstr-Found find text)
  where
    go :
        (r : Option (Text × Text))
        → strstr find text ≡ r
        → Found find text r
        → ((before : Text) × (after : Text) × (text ≡ before ++ (find ++ after))
            × (func_findstring o find text ≡ o ++ find))
          ⊎ (((before after : Text) → text ≡ before ++ (find ++ after) → ⊥)
              × (func_findstring o find text ≡ o))
    go none e f = inr (
      (λ before after split.
          let (p, found) = strstr-some find before after in
          let there : strstr find text ≡ some p = ap (strstr find) split ∙ found in absurd (cc)),
      rw (e, func_findstring) refl,
    )
    go (some (before, p)) e (split, at) = inl (
      before,
      drop (length find) p,
      split ∙ ap (λ x. before ++ x) (starts-append find p at),
      rw (e, func_findstring) refl,
    )
