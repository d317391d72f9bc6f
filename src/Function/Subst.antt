-- ===== src/Function/Subst.antt =====
-- `subst_expand` and `func_subst`.
use make.Text.{Text, is_space, next_token, end_of_token}
use make.Prelude.{
  ℕ, zero, suc, ◌+◌, ◌-◌, ◌<◌, ◌≡◌, inl, inr, refl, sym, ap, ◌∙◌, Bool, true, false, not, ◌&&◌,
  ◌||◌, Option, none, some, List, [], ◌∷◌, ◌++◌, length, length-append, take, drop, append_assoc,
  append-nil, if◌then◌else◌, ◌==◌, ==_refl, Bool-cases, arith,
}

-- Whether `s` starts at the text.
abbrev pub starts : Text → Text → Bool
starts [] t = true
starts (c ∷ s) [] = false
starts (c ∷ s) (d ∷ t) = c == d && starts s t

-- The text before a place, and from the place on.
abbrev pub Place : Type 0
Place = Option (Text × Text)

abbrev pub past : ℕ → Place → Place
past c none = none
past c (some (before, p)) = some (c ∷ before, p)

-- `strstr (t, subst)`
unfoldable pub strstr : Text → Text → Place
strstr subst [] = if starts subst [] then some ([], []) else none
strstr subst (c ∷ t) =
    let later = past c (strstr subst t) in if starts subst (c ∷ t) then some ([], c ∷ t) else later

abbrev is_empty_word : Bool → Text → Bool
is_empty_word by_word [] = by_word
is_empty_word by_word (c ∷ s) = false

-- `p`, the next place to look at.
unfoldable pub next_place : Bool → Text → Text → Place
unfolding strstr
next_place by_word subst t =
    let p = end_of_token (next_token t) in
    if is_empty_word by_word subst then some (take (length t - length p) t, p) else strstr subst t

-- The byte before a place, from the one before the text that leads to it.
abbrev last_byte : Option ℕ → Text → Option ℕ
last_byte prev [] = prev
last_byte prev (c ∷ s) = last_byte (some c) s

abbrev word_starts : Option ℕ → Bool
word_starts none = true
word_starts (some c) = is_space c

-- `STOP_SET (p[slen], MAP_SPACE|MAP_NUL)`
abbrev word_ends : Text → Bool
word_ends [] = true
word_ends (c ∷ s) = is_space c

-- What is written for the occurrence at a place.
unfoldable pub choose : Bool → Option ℕ → Text → Text → Text → Text
choose by_word prev subst replace rest =
    if by_word && (not (word_starts prev) || not (word_ends rest)) then subst else replace

-- `while (*t != '\0')`
abbrev pub repeat : (Option ℕ → Text → Text → Text) → Option ℕ → Text → Text → Text
repeat more prev [] o = o
repeat more prev (c ∷ t) o = more prev (c ∷ t) o

-- One round, `more` being the later ones.
unfoldable pub subst_round :
    (Option ℕ → Text → Text → Text) → Bool → Text → Text → Option ℕ → Text → Text → Place → Text
unfolding choose
subst_round more by_word subst replace prev t o none = o ++ t
subst_round more by_word subst replace prev t o (some (before, p)) =
    let prev' = last_byte prev before in
    let rest = drop (length subst) p in
    repeat more (last_byte prev' subst) rest
      ((o ++ before) ++ choose by_word prev' subst replace rest)

-- The `do … while` loop from `t` on, `prev` being `t[-1]` if `t > text`.
unfoldable pub subst_loop : ℕ → Bool → Text → Text → Option ℕ → Text → Text → Text
unfolding next_place subst_round
subst_loop zero by_word subst replace prev t o = o
subst_loop (suc fuel) by_word subst replace prev t o =
    subst_round (subst_loop fuel by_word subst replace) by_word subst replace prev t o
      (next_place by_word subst t)

unfoldable pub subst_expand : Text → Text → Text → Text → Bool → Text
unfolding subst_loop
subst_expand o text [] replace false = (o ++ text) ++ replace
subst_expand o text subst replace by_word =
    subst_loop (length text + 1) by_word subst replace none text o

unfoldable pub func_subst : Text → Text → Text → Text → Text
func_subst o subst replace text = subst_expand o text subst replace false

-- Pieces put together with `s` between them.
unfoldable pub joined : Text → List Text → Text
joined s [] = []
joined s (p ∷ []) = p
joined s (p ∷ q ∷ ps) = (p ++ s) ++ joined s (q ∷ ps)

-- Every `s` between two pieces is the first one after the piece before, and the last piece has none.
abbrev pub AllFirst : Text → List Text → Type 0
AllFirst s [] = Unit
AllFirst s (p ∷ []) = strstr s p ≡ none
AllFirst s (p ∷ q ∷ ps) =
    (strstr s (joined s (p ∷ q ∷ ps)) ≡ some (p, s ++ joined s (q ∷ ps))) × AllFirst s (q ∷ ps)

pub starts-append : (s t : Text) → starts s t ≡ true → t ≡ s ++ drop (length s) t
starts-append [] t e = refl
starts-append (c ∷ s) [] e = absurd (cc)
starts-append (c ∷ s) (d ∷ t) e = elim (Bool-cases (c == d)) [
  | inl same ↦
      let c=d : c ≡ d = ground arith in
      let tail : starts s t ≡ true = rw same at e in
      rw c=d (ap (λ r. d ∷ r) (starts-append s t tail))
  | inr other ↦ let no : false ≡ true = rw other at e in absurd (cc)
]

pub starts_self : (s t : Text) → starts s (s ++ t) ≡ true
starts_self [] t = refl
starts_self (c ∷ s) t = rw (==_refl c) (starts_self s t)

unfoldable pub Found : Text → Text → Place → Type 0
Found s t none = Unit
Found s t (some (before, p)) = (t ≡ before ++ p) × (starts s p ≡ true)

pub strstr-Found : (s t : Text) → Found s t (strstr s t)
unfolding strstr Found
strstr-Found s [] = elim (Bool-cases (starts s [])) [
  | inl e ↦ rw (e, Found) (refl, e)
  | inr e ↦ rw (e, Found) tt
]
strstr-Found s (c ∷ t) = elim (Bool-cases (starts s (c ∷ t))) [
  | inl e ↦ rw (e, Found) (refl, e)
  | inr e ↦ rw (e, Found) (later (strstr s t) (strstr-Found s t))
]
  where
    later : (p : Place) → Found s t p → Found s (c ∷ t) (past c p)
    later none h = tt
    later (some (before, p)) (split, h) = (ap (λ r. c ∷ r) split, h)

-- The text cut at the occurrences of `s`, and `out` with `r` in their place, written after `o`.
Replaced : Text → Text → Text → Text → Text → Type 0
Replaced s r t o out =
    (p : Text) × (ps : List Text) × (t ≡ joined s (p ∷ ps))
    × AllFirst s (p ∷ ps)
    × (out ≡ o ++ joined r (p ∷ ps))

cut-length :
    (c : ℕ) (s t before p : Text)
    → t ≡ before ++ p
    → p ≡ (c ∷ s) ++ drop (length (c ∷ s)) p
    → length (drop (length (c ∷ s)) p) < length t
cut-length c s t before p e e' =
    let whole = ap length e ∙ length-append before p in
    let part = ap length e' ∙ length-append (c ∷ s) (drop (length (c ∷ s)) p) in
    omega (arith, whole, part)

subst_loop-Replaced :
    (fuel c : ℕ) (s r : Text) (prev : Option ℕ) (t o : Text)
    → length t < fuel
    → Replaced (c ∷ s) r t o (subst_loop fuel false (c ∷ s) r prev t o)
unfolding subst_loop next_place subst_round choose Replaced joined Found
subst_loop-Replaced zero c s r prev t o h = absurd (omega arith)
subst_loop-Replaced (suc fuel) c s r prev t o h =
    go (strstr (c ∷ s) t) refl (strstr-Found (c ∷ s) t) (subst_loop-Replaced fuel c s r)
  where
    Later : Type 0
    Later =
        (prev : Option ℕ) (t o : Text)
        → length t < fuel
        → Replaced (c ∷ s) r t o (subst_loop fuel false (c ∷ s) r prev t o)

    rest_of :
        Later
        → (rest : Text) (prev : Option ℕ) (o : Text) → length rest < fuel
        → Replaced (c ∷ s) r rest o (repeat (subst_loop fuel false (c ∷ s) r) prev rest o)
    rest_of later [] prev o low = ([], [], refl, refl, sym (append-nil o))
    rest_of later (d ∷ rest) prev o low = later prev (d ∷ rest) o low

    go :
        (place : Place)
        → strstr (c ∷ s) t ≡ place
        → Found (c ∷ s) t place
        → Later
        → Replaced (c ∷ s) r t o (subst_loop (suc fuel) false (c ∷ s) r prev t o)
    go none e f later = (t, [], refl, e, rw (e, subst_loop) refl)
    go (some (before, p)) e (split, at) later =
        let rest = drop (length (c ∷ s)) p in
        let head : p ≡ (c ∷ s) ++ rest = starts-append (c ∷ s) p at in
        let prev' = last_byte (last_byte prev before) (c ∷ s) in
        let (q, qs, cut, first, out) =
          rest_of later rest prev' ((o ++ before) ++ r)
            (omega (arith, cut-length c s t before p split head)) in
        let whole : t ≡ (before ++ (c ∷ s)) ++ joined (c ∷ s) (q ∷ qs) =
          split
          ∙ ap (λ x. before ++ x) (head ∙ ap (λ x. (c ∷ s) ++ x) cut)
          ∙ sym (append_assoc before (c ∷ s) (joined (c ∷ s) (q ∷ qs))) in
        (
          before,
          q ∷ qs,
          whole,
          (
            ap (strstr (c ∷ s)) (sym whole)
                ∙ e
                ∙ ap (λ x. some (before, x)) (head ∙ ap (λ x. (c ∷ s) ++ x) cut),
            first,
          ),
          rw (e, subst_loop) (out ∙ simp append_assoc),
        )

-- `$(subst s,r,text)` for a non-empty `s` cuts the text at the occurrences of `s`, from left to right
-- and without overlap, and puts `r` in their place.
pub func_subst-joined :
    (o : Text) (c : ℕ) (s r text : Text)
    → (p : Text) × (ps : List Text) × (text ≡ joined (c ∷ s) (p ∷ ps))
      × AllFirst (c ∷ s) (p ∷ ps)
      × (func_subst o (c ∷ s) r text ≡ o ++ joined r (p ∷ ps))
unfolding func_subst subst_expand Replaced
func_subst-joined o c s r text =
    subst_loop-Replaced (length text + 1) c s r none text o (omega arith)
