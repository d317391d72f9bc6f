-- ===== src/Function/Lists.antt =====
-- `func_join`, `func_addsuffix_addprefix`, `func_firstword`, `func_lastword`, `func_words` and
-- the loop of `func_join`.
use mathlib.Core.List.{foldl}
use make.Text.Emit.{Output, emit, results, unwords, emit-unwords}
use make.Text.Words.{words, Next, find_next_token-Next, each_token-words}
use make.Text.{Text, find_next_token, each_token, rounds, kill_last}
use make.Prelude.{
  ℕ, zero, suc, ◌+◌, ◌%◌, ◌^◌, ◌≡◌, ◌⊎◌, inl, inr, refl, ap, ◌∙◌, Bool, true, false, Option, none,
  some, List, [], ◌∷◌, ◌++◌, length, map, append_assoc, if◌then◌else◌, arith,
}

abbrev add_fix : Bool → Text → Text → Output → Output
add_fix is_addprefix fix w (o, done) =
    let o₁ = if is_addprefix then o ++ fix else o in
    let o₂ = o₁ ++ w in let o₃ = if is_addprefix then o₂ else o₂ ++ fix in (o₃ ++ 32 ∷ [], true)

pub func_addsuffix_addprefix : Bool → Text → Text → Text → Text
func_addsuffix_addprefix is_addprefix o fix list =
    kill_last (each_token (rounds list) (add_fix is_addprefix fix) list (o, false))

pub results-map : (f : Text → Text) (ws : List Text) → results (λ w. some (f w)) ws ≡ map f ws
unfolding results
results-map f [] = refl
results-map f (w ∷ ws) = ap (λ t. f w ∷ t) (results-map f ws)

-- `$(addprefix f,list)` and `$(addsuffix f,list)` put `f` before, or after, every word, and join the
-- words by single spaces.
addsuffix_addprefix-words :
    (is_addprefix : Bool) (o fix list : Text)
    → func_addsuffix_addprefix is_addprefix o fix list
      ≡ o ++ unwords (map (λ w. if is_addprefix then fix ++ w else w ++ fix) (words list))
unfolding func_addsuffix_addprefix
addsuffix_addprefix-words b o fix list =
    emit-unwords (λ w. some (f w)) (add_fix b fix) o list (same b)
    ∙ ap (λ ws. o ++ unwords ws) (results-map f (words list))
  where
    f : Text → Text
    f w = if b then fix ++ w else w ++ fix

    same :
        (b : Bool) (w : Text) (s : Output)
        → add_fix b fix w s ≡ emit (λ w. some (if b then fix ++ w else w ++ fix)) w s
    same true w (o, done) = rw (append_assoc o fix w)
    same false w (o, done) = rw (append_assoc o w fix)

-- One round of `func_join`: the new iterators and output.
abbrev pub tail_of : Text → Option (Text × Text) → Text
tail_of text none = text
tail_of text (some (w, rest)) = rest

abbrev pub write : Text → Option (Text × Text) → Text
write o none = o
write o (some (w, rest)) = o ++ w

unfoldable pub join_loop : ℕ → Text → Text → Output → Output
join_loop zero list1 list2 s = s
join_loop (suc fuel) list1 list2 (o, done) =
    let tp = find_next_token list1 in
    let pp = find_next_token list2 in
    let more =
      join_loop fuel (tail_of list1 tp) (tail_of list2 pp)
        (write (write o tp) pp ++ 32 ∷ [], true) in
    elim tp [ some _ ↦ more | none ↦ elim pp [ some _ ↦ more | none ↦ (o, done) ] ]

unfoldable pub func_join : Text → Text → Text → Text
unfolding join_loop
func_join o list1 list2 = kill_last (join_loop (rounds list1 + rounds list2) list1 list2 (o, false))

pub func_firstword : Text → Text → Text
func_firstword o list = write o (find_next_token list)

-- `$(firstword list)` is the first word, if there is one.
firstword-words :
    (o list : Text)
    → ((words list ≡ []) × (func_firstword o list ≡ o))
      ⊎ ((w : Text) × (ws : List Text) × (words list ≡ w ∷ ws) × (func_firstword o list ≡ o ++ w))
unfolding func_firstword
firstword-words o list = go (find_next_token list) refl (find_next_token-Next list)
  where
    go :
        (t : Option (Text × Text))
        → find_next_token list ≡ t
        → Next list t
        → ((words list ≡ []) × (func_firstword o list ≡ o))
          ⊎ ((w : Text) × (ws : List Text) × (words list ≡ w ∷ ws)
              × (func_firstword o list ≡ o ++ w))
    go none e ws = inl (ws, rw (e, write))
    go (some (w, r)) e ws = inr (w, words r, ws.0, rw (e, write))

-- `p = t` in each round.
pub func_lastword : Text → Text → Text
func_lastword o list = elim (each_token (rounds list) (λ w p. some w) list none) [
  | none ↦ o
  | some w ↦ o ++ w
]

abbrev pub last_of : List Text → Option Text
last_of [] = none
last_of (w ∷ []) = some w
last_of (w ∷ v ∷ ws) = last_of (v ∷ ws)

last_fold :
    (p : Option Text) (w : Text) (ws : List Text)
    → foldl (λ s w. some w) p (w ∷ ws) ≡ last_of (w ∷ ws)
last_fold p w [] = refl
last_fold p w (v ∷ ws) = last_fold (some w) v ws

latest-words :
    (list : Text)
    → each_token (rounds list) (λ w (p : Option Text). some w) list none ≡ last_of (words list)
latest-words list =
    each_token-words (λ w p. some w) (rounds list) list none (omega arith) ∙ go (words list)
  where
    go : (ws : List Text) → foldl (λ s w. some w) none ws ≡ last_of ws
    go [] = refl
    go (w ∷ ws) = last_fold none w ws

-- `$(lastword list)` is the last word, if there is one.
lastword-words :
    (o list : Text)
    → func_lastword o list ≡ (elim (last_of (words list)) [ none ↦ o | some w ↦ o ++ w ])
unfolding func_lastword
lastword-words o list = rw (latest-words list, func_lastword)

-- The count of `func_words`, an `unsigned int`.
pub count_words : Text → ℕ
count_words list = each_token (rounds list) (λ w i. (i + 1) % 2 ^ 32) list 0

-- `$(words list)` is the number of words, modulo 2^32.
pub count_words-length : (list : Text) → count_words list ≡ length (words list) % 2 ^ 32
unfolding count_words
count_words-length list =
    each_token-words (λ w i. (i + 1) % 2 ^ 32) (rounds list) list 0 (omega arith)
    ∙ go (words list) 0 0 refl
    ∙ ap (λ n. n % 2 ^ 32) (omega arith)
  where
    go :
        (ws : List Text) (i n : ℕ)
        → i ≡ n % 2 ^ 32
        → foldl (λ i w. (i + 1) % 2 ^ 32) i ws ≡ (n + length ws) % 2 ^ 32
    go [] i n e = omega arith
    go (w ∷ ws) i n e =
        go ws ((i + 1) % 2 ^ 32) (n + 1) (omega arith) ∙ ap (λ m. m % 2 ^ 32) (omega arith)
