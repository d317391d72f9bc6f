-- ===== src/Commands/Lines.antt =====
-- The lines that `chop_commands` cuts a recipe into.
use mathlib.Core.List.{reverse, reverse_aux, reverse-reverse}
use make.Commands.{
  Commands, chop_commands, chop_unless, chopped, odd_backslashes, find_end, after_end, chop_loop,
  chop,
}
use make.Text.Words.{rounds_pos, rounds-append}
use make.Text.{Text, rounds}
use make.Prelude.{
  ℕ, zero, suc, ◌+◌, ◌≤◌, ◌<◌, ◌≡◌, ◌⊎◌, inl, inr, refl, sym, ap, ◌∙◌, true, false, Option, none,
  some, List, [], ◌∷◌, ◌++◌, append-nil, length, ltb, ◌==◌, if◌then◌else◌, ◌>>=◌, Bool-cases, arith,
}

-- Every newline of the text stands behind an odd number of backslashes, `seen` being the bytes before
-- the text, the last first.
abbrev pub NoBreak : Text → Text → Type 0
NoBreak seen [] = Unit
NoBreak seen (c ∷ t) = (c ≡ 10 → odd_backslashes seen ≡ true) × NoBreak (c ∷ seen) t

-- The lines make up the text: each is free of breaks and is followed by a break, which the last one
-- may lack.
abbrev pub Cuts : Text → List Text → Type 0
Cuts text [] = text ≡ []
Cuts text (line ∷ lines) =
    NoBreak [] line
    × (((text ≡ line) × (lines ≡ []))
        ⊎ ((rest : Text) × (odd_backslashes (reverse line) ≡ false)
            × (text ≡ line ++ 10 ∷ rest)
            × Cuts rest lines))

Stop : Text → Text → Type 0
Stop seen [] = Unit
Stop seen (c ∷ rest) = (c ≡ 10) × (odd_backslashes seen ≡ false)

Ends : Text → Text → Text × Text → Type 0
Ends seen text (seen', rest) =
    (line : Text) × (text ≡ line ++ rest)
    × (seen' ≡ reverse_aux line seen)
    × NoBreak seen line
    × Stop seen' rest

find_end-Ends : (seen text : Text) → Ends seen text (find_end seen text)
unfolding find_end Ends Stop
find_end-Ends seen [] = ([], refl, refl, tt, tt)
find_end-Ends seen (c ∷ text) = go (find_end (c ∷ seen) text) refl (find_end-Ends (c ∷ seen) text)
  where
    on :
        (r : Text × Text)
        → (c ≡ 10 → odd_backslashes seen ≡ true)
        → Ends (c ∷ seen) text r
        → Ends seen (c ∷ text) r
    on (seen', rest) h (line, split, same, free, stop) =
        (c ∷ line, ap (λ t. c ∷ t) split, same, (h, free), stop)

    go :
        (r : Text × Text)
        → find_end (c ∷ seen) text ≡ r
        → Ends (c ∷ seen) text r
        → Ends seen (c ∷ text) (find_end seen (c ∷ text))
    go r e h = elim (Bool-cases (c == 10)) [
      | inl newline ↦ elim (Bool-cases (odd_backslashes seen)) [
        | inl odd ↦ rw (newline, odd, e, find_end) (on r (λ _. odd) h)
        | inr even ↦ rw (newline, even, find_end) ([], refl, refl, tt, (ground arith, even))
      ]
      | inr other ↦ rw (other, e, find_end) (on r (λ same. absurd (ground arith)) h)
    ]

-- What follows a line is shorter than the text that it starts.
after_end-lt :
    (c : ℕ) (p seen rest line : Text)
    → c ∷ p ≡ line ++ rest
    → Stop seen rest
    → rounds (after_end rest) < rounds (c ∷ p)
unfolding Stop
after_end-lt c p seen [] line e h = omega (arith, rounds_pos p)
after_end-lt c p seen (d ∷ rest) line e h =
    let whole = ap rounds e ∙ rounds-append line (d ∷ rest) in omega (arith, whole)

-- The lines are found, or there are too many.
Chops : ℕ → Text → Option (List Text) → Type 0
Chops nlines p r =
    (lines : List Text) × Cuts p lines
    × (nlines ≤ 65535 → r ≡ (if ltb 65535 (nlines + length lines) then none else some lines))

cuts :
    (p seen line rest : Text) (lines : List Text)
    → p ≡ line ++ rest
    → seen ≡ reverse line
    → NoBreak [] line
    → Stop seen rest
    → Cuts (after_end rest) lines
    → (rest ≡ [] → lines ≡ [])
    → Cuts p (line ∷ lines)
unfolding Stop
cuts p seen line [] lines e same free stop more last = (free, inl (e ∙ append-nil line, last refl))
cuts p seen line (d ∷ rest) lines e same free (newline, even) more last = (
  free,
  inr (rest, ap odd_backslashes (sym same) ∙ even, e ∙ ap (λ x. line ++ (x ∷ rest)) newline, more),
)

chop_loop_nil : (fuel nlines : ℕ) → 1 ≤ fuel → chop_loop fuel nlines [] ≡ some []
unfolding chop_loop
chop_loop_nil zero nlines h = absurd (omega arith)
chop_loop_nil (suc fuel) nlines h = refl

chop_loop-Chops :
    (fuel nlines : ℕ) (p : Text) → rounds p ≤ fuel → Chops nlines p (chop_loop fuel nlines p)
unfolding chop_loop Chops Ends
chop_loop-Chops zero nlines p k = absurd (omega (arith, rounds_pos p))
chop_loop-Chops (suc fuel) nlines [] k = ([], refl, λ h. ground arith)
chop_loop-Chops (suc fuel) nlines (c ∷ p) k =
    go (find_end [] (c ∷ p)) refl (find_end-Ends [] (c ∷ p)) (chop_loop-Chops fuel (nlines + 1))
  where
    finish :
        (seen rest line : Text) (lines : List Text) (r : Option (List Text))
        → find_end [] (c ∷ p) ≡ (seen, rest)
        → chop_loop fuel (nlines + 1) (after_end rest) ≡ r
        → reverse seen ≡ line
        → (nlines + 1 ≤ 65535
            → r ≡ (if ltb 65535 (nlines + 1 + length lines) then none else some lines))
        → nlines ≤ 65535
        → chop_loop (suc fuel) nlines (c ∷ p)
          ≡ (if ltb 65535 (nlines + length (line ∷ lines)) then none else some (line ∷ lines))
    finish seen rest line lines r e f same h bound = elim (Bool-cases (nlines == 65535)) [
      | inl full ↦
          let many : ltb 65535 (nlines + suc (length lines)) ≡ true = ground arith in
          rw (full, many) refl
      | inr other ↦
          let count : nlines + suc (length lines) ≡ nlines + 1 + length lines = omega arith in
          let result = h (ground arith) in
          elim (Bool-cases (ltb 65535 (nlines + 1 + length lines))) [
            | inl many ↦ rw (other, e, f, result, count, many, ◌>>=◌) refl
            | inr few ↦ rw (other, e, f, result, count, few, ◌>>=◌, same) refl
          ]
    ]

    go :
        (r : Text × Text)
        → find_end [] (c ∷ p) ≡ r
        → Ends [] (c ∷ p) r
        → ((t : Text) → rounds t ≤ fuel → Chops (nlines + 1) t (chop_loop fuel (nlines + 1) t))
        → Chops nlines (c ∷ p) (chop_loop (suc fuel) nlines (c ∷ p))
    go (seen, []) e (line, split, same, free, stop) rec =
        let whole : reverse seen ≡ line = ap reverse same ∙ reverse-reverse line in
        (
          line ∷ [],
          cuts (c ∷ p) seen line [] [] split same free stop refl (λ e. refl),
          finish seen [] line [] (some []) e
              (chop_loop_nil fuel (nlines + 1) (omega (arith, rounds_pos p))) whole
              (λ n. ground arith),
        )
    go (seen, d ∷ rest) e (line, split, same, free, stop) rec =
        let short = after_end-lt c p seen (d ∷ rest) line split stop in
        more (rec rest (omega arith))
      where
        more :
            Chops (nlines + 1) rest (chop_loop fuel (nlines + 1) rest)
            → Chops nlines (c ∷ p) (chop_loop (suc fuel) nlines (c ∷ p))
        more (lines, later, result) =
            let whole : reverse seen ≡ line = ap reverse same ∙ reverse-reverse line in
            (
              line ∷ lines,
              cuts (c ∷ p) seen line (d ∷ rest) lines split same free stop later (λ e. cc),
              finish seen (d ∷ rest) line lines (chop_loop fuel (nlines + 1) rest) e refl whole
                  result,
            )

-- A recipe that is chopped for the first time, a shell per line: its lines make up its text and have
-- their flags, unless there are more than USHRT_MAX of them, which is the fatal error.
pub chop_commands-Cuts :
    (cmds : Commands)
    → cmds.command_lines ≡ none
    → (lines : List Text) × Cuts cmds.commands lines
      × (chop_commands false cmds
          ≡ chopped cmds (if ltb 65535 (length lines) then none else some lines))
unfolding chop_commands chop_unless chop Chops
chop_commands-Cuts cmds fresh =
    let (lines, parts, result) =
      chop_loop-Chops (rounds cmds.commands) 0 cmds.commands (ground arith) in
    let count : 0 + length lines ≡ length lines = omega arith in
    let many = λ (n : ℕ). chopped cmds (if ltb 65535 n then none else some lines) in
    (
      lines,
      parts,
      ap (chop_unless false cmds) fresh ∙ ap (chopped cmds) (result (ground arith)) ∙ ap many count,
    )
