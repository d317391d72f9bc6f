-- ===== src/Commands/Flags.antt =====
-- The flags before a recipe line.
use make.Commands.{LineFlags, add_flag, is_modifier, scan_flags, mentions_make, line_flags}
use make.Text.{Text}
use make.Prelude.{
  ℕ, ◌≡◌, refl, ap, Bool, true, false, ◌||◌, [], ◌∷◌, ◌++◌, ◌==◌, inl, inr, Bool-cases, arith,
}

-- Whether the byte stands in the text.
abbrev pub has : ℕ → Text → Bool
has b [] = false
has b (c ∷ t) = c == b || has b t

abbrev pub AllModifiers : Text → Type 0
AllModifiers [] = Unit
AllModifiers (c ∷ t) = (is_modifier c ≡ true) × AllModifiers t

abbrev pub NoModifier : Text → Type 0
NoModifier [] = Unit
NoModifier (c ∷ t) = is_modifier c ≡ false

Scanned : LineFlags → Text → LineFlags × Text → Type 0
Scanned f line (g, rest) =
    (front : Text) × (line ≡ front ++ rest)
    × AllModifiers front
    × NoModifier rest
    × (g.recurse ≡ f.recurse || has b'+' front)
    × (g.silent ≡ f.silent || has b'@' front)
    × (g.noerror ≡ f.noerror || has b'-' front)

scan_flags-Scanned : (f : LineFlags) (line : Text) → Scanned f line (scan_flags f line)
unfolding scan_flags Scanned
scan_flags-Scanned f [] = ([], refl, tt, tt, ground arith, ground arith, ground arith)
scan_flags-Scanned f (c ∷ p) = elim (Bool-cases (is_modifier c)) [
  | inl e ↦
      rw (e, scan_flags)
        (more (scan_flags (add_flag c f) p) e (scan_flags-Scanned (add_flag c f) p))
  | inr e ↦ rw (e, scan_flags) ([], refl, tt, e, ground arith, ground arith, ground arith)
]
  where
    more :
        (r : LineFlags × Text)
        → is_modifier c ≡ true
        → Scanned (add_flag c f) p r
        → Scanned f (c ∷ p) r
    more (g, rest) e (front, split, all, stop, r, s, n) =
        (c ∷ front, ap (λ t. c ∷ t) split, (e, all), stop, ground arith, ground arith, ground arith)

-- The flags of a line: it starts with blanks and the bytes `-`, `@` and `+`; the line is silent if
-- there is a `@` among these, ignores errors if there is a `-`, and recurses if there is a `+`, or
-- if what follows mentions `$(MAKE)` or `${MAKE}`.
pub line_flags_lem :
    (line : Text)
    → (front : Text) × (rest : Text) × (line ≡ front ++ rest)
      × AllModifiers front
      × NoModifier rest
      × ((line_flags line).silent ≡ has b'@' front)
      × ((line_flags line).noerror ≡ has b'-' front)
      × ((line_flags line).recurse ≡ has b'+' front || mentions_make rest)
unfolding line_flags Scanned
line_flags_lem line =
    let start : LineFlags = record { recurse = false; silent = false; noerror = false } in
    let r = scan_flags start line in
    let (front, split, all, stop, recurse, s, n) = scan_flags-Scanned start line in
    (front, r.1, split, all, stop, s, n, ap (λ b. b || mentions_make r.1) recurse)
