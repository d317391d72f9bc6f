-- ===== src/Text.antt =====
-- src/misc.c: `next_token`, `end_of_token` and `find_next_token`, with the character classes of
-- src/main.c `initialize_stopchar_map` (in the C locale). A text is the list of its bytes; its end
-- stands for the terminating NUL, and a pointer into a text is the text from there on.
pub mod Equal
pub mod Words
pub mod Emit
use Prim.Native.Char.{code}
use Prim.Native.String.{String}
use make.Prelude.{
  ℕ, zero, suc, ◌+◌, ◌-◌, ◌≤◌, Bool, true, false, ◌&&◌, ◌||◌, Option, none, some, List, [], ◌∷◌,
  ◌++◌, leb, ◌==◌, if◌then◌else◌, take,
}

abbrev pub Text : Type 0
Text = List ℕ

-- The bytes of an ASCII literal.
abbrev pub codes : String → Text
codes String.[] = []
codes (String.◌∷◌ c s) = code c ∷ codes s

-- `streq`
abbrev pub streq : Text → Text → Bool
streq [] [] = true
streq [] (d ∷ t) = false
streq (c ∷ s) [] = false
streq (c ∷ s) (d ∷ t) = c == d && streq s t

-- MAP_BLANK, and MAP_SPACE
unfoldable pub is_blank : ℕ → Bool
is_blank c = c == 32 || c == 9

unfoldable pub is_space : ℕ → Bool
unfolding is_blank
is_space c = is_blank c || (leb 10 c && leb c 13)

-- MAP_DIRSEP on a POSIX system
unfoldable pub is_dirsep : ℕ → Bool
is_dirsep c = c == b'/'

unfoldable pub next_token : Text → Text
next_token [] = []
next_token (c ∷ s) = if is_space c then next_token s else c ∷ s

unfoldable pub end_of_token : Text → Text
end_of_token [] = []
end_of_token (c ∷ s) = if is_space c then c ∷ s else end_of_token s

-- The bytes that `end_of_token` passes, `*lengthptr` of them.
unfoldable pub token : Text → Text
token [] = []
token (c ∷ s) = if is_space c then [] else c ∷ token s

-- `find_next_token` from where the spaces end.
unfoldable pub cut_token : Text → Option (Text × Text)
unfolding token end_of_token
cut_token [] = none
cut_token (c ∷ s) = some (token (c ∷ s), end_of_token (c ∷ s))

-- The token, and the new value of `*ptr`.
unfoldable pub find_next_token : Text → Option (Text × Text)
find_next_token ptr = cut_token (next_token ptr)

-- `while ((p = find_next_token (&text, &len)) != 0) body`
unfoldable pub each_token {ℓ} : {S : Type ℓ} → ℕ → (Text → S → S) → Text → S → S
each_token zero body text s = s
each_token (suc fuel) body text s = elim (find_next_token text) [
  | none ↦ s
  | some (w, rest) ↦ each_token fuel body rest (body w s)
]

-- Enough rounds for the loop: each takes a byte.
abbrev pub rounds : Text → ℕ
rounds [] = 1
rounds (c ∷ s) = suc (rounds s)

-- `--o` on the output buffer
unfoldable pub drop_last : Text → Text
drop_last [] = []
drop_last (x ∷ []) = []
drop_last (x ∷ y ∷ s) = x ∷ drop_last (y ∷ s)

-- `if (doneany) --o;`
unfoldable pub kill_last : Text × Bool → Text
unfolding drop_last
kill_last (o, true) = drop_last o
kill_last (o, false) = o
