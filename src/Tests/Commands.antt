-- ===== src/Tests/Commands.antt =====
-- A recipe of two lines, the first of them continued.
use make.Commands.Flags.{AllModifiers, NoModifier, has, line_flags_lem}
use make.Commands.Lines.{Cuts, chop_commands-Cuts}
use make.Commands.{
  Commands, chop_commands, chopped, chop, chop_loop, find_end, odd_backslashes, line_flags,
  mentions_make,
}
use make.Text.{Text, codes}
use make.Prelude.{
  ◌≡◌, refl, false, ◌||◌, none, some, List, [], ◌∷◌, ◌++◌, length, ltb, if◌then◌else◌,
}

abbrev recipe : Text
recipe = codes "@cc a" ++ (92 ∷ 10 ∷ codes " b") ++ (10 ∷ codes "-rm $(MAKE)")

cut :
    chop false recipe ≡ some ((codes "@cc a" ++ (92 ∷ 10 ∷ codes " b")) ∷ codes "-rm $(MAKE)" ∷ [])
unfolding chop chop_loop find_end odd_backslashes
cut = refl

abbrev cmds : Commands
cmds = record { commands = recipe; command_lines = none; lines_flags = []; any_recurse = false }

chop_commands-Cuts_example :
    (lines : List Text) × Cuts recipe lines
    × (chop_commands false cmds
        ≡ chopped cmds (if ltb 65535 (length lines) then none else some lines))
chop_commands-Cuts_example = chop_commands-Cuts cmds refl

line_flags_lem_example :
    (front : Text) × (rest : Text) × (codes "-@rm $(MAKE)" ≡ front ++ rest)
    × AllModifiers front
    × NoModifier rest
    × ((line_flags (codes "-@rm $(MAKE)")).silent ≡ has b'@' front)
    × ((line_flags (codes "-@rm $(MAKE)")).noerror ≡ has b'-' front)
    × ((line_flags (codes "-@rm $(MAKE)")).recurse ≡ has b'+' front || mentions_make rest)
line_flags_lem_example = line_flags_lem (codes "-@rm $(MAKE)")
