-- ===== src/Commands.antt =====
-- src/commands.c: `chop_commands`, which cuts a recipe into lines and reads the flags before each.
pub mod Lines
pub mod Flags
use mathlib.Core.List.{reverse}
use make.Function.Subst.{strstr}
use make.Text.{Text, codes, is_blank, rounds}
use make.Prelude.{
  ℕ, zero, suc, ◌+◌, Bool, true, false, not, ◌||◌, Option, none, some, List, [], ◌∷◌, map, ◌==◌,
  if◌then◌else◌, ◌>>=◌,
}

-- The bits COMMANDS_RECURSE, COMMANDS_SILENT and COMMANDS_NOERROR.
pub record LineFlags : Type 0 where
  pub recurse : Bool
  pub silent : Bool
  pub noerror : Bool

pub record Commands : Type 0 where
  pub commands : Text
  pub command_lines : Option (List Text)
  pub lines_flags : List LineFlags
  pub any_recurse : Bool

-- Whether an odd number of backslashes ends the text whose bytes are given last first.
unfoldable pub odd_backslashes : Text → Bool
odd_backslashes [] = false
odd_backslashes (c ∷ seen) = if c == 92 then not (odd_backslashes seen) else false

-- `find_end`: `seen` has the bytes from `p` to `end`, the last first; the line so, and what follows
-- it.
unfoldable pub find_end : Text → Text → Text × Text
unfolding odd_backslashes
find_end seen [] = (seen, [])
find_end seen (c ∷ text) =
    let on = find_end (c ∷ seen) text in
    if c == 10 then (if odd_backslashes seen then on else (seen, c ∷ text)) else on

-- `p = end; if (*p != '\0') ++p;`
abbrev pub after_end : Text → Text
after_end [] = []
after_end (c ∷ text) = text

-- The `while` loop over `p`; `none` is the fatal error of too many lines.
unfoldable pub chop_loop : ℕ → ℕ → Text → Option (List Text)
chop_loop zero nlines p = none
chop_loop (suc fuel) nlines [] = some []
chop_loop (suc fuel) nlines (c ∷ p) =
    let line = find_end [] (c ∷ p) in
    let more =
      chop_loop fuel (nlines + 1) (after_end line.1) >>= λ lines. some (reverse line.0 ∷ lines) in
    if nlines == 65535 then none else more

-- Strip the trailing newline.
unfoldable pub strip_newline : Text → Text
strip_newline [] = []
strip_newline (c ∷ []) = if c == 10 then [] else c ∷ []
strip_newline (c ∷ d ∷ text) = c ∷ strip_newline (d ∷ text)

unfoldable pub chop : Bool → Text → Option (List Text)
unfolding chop_loop strip_newline
chop true commands = some (strip_newline commands ∷ [])
chop false commands = chop_loop (rounds commands) 0 commands

-- The `switch`.
unfoldable pub add_flag : ℕ → LineFlags → LineFlags
add_flag c f =
    if c == b'+'
    then record f { recurse = true }
    else if c == b'@'
    then record f { silent = true }
    else if c == b'-'
    then record f { noerror = true }
    else f

unfoldable pub is_modifier : ℕ → Bool
is_modifier c = is_blank c || (c == b'-' || (c == b'@' || c == b'+'))

-- The flags, and the line from where they end.
unfoldable pub scan_flags : LineFlags → Text → LineFlags × Text
unfolding is_modifier add_flag
scan_flags f [] = (f, [])
scan_flags f (c ∷ p) =
    let more = scan_flags (add_flag c f) p in if is_modifier c then more else (f, c ∷ p)

abbrev pub is_found : Option (Text × Text) → Bool
is_found none = false
is_found (some p) = true

unfoldable pub mentions_make : Text → Bool
mentions_make p = is_found (strstr (codes "$(MAKE)") p) || is_found (strstr (codes "${MAKE}") p)

unfoldable pub line_flags : Text → LineFlags
unfolding scan_flags mentions_make
line_flags line =
    let r = scan_flags (record { recurse = false; silent = false; noerror = false }) line in
    record r.0 { recurse = r.0.recurse || mentions_make r.1 }

unfoldable pub any_recurse_of : List LineFlags → Bool
any_recurse_of [] = false
any_recurse_of (f ∷ fs) = f.recurse || any_recurse_of fs

unfoldable pub chopped : Commands → Option (List Text) → Option Commands
unfolding line_flags any_recurse_of
chopped cmds none = none
chopped cmds (some lines) =
    let flags = map line_flags lines in
    some (record cmds {
      command_lines = some lines;
      lines_flags = flags;
      any_recurse = any_recurse_of flags;
    })

-- A recipe that is chopped already is left alone.
unfoldable pub chop_unless : Bool → Commands → Option (List Text) → Option Commands
unfolding chop chopped
chop_unless one_shell cmds none = chopped cmds (chop one_shell cmds.commands)
chop_unless one_shell cmds (some lines) = some cmds

unfoldable pub chop_commands : Bool → Commands → Option Commands
unfolding chop_unless
chop_commands one_shell cmds = chop_unless one_shell cmds cmds.command_lines
