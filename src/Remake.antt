-- ===== src/Remake.antt =====
-- src/filedef.h, src/file.c and src/remake.c: `struct file` as the update of targets sees it. A
-- file is known by a number, and the store gives what stands in its `struct file`. Files are not
-- renamed, so `check_renamed` finds nothing to follow. What only decides which messages are printed
-- is left out (`no_diag`, `commands_started`, `parent`).
pub mod Finish
pub mod Same
pub mod Settled
pub mod Entries
pub mod Decide
pub mod Needs
pub mod Outcome
pub mod Walk
use make.Commands.{Commands}
use make.Prelude.{
  ℕ, Bool, true, false, not, ◌&&◌, ◌||◌, Option, none, some, List, [], ◌∷◌, at, ◌==◌, ltb,
  if◌then◌else◌,
}

pub data UpdateStatus : Type 0 where
  us_success us_none us_question us_failed : UpdateStatus

-- The values of the enumeration, which the code compares.
abbrev pub rank : UpdateStatus → ℕ
rank us_success = 0
rank us_none = 1
rank us_question = 2
rank us_failed = 3

pub data CmdState : Type 0 where
  cs_not_started cs_deps_running cs_running cs_finished : CmdState

abbrev pub stage : CmdState → ℕ
stage cs_not_started = 0
stage cs_deps_running = 1
stage cs_running = 2
stage cs_finished = 3

-- A prerequisite of a file: the `struct dep` without its links.
pub record Prereq : Type 0 where
  pub file : ℕ
  pub changed : Bool
  pub ignore_mtime : Bool
  pub wait_here : Bool

-- `double_colon` lists the entries of a double-colon file, from the first along `prev`; it is empty
-- for any other file. A pointer of a double-colon entry to the first one is the head of that list.
pub record Target : Type 0 where
  pub deps : List Prereq
  pub cmds : Option Commands
  pub also_make : List ℕ
  pub double_colon : List ℕ
  pub last_mtime : ℕ
  pub mtime_before_update : ℕ
  pub considered : ℕ
  pub update_status : UpdateStatus
  pub command_state : CmdState
  pub tried_implicit : Bool
  pub updating : Bool
  pub updated : Bool
  pub is_target : Bool
  pub phony : Bool
  pub intermediate : Bool
  pub secondary : Bool
  pub notintermediate : Bool
  pub dontcare : Bool

abbrev pub Files : Type 0
Files = ℕ → Target

-- The options of the command line that the update reads.
pub record Options : Type 0 where
  pub touch_flag : Bool
  pub question_flag : Bool
  pub just_print_flag : Bool
  pub keep_going_flag : Bool
  pub always_make_flag : Bool
  pub no_intermediates : Bool

abbrev pub unknown_mtime : ℕ
unknown_mtime = 0

abbrev pub nonexistent_mtime : ℕ
nonexistent_mtime = 1

-- The largest value of the 64 bits of `FILE_TIMESTAMP`.
abbrev pub new_mtime : ℕ
new_mtime = 18446744073709551615

abbrev pub is_running : CmdState → Bool
is_running cs_running = true
is_running _ = false

abbrev pub is_finished : CmdState → Bool
is_finished cs_finished = true
is_finished _ = false

abbrev pub is_not_started : CmdState → Bool
is_not_started cs_not_started = true
is_not_started _ = false

abbrev pub is_success : UpdateStatus → Bool
is_success us_success = true
is_success _ = false

abbrev pub is_us_none : UpdateStatus → Bool
is_us_none us_none = true
is_us_none _ = false

abbrev pub has_cmds : Target → Bool
has_cmds f = elim f.cmds [ none ↦ false | some c ↦ true ]

-- What happens to the `also_make` files of one that goes to the state `state`.
abbrev pub raise_state : CmdState → Target → Target
raise_state state f =
    if ltb (stage f.command_state) (stage state) then record f { command_state = state } else f

unfoldable pub raise_states : CmdState → List ℕ → Files → Files
raise_states state [] files = files
raise_states state (d ∷ ds) files = raise_states state ds (at d (raise_state state (files d)) files)

unfoldable pub set_command_state : ℕ → CmdState → Files → Files
unfolding raise_states
set_command_state file state files =
    raise_states state (files file).also_make
      (at file (record (files file) { command_state = state }) files)

-- The end of `f_mtime`: what becomes of one entry of the file when its time is found to be `mtime`.
-- `propagate` is whether the first entry has been updated.
abbrev pub store_mtime : ℕ → Bool → Target → Target
store_mtime mtime propagate f =
    let g =
      if (not (mtime == nonexistent_mtime)
        && is_not_started f.command_state
        && not f.tried_implicit
        && f.intermediate)
      then record f { intermediate = false }
      else f in
    if same_bool f.updated propagate then record g { last_mtime = mtime } else g
  where
    same_bool : Bool → Bool → Bool
    same_bool true b = b
    same_bool false b = not b

unfoldable pub store_mtimes : ℕ → Bool → List ℕ → Files → Files
store_mtimes mtime propagate [] files = files
store_mtimes mtime propagate (f ∷ fs) files =
    store_mtimes mtime propagate fs (at f (store_mtime mtime propagate (files f)) files)

abbrev pub entries : ℕ → List ℕ → List ℕ
entries file [] = file ∷ []
entries file (first ∷ rest) = first ∷ rest

abbrev pub head_entry : ℕ → List ℕ → ℕ
head_entry file [] = file
head_entry file (first ∷ rest) = first

-- `f_mtime` of a file that is not a member of an archive, where VPATH is not set. `name_mtime` gives
-- the time that the system tells of the file.
unfoldable pub f_mtime : (ℕ → ℕ) → ℕ → Files → Files
unfolding store_mtimes
f_mtime name_mtime file files =
    let chain = (files file).double_colon in
    store_mtimes (name_mtime file) (files (head_entry file chain)).updated (entries file chain)
      files

-- The time that `file_mtime` returns, and the store that it leaves.
unfoldable pub file_mtime : (ℕ → ℕ) → ℕ → Files → ℕ × Files
unfolding f_mtime
file_mtime name_mtime file files =
    if (files file).last_mtime == unknown_mtime
    then (name_mtime file, f_mtime name_mtime file files)
    else ((files file).last_mtime, files)

-- Whether a file is one of the list.
abbrev pub is_among : ℕ → List ℕ → Bool
is_among g [] = false
is_among g (d ∷ ds) = (g == d) || is_among g ds
