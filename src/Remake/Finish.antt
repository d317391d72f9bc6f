-- ===== src/Remake/Finish.antt =====
-- src/remake.c: `notice_finished_file`, `touch_file` and `remake_file`.
use make.Commands.{Commands, LineFlags}
use make.Remake.{
  UpdateStatus, us_success, us_failed, cs_finished, Target, Files, Options, unknown_mtime,
  new_mtime, is_running, is_success, is_us_none, has_cmds, f_mtime,
}
use make.Prelude.{
  ℕ, Bool, true, false, not, ◌&&◌, ◌||◌, Option, none, some, List, [], ◌∷◌, at, ◌==◌, ltb,
  if◌then◌else◌,
}

-- What the update asks of the system: the time of a file, and whether touching it succeeds.
pub record System : Type 0 where
  pub name_mtime : ℕ → ℕ
  pub touches : ℕ → Bool

unfoldable pub touch_file : Options → System → ℕ → UpdateStatus
touch_file opts sys file =
    if opts.just_print_flag then us_success else if sys.touches file then us_success else us_failed

-- The loops over `lines_flags`: whether some line is not a recursive one.
unfoldable pub some_not_recursive : List LineFlags → Bool
some_not_recursive [] = false
some_not_recursive (l ∷ ls) = not l.recurse || some_not_recursive ls

-- Under -t, whether the code comes to `have_nonrecursing`.
unfoldable pub have_nonrecursing : Target → Bool
unfolding some_not_recursive
have_nonrecursing f = elim f.cmds [
  | none ↦ true
  | some c ↦ not c.any_recurse || some_not_recursive c.lines_flags
]

-- The first `if`: whether the file is touched.
unfoldable pub is_touched : Options → Target → Bool
unfolding have_nonrecursing
is_touched opts f =
    opts.touch_flag
    && is_success f.update_status
    && have_nonrecursing f
    && not f.phony
    && has_cmds f

-- The modification time that a file has after its recipe ran: to be asked for again, or new.
unfoldable pub time_after : Options → Target → ℕ
unfolding some_not_recursive
time_after opts f = elim f.cmds [
  | none ↦ if f.is_target then new_mtime else unknown_mtime
  | some c ↦
      if (opts.question_flag || opts.just_print_flag || opts.touch_flag)
        && some_not_recursive c.lines_flags
      then new_mtime
      else unknown_mtime
]

-- The file itself, up to the `if` on `double_colon`.
unfoldable pub finish_entry : Options → System → ℕ → Target → Target
unfolding touch_file is_touched time_after
finish_entry opts sys file f =
    let touched = is_touched opts f in
    record f {
      command_state = cs_finished;
      updated = true;
      update_status = if touched then touch_file opts sys file else f.update_status;
      mtime_before_update =
          if f.mtime_before_update == unknown_mtime then f.last_mtime else f.mtime_before_update;
      last_mtime =
          if (is_running f.command_state && not f.phony) || touched
          then time_after opts f
          else f.last_mtime;
    }

-- The later of two times, where a time that is not known is later than any other.
abbrev pub later : ℕ → ℕ → ℕ
later t max_mtime =
    if not (max_mtime == unknown_mtime) && (t == unknown_mtime || ltb max_mtime t)
    then t
    else max_mtime

-- The first loop over the entries: the latest time, if all have been updated.
unfoldable pub max_of : ℕ → List ℕ → Files → Option ℕ
max_of max_mtime [] files = some max_mtime
max_of max_mtime (f ∷ fs) files =
    let rest = max_of (later (files f).last_mtime max_mtime) fs files in
    if (files f).updated then rest else none

-- The second loop.
unfoldable pub give_times : ℕ → List ℕ → Files → Files
give_times t [] files = files
give_times t (f ∷ fs) files = give_times t fs (at f (record (files f) { last_mtime = t }) files)

unfoldable pub propagate_mtime : ℕ → Files → Files
unfolding max_of give_times
propagate_mtime file files = elim (max_of (files file).last_mtime (files file).double_colon files) [
  | none ↦ files
  | some t ↦ give_times t (files file).double_colon files
]

-- One round of the loop over `also_make`.
abbrev pub settle : UpdateStatus → Target → Target
settle status f = record f { command_state = cs_finished; updated = true; update_status = status }

unfoldable pub finish_peer : System → UpdateStatus → ℕ → Files → Files
finish_peer sys status d files =
    let done = at d (settle status (files d)) files in
    if (files d).phony then done else f_mtime sys.name_mtime d done

unfoldable pub finish_peers : System → UpdateStatus → List ℕ → Files → Files
unfolding finish_peer
finish_peers sys status [] files = files
finish_peers sys status (d ∷ ds) files = finish_peers sys status ds (finish_peer sys status d files)

-- The last `if`, where `ran` tells whether the recipe was running.
unfoldable pub finish_status : System → Bool → ℕ → Files → Files
unfolding finish_peers
finish_status sys ran file files =
    let f = files file in
    if ran && not (is_us_none f.update_status)
    then finish_peers sys f.update_status f.also_make files
    else if is_us_none f.update_status
    then at file (record f { update_status = us_success }) files
    else files

unfoldable pub notice_finished_file : Options → System → ℕ → Files → Files
unfolding finish_entry propagate_mtime finish_status
notice_finished_file opts sys file files =
    finish_status sys (is_running (files file).command_state) file
      (propagate_mtime file (at file (finish_entry opts sys file (files file)) files))

-- What `remake_file` does: start the recipe, or settle the file there and then.
pub data Remade : Type 0 where
  starts : Remade
  settles : Files → Remade

unfoldable pub settle_now : Options → System → UpdateStatus → ℕ → Files → Remade
unfolding notice_finished_file
settle_now opts sys status file files = settles (
    notice_finished_file opts sys file
      (at file (record (files file) { update_status = status }) files))

-- A file without a recipe. `complain`, which only reports, is left out; without -k it ends the run,
-- which is `none` here.
unfoldable pub remake_bare : Options → System → Bool → ℕ → Files → Option Remade
remake_bare opts sys rebuilding_makefiles file files =
    if (files file).phony || (files file).is_target
    then some (settle_now opts sys us_success file files)
    else if not opts.keep_going_flag && not (rebuilding_makefiles && (files file).dontcare)
    then none
    else some (settle_now opts sys us_failed file files)

-- `cmds` is the recipe of the file.
unfoldable pub remake_with : Options → System → Bool → Option Commands → ℕ → Files → Option Remade
remake_with opts sys rebuilding_makefiles none file files =
    remake_bare opts sys rebuilding_makefiles file files
remake_with opts sys rebuilding_makefiles (some c) file files =
    if not opts.touch_flag || c.any_recurse
    then some starts
    else some (settle_now opts sys us_success file files)

unfoldable pub remake_file : Options → System → Bool → ℕ → Files → Option Remade
remake_file opts sys rebuilding_makefiles file files =
    remake_with opts sys rebuilding_makefiles (files file).cmds file files
