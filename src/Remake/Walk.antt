-- ===== src/Remake/Walk.antt =====
-- src/remake.c: the walk over the prerequisites, `update_file`, `update_file_1` and `check_dep`, when
-- no makefile is being remade. It is on fuel: `none` is that it ran out. Recipes that make several
-- files, a second expansion of prerequisites, a default recipe, file systems with a low resolution
-- of times and the order of --shuffle are left out.
pub mod Calls
pub mod Graph
pub mod Kept
pub mod Loops
pub mod Calling
pub mod Checking
pub mod Ends
use make.Remake.{
  UpdateStatus, us_success, us_none, us_failed, rank, CmdState, cs_not_started, cs_deps_running,
  cs_running, cs_finished, Prereq, Target, Files, Options, nonexistent_mtime, is_success,
  is_us_none, is_finished, has_cmds, set_command_state, entries, head_entry, file_mtime,
}
use make.Remake.Finish.{System, notice_finished_file}
use make.Remake.Decide.{Considered, runs, returns, consider}
use make.Prelude.{
  ℕ, zero, suc, Bool, true, false, not, ◌&&◌, ◌||◌, Option, none, some, List, [], ◌∷◌, ◌++◌, at,
  ◌==◌, ltb, if◌then◌else◌,
}

-- What the walk is given: the options, the system, `try_implicit_rule`, `execute_file_commands`, and
-- the number of this pass over the graph.
pub record Pass : Type 0 where
  pub opts : Options
  pub sys : System
  pub try_implicit_rule : ℕ → Files → Files
  pub execute_file_commands : ℕ → Files → Files
  pub considered : ℕ

-- How a call ends: make dies, or there is a status, with `must_make` for `check_dep`.
pub data Reply : Type 0 where
  dies : Reply
  replies : UpdateStatus → Bool → Files → Reply

-- What follows a call that has a status.
unfoldable pub and_then : Option Reply → (UpdateStatus → Bool → Files → Option Reply) → Option Reply
and_then none next = none
and_then (some dies) next = some dies
and_then (some (replies new must files)) next = next new must files

abbrev pub first_entry : ℕ → Files → ℕ
first_entry f files = head_entry f (files f).double_colon

abbrev pub is_updating : ℕ → Files → Bool
is_updating f files = (files (first_entry f files)).updating

unfoldable pub mark_updating : Bool → ℕ → Files → Files
mark_updating b f files =
    let first = first_entry f files in at first (record (files first) { updating = b }) files

unfoldable pub worse : UpdateStatus → UpdateStatus → UpdateStatus
worse new status = if ltb (rank status) (rank new) then new else status

abbrev pub in_progress : CmdState → Bool
in_progress cs_running = true
in_progress cs_deps_running = true
in_progress _ = false

-- The `do` loop over the entries of a prerequisite.
unfoldable pub any_in_progress : List ℕ → Files → Bool
any_in_progress [] files = false
any_in_progress (f ∷ fs) files = in_progress (files f).command_state || any_in_progress fs files

-- The variables of the loops of `update_file_1`.
pub record Loop : Type 0 where
  pub dep_status : UpdateStatus
  pub must_make : Bool
  pub running : Bool
  pub files : Files

abbrev pub set_deps : ℕ → List Prereq → Files → Files
set_deps file ds files = at file (record (files file) { deps = ds }) files

-- A call that a loop makes for a prerequisite, and what becomes of the loop.
abbrev pub Call : Type 0
Call = ℕ → Bool → Files → Option Reply

abbrev pub Rest : Type 0
Rest = Loop → Option Reply

-- After the call for `d`: `kept` and `ds` are the prerequisites before and behind it, `mtime` is its
-- time before the call, and `goes_on` is the rest of the loop.
unfoldable pub after_dep :
    Pass
    → ℕ
    → List Prereq
    → Prereq
    → List Prereq
    → ℕ
    → Bool
    → Rest
    → (Prereq → Rest)
    → Loop
    → UpdateStatus
    → Bool
    → Files
    → Option Reply
unfolding any_in_progress worse
after_dep p file kept d ds mtime by_time leave goes_on l new maybe_make files =
    let status = worse new l.dep_status in
    let must = if by_time && not d.ignore_mtime then maybe_make else l.must_make in
    let run = l.running || any_in_progress (entries d.file (files d.file).double_colon) files in
    let (now, after) = file_mtime p.sys.name_mtime d.file files in
    let by_recipe = not by_time && (files file).phony && has_cmds (files file) in
    let changed = by_recipe || not (now == mtime) || (by_time && mtime == nonexistent_mtime) in
    let d' = record d { changed = changed } in
    let stay : Loop = record {
      dep_status = status;
      must_make = must;
      running = run;
      files = files;
    } in
    if not (is_success status) && not p.opts.keep_going_flag
    then leave stay
    else if run
    then goes_on d stay
    else goes_on d' (record stay {
      files = set_deps file (kept ++ (d' ∷ ds)) (if by_recipe then files else after);
    })

-- The first loop: `check_dep` on each prerequisite that is not being updated; the others are dropped.
unfoldable pub each_prereq : Pass → Call → ℕ → List Prereq → List Prereq → Rest → Rest
unfolding after_dep and_then
each_prereq p check file kept [] leave l = leave l
each_prereq p check file kept (d ∷ ds) leave l =
    let (mtime, files) = file_mtime p.sys.name_mtime d.file l.files in
    let dropped =
      each_prereq p check file kept ds leave
        (record l { files = set_deps file (kept ++ ds) files }) in
    let checked = and_then (check d.file l.must_make files) (
      after_dep p file kept d ds mtime true leave
        (λ d'. each_prereq p check file (kept ++ (d' ∷ [])) ds leave) l) in
    if d.wait_here && l.running
    then leave l
    else if is_updating d.file files
    then dropped
    else checked

-- The second loop: `update_file` on each intermediate prerequisite, considered anew.
unfoldable pub each_intermediate : Pass → Call → ℕ → List Prereq → List Prereq → Rest → Rest
unfolding after_dep and_then
each_intermediate p update file kept [] leave l = leave l
each_intermediate p update file kept (d ∷ ds) leave l =
    let (mtime, files) = file_mtime p.sys.name_mtime d.file l.files in
    let anew = at d.file (record (files d.file) { considered = 0 }) files in
    let skipped = each_intermediate p update file (kept ++ (d ∷ [])) ds leave l in
    let updated = and_then (update d.file l.must_make anew) (
      after_dep p file kept d ds mtime false leave
        (λ d'. each_intermediate p update file (kept ++ (d' ∷ [])) ds leave) l) in
    if d.wait_here && l.running
    then leave l
    else if (l.files d.file).intermediate
    then updated
    else skipped

-- What `execute_file_commands` has left.
abbrev pub executed : ℕ → Files → Reply
executed f files =
    if is_finished (files f).command_state
    then replies (files f).update_status false (at f (record (files f) { updated = true }) files)
    else replies us_success false files

unfoldable pub decided : Pass → ℕ → Option Considered → Option Reply
decided p f none = some dies
decided p f (some (runs files)) = some (executed f (p.execute_file_commands f files))
decided p f (some (returns status files)) = some (replies status false files)

abbrev pub waits_for_deps : CmdState → Bool
waits_for_deps cs_deps_running = true
waits_for_deps _ = false

-- `update_file_1` from "We've decided what we need to do" on.
unfoldable pub after_loops : Pass → ℕ → Bool → ℕ → Rest
unfolding decided
after_loops p f noexist this_mtime l =
    let files = mark_updating false f l.files in
    let failed = if is_us_none l.dep_status then us_failed else l.dep_status in
    let gives_up =
      notice_finished_file p.opts p.sys f
        (at f (record (files f) { update_status = failed }) files) in
    let ready =
      if waits_for_deps (files f).command_state
      then set_command_state f cs_not_started files
      else files in
    if l.running
    then some (replies us_success false (set_command_state f cs_deps_running files))
    else if not (is_success l.dep_status)
    then some (replies l.dep_status false gives_up)
    else decided p f (consider p.opts p.sys false noexist this_mtime l.must_make f ready)

-- The search for an implicit rule, where there is no recipe.
unfoldable pub search_rule : Pass → ℕ → Files → Files
search_rule p f files =
    let found = p.try_implicit_rule f files in
    if not (files f).phony && not (has_cmds (files f)) && not (files f).tried_implicit
    then at f (record (found f) { tried_implicit = true }) found
    else files
