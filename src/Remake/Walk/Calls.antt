-- ===== src/Remake/Walk/Calls.antt =====
-- src/remake.c: `update_file_1`, `update_file` and `check_dep`, and the walk in which they call one
-- another.
use make.Remake.{
  UpdateStatus, us_success, rank, CmdState, cs_not_started, cs_deps_running, cs_running,
  cs_finished, Prereq, Files, nonexistent_mtime, is_success, is_finished, is_running,
  set_command_state, entries, file_mtime,
}
use make.Remake.Walk.{
  Pass, Reply, replies, and_then, first_entry, is_updating, mark_updating, worse, in_progress,
  waits_for_deps, Loop, set_deps, Call, Rest, each_prereq, each_intermediate, after_loops,
  search_rule,
}
use make.Prelude.{
  ℕ, zero, suc, Bool, true, false, not, ◌&&◌, ◌||◌, Option, none, some, List, [], ◌∷◌, ◌++◌, at,
  ◌==◌, ltb, if◌then◌else◌,
}

-- From the start of the first loop on.
unfoldable pub after_search : Pass → (ℕ → Call) → Call → ℕ → ℕ → Files → Option Reply
unfolding each_prereq each_intermediate after_loops
after_search p check update f this_mtime files =
    let noexist = this_mtime == nonexistent_mtime in
    let finish : Rest = after_loops p f noexist this_mtime in
    let second : Rest = λ l.
      if l.must_make || p.opts.always_make_flag
      then each_intermediate p update f [] (l.files f).deps finish l
      else finish l in
    each_prereq p (check this_mtime) f [] (files f).deps second
      (record { dep_status = us_success; must_make = noexist; running = false; files = files })

-- The `switch` on the state of the file.
unfoldable pub by_state : UpdateStatus → Files → Option Reply → CmdState → Option Reply
by_state status files goes_on cs_not_started = goes_on
by_state status files goes_on cs_deps_running = goes_on
by_state status files goes_on cs_running = some (replies us_success false files)
by_state status files goes_on cs_finished = some (replies status false files)

-- `check` and `update` are the calls of `check_dep`, given `this_mtime`, and of `update_file`.
unfoldable pub update_file_1 : Pass → (ℕ → Call) → Call → ℕ → Files → Option Reply
unfolding search_rule after_search mark_updating by_state
update_file_1 p check update f files =
    let t = files f in
    let (this_mtime, timed) = file_mtime p.sys.name_mtime f (mark_updating true f files) in
    let goes_on = after_search p check update f this_mtime (search_rule p f timed) in
    if t.updated
    then some
        (replies (if ltb 1 (rank t.update_status) then t.update_status else us_success) false files)
    else by_state t.update_status files goes_on t.command_state

-- The loop of `update_file` over the entries; `one` is the call of `update_file_1`.
unfoldable pub each_entry : Pass → Call → List ℕ → UpdateStatus → Files → Option Reply
unfolding and_then
each_entry p one [] status files = some (replies status false files)
each_entry p one (f ∷ fs) status files =
    and_then (one f false (at f (record (files f) { considered = p.considered }) files))
      λ new _ after.
        let rest = each_entry p one fs (worse new status) after in
        if not (is_success new) && not p.opts.keep_going_flag
        then some (replies new false after)
        else if in_progress (after f).command_state
        then some (replies us_success false after)
        else rest

-- A file seen in this pass is pruned; that a diagnostic may still be wanted is left out.
unfoldable pub update_file : Pass → Call → ℕ → Files → Option Reply
unfolding each_entry
update_file p one f files =
    let first = files (first_entry f files) in
    let status = if is_finished first.command_state then first.update_status else us_success in
    if first.considered == p.considered
    then some (replies status false files)
    else each_entry p one (entries f (files f).double_colon) us_success files

-- The loop of `check_dep` over the prerequisites of an intermediate file.
unfoldable pub each_checked : Pass → Call → ℕ → List Prereq → List Prereq → Rest → Rest
unfolding and_then
each_checked p check file kept [] leave l = leave l
each_checked p check file kept (d ∷ ds) leave l =
    let dropped =
      each_checked p check file kept ds leave
        (record l { files = set_deps file (kept ++ ds) l.files }) in
    let checked = and_then (check d.file l.must_make l.files) λ new maybe_make files.
      let status = worse new l.dep_status in
      let stay : Loop = record {
        dep_status = status;
        must_make = if d.ignore_mtime then l.must_make else maybe_make;
        running = l.running;
        files = files;
      } in
      let run = l.running || in_progress (files d.file).command_state in
      let rest =
        each_checked p check file (kept ++ (d ∷ [])) ds leave (record stay { running = run }) in
      if not (is_success status) && not p.opts.keep_going_flag then leave stay else rest in
    if is_updating d.file l.files then dropped else checked

-- An intermediate file that is not running is to be looked at afresh.
unfoldable pub start_afresh : Pass → ℕ → Files → Files
start_afresh p f files =
    let t = files f in
    let anew =
      if waits_for_deps t.command_state then at f (record t { considered = 0 }) files else files in
    if is_running t.command_state then files else set_command_state f cs_not_started anew

-- The end of `check_dep` for an intermediate file.
unfoldable pub checked_all : ℕ → Rest
checked_all f l =
    let files = if l.running then set_command_state f cs_deps_running l.files else l.files in
    some (replies l.dep_status l.must_make (mark_updating false f files))

unfoldable pub check_dep : Pass → Call → Call → ℕ → ℕ → Bool → Files → Option Reply
unfolding each_checked start_afresh checked_all search_rule mark_updating
check_dep p update check this_mtime f must_make files =
    let started = mark_updating true f files in
    let (mtime, found) = file_mtime p.sys.name_mtime f (search_rule p f started) in
    let afresh = start_afresh p f found in
    if (files f).phony || not (files f).intermediate
    then (and_then (update f must_make started) λ status _ after.
        let (time, timed) = file_mtime p.sys.name_mtime f after in
        some (
          replies status (must_make || time == nonexistent_mtime || ltb this_mtime time)
            (mark_updating false f timed)))
    else if not (mtime == nonexistent_mtime) && ltb this_mtime mtime
    then some (replies us_success true (mark_updating false f found))
    else each_checked p check f [] (afresh f).deps (checked_all f)
        (record { dep_status = us_success; must_make = must_make; running = false; files = afresh })

-- The three functions, which call one another.
pub data Visit : Type 0 where
  updates : ℕ → Visit
  updates_one : ℕ → Visit
  checks : ℕ → ℕ → Visit

unfoldable pub walk : Pass → ℕ → Visit → Bool → Files → Option Reply
unfolding update_file update_file_1 check_dep
walk p zero v must files = none
walk p (suc n) (updates f) must files = update_file p (λ g. walk p n (updates_one g)) f files
walk p (suc n) (updates_one f) must files =
    update_file_1 p (λ this g. walk p n (checks this g)) (λ g. walk p n (updates g)) f files
walk p (suc n) (checks this f) must files =
    check_dep p (λ g. walk p n (updates g)) (λ g. walk p n (checks this g)) this f must files
