-- ===== src/Remake/Decide.antt =====
-- src/remake.c: the last part of `update_file_1`, which decides whether a file whose prerequisites
-- are all finished is to be remade, and acts on it. It gets `noexist`, `this_mtime` and `must_make`
-- as the parts before have left them. VPATH is not set, so a file keeps its name.
use make.Remake.{
  UpdateStatus, us_success, Prereq, Target, Files, Options, nonexistent_mtime, has_cmds, file_mtime,
}
use make.Remake.Finish.{System, notice_finished_file, Remade, starts, settles, remake_file}
use make.Prelude.{
  ℕ, Bool, true, false, not, ◌&&◌, ◌||◌, Option, none, some, List, [], ◌∷◌, at, ◌==◌, ltb,
  if◌then◌else◌,
}

-- What the loop over the prerequisites finds, and the prerequisites with `changed` recorded.
pub record Scan : Type 0 where
  pub files : Files
  pub must_make : Bool
  pub deps_changed : Bool
  pub deps : List Prereq

-- `d->changed |= noexist || d_mtime > this_mtime`, with `d_mtime` first.
unfoldable pub record_change : ℕ → Bool → ℕ → Prereq → Prereq
record_change d_mtime noexist this_mtime d = record d {
  changed = d.changed || noexist || ltb this_mtime d_mtime;
}

unfoldable pub missing : ℕ → Bool → Prereq → Bool
missing d_mtime is_intermediate d =
    not d.ignore_mtime && d_mtime == nonexistent_mtime && not is_intermediate

unfoldable pub scan_deps : System → Bool → ℕ → List Prereq → Bool → Bool → Files → Scan
unfolding record_change missing
scan_deps sys noexist this_mtime [] must_make deps_changed files = record {
  files = files;
  must_make = must_make;
  deps_changed = deps_changed;
  deps = [];
}
scan_deps sys noexist this_mtime (d ∷ ds) must_make deps_changed files =
    let (d_mtime, after) = file_mtime sys.name_mtime d.file files in
    let rest =
      scan_deps sys noexist this_mtime ds
        (must_make || missing d_mtime (after d.file).intermediate d)
        (deps_changed || (not d.ignore_mtime && d.changed)) after in
    record rest { deps = record_change d_mtime noexist this_mtime d ∷ rest.deps }

abbrev pub is_nil {ℓ} : {A : Type ℓ} → List A → Bool
is_nil [] = true
is_nil (x ∷ xs) = false

-- The three tests after the loop.
unfoldable pub decide : Options → Target → Bool → Bool → Bool → Bool
decide opts f noexist deps_changed must_make =
    if not (is_nil f.double_colon) && is_nil f.deps
    then true
    else if not noexist
        && f.is_target
        && not deps_changed
        && not (has_cmds f)
        && not opts.always_make_flag
    then false
    else must_make || (has_cmds f && opts.always_make_flag)

-- What becomes of the file: its recipe is started, or the status is known.
pub data Considered : Type 0 where
  runs : Files → Considered
  returns : UpdateStatus → Files → Considered

unfoldable pub leave_alone : Options → System → ℕ → Files → Considered
leave_alone opts sys file files =
    let f = files file in
    let kept =
      if not f.notintermediate && not opts.no_intermediates
      then at file (record f { secondary = true }) files
      else files in
    returns us_success (notice_finished_file opts sys file kept)

-- What is left when `remake_file` has been called.
unfoldable pub after_remake : ℕ → Files → Option Remade → Option Considered
after_remake file files none = none
after_remake file files (some starts) = some (runs files)
after_remake file files (some (settles after)) =
    some
      (returns (after file).update_status (at file (record (after file) { updated = true }) after))

unfoldable pub remake : Options → System → Bool → ℕ → Files → Option Considered
unfolding after_remake
remake opts sys rebuilding_makefiles file files =
    after_remake file files (remake_file opts sys rebuilding_makefiles file files)

-- The decision, and the store with what has changed recorded in the prerequisites of the file.
unfoldable pub must_remake : Options → System → Bool → ℕ → Bool → ℕ → Files → Bool × Files
unfolding scan_deps decide
must_remake opts sys noexist this_mtime must_make file files =
    let s = scan_deps sys noexist this_mtime (files file).deps must_make false files in
    let f = record (s.files file) { deps = s.deps } in
    (decide opts f noexist s.deps_changed s.must_make, at file f s.files)

unfoldable pub consider : Options → System → Bool → Bool → ℕ → Bool → ℕ → Files → Option Considered
unfolding must_remake leave_alone remake
consider opts sys rebuilding_makefiles noexist this_mtime must_make file files =
    let (needed, marked) = must_remake opts sys noexist this_mtime must_make file files in
    if needed
    then remake opts sys rebuilding_makefiles file marked
    else some (leave_alone opts sys file marked)
