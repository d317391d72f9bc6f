-- ===== src/Tests/Remaking.antt =====
-- Runs of the update of targets on small cases.
use make.Commands.{Commands}
use make.Remake.{
  us_success, us_none, cs_not_started, cs_running, Prereq, Target, Files, Options, is_running,
  is_us_none, is_among, f_mtime, file_mtime, unknown_mtime,
}
use make.Remake.Finish.{System, notice_finished_file, propagate_mtime, remake_file}
use make.Remake.Settled.{IsSettled, KeepsSettled, SettledAs, notice_finished_file-IsSettled}
use make.Remake.Entries.{AllUpdated, IsLatest, propagate_mtime-IsLatest}
use make.Remake.Decide.{must_remake}
use make.Remake.Needs.{
  TimesKnown, needs_remaking, mark_change, not_order_only, with_deps, must_remake-needs_remaking,
  must_remake-not_order_only,
}
use make.Remake.Outcome.{Ends, remake_file-Ends}
use make.Prelude.{ℕ, ◌≡◌, refl, true, false, none, some, [], ◌∷◌, map, ◌==◌, if◌then◌else◌}

abbrev pub no_options : Options
no_options = record {
  touch_flag = false;
  question_flag = false;
  just_print_flag = false;
  keep_going_flag = false;
  always_make_flag = false;
  no_intermediates = false;
}

abbrev pub quiet_system : System
quiet_system = record { name_mtime = λ f. 100; touches = λ f. true }

abbrev pub plain : Target
plain = record {
  deps = [];
  cmds = none;
  also_make = [];
  double_colon = [];
  last_mtime = 50;
  mtime_before_update = unknown_mtime;
  considered = 0;
  update_status = us_none;
  command_state = cs_not_started;
  tried_implicit = false;
  updating = false;
  updated = false;
  is_target = true;
  phony = false;
  intermediate = false;
  secondary = false;
  notintermediate = false;
  dontcare = false;
}

abbrev empty_recipe : Commands
empty_recipe = record {
  commands = [];
  command_lines = some ([] ∷ []);
  lines_flags = record { recurse = false; silent = false; noerror = false } ∷ [];
  any_recurse = false;
}

abbrev newer : Prereq
newer = record { file = 2; changed = false; ignore_mtime = false; wait_here = false }

abbrev order_only : Prereq
order_only = record { file = 3; changed = true; ignore_mtime = true; wait_here = false }

-- File 1 has a recipe that ran well and makes file 4 too; file 2 is newer; file 3 does not exist.
abbrev some_files : Files
some_files n =
    if n == 1
    then record plain {
      deps = newer ∷ order_only ∷ [];
      cmds = some empty_recipe;
      also_make = 4 ∷ [];
      command_state = cs_running;
      update_status = us_success;
    }
    else if n == 2
    then record plain { last_mtime = 70 }
    else if n == 3
    then record plain { last_mtime = 1 }
    else plain

-- Files 1 and 2 are the entries of a double-colon file.
abbrev two_entries : Files
two_entries n = record plain {
  double_colon = 1 ∷ 2 ∷ [];
  updated = true;
  last_mtime = if n == 1 then 60 else 80;
}

-- After a recipe has run, the time of the file is asked for again.
ran_test : (notice_finished_file no_options quiet_system 1 some_files 1).last_mtime ≡ unknown_mtime
unfolding notice_finished_file f_mtime
ran_test = refl

peer_test : (notice_finished_file no_options quiet_system 1 some_files 4).last_mtime ≡ 100
unfolding notice_finished_file f_mtime
peer_test = refl

notice_finished_file-IsSettled_example :
    let after = notice_finished_file no_options quiet_system 1 some_files in
    IsSettled (after 1)
    × KeepsSettled some_files after
    × (is_running (some_files 1).command_state ≡ true
        → is_us_none (some_files 1).update_status ≡ false
        → (d : ℕ) → is_among d (some_files 1).also_make ≡ true
        → SettledAs (after 1).update_status (after d))
notice_finished_file-IsSettled_example =
    notice_finished_file-IsSettled no_options quiet_system 1 some_files

both_updated : AllUpdated two_entries (two_entries 1).double_colon
both_updated g e = refl

propagate_mtime-IsLatest_example :
    (t : ℕ) × IsLatest t (two_entries 1).last_mtime (two_entries 1).double_colon two_entries
    × ((g : ℕ)
        → is_among g (two_entries 1).double_colon ≡ true
        → (propagate_mtime 1 two_entries g).last_mtime ≡ t)
    × ((g : ℕ)
        → is_among g (two_entries 1).double_colon ≡ false
        → propagate_mtime 1 two_entries g ≡ two_entries g)
propagate_mtime-IsLatest_example = propagate_mtime-IsLatest 1 two_entries both_updated

latest_test : (propagate_mtime 1 two_entries 1).last_mtime ≡ 80
unfolding propagate_mtime
latest_test = refl

times_known : TimesKnown some_files (some_files 1).deps
times_known = (refl, (refl, tt))

-- File 2 is newer, but that is seen before; the order-only file that does not exist is no reason.
no_need_test : (must_remake no_options quiet_system false 50 false 1 some_files).0 ≡ false
unfolding must_remake file_mtime
no_need_test = refl

must_remake-needs_remaking_example :
    let after = must_remake no_options quiet_system false 50 false 1 some_files in
    (after.0 ≡ needs_remaking no_options some_files (some_files 1) false false (some_files 1).deps)
    × ((after.1 1).deps ≡ map (mark_change some_files false 50) (some_files 1).deps)
must_remake-needs_remaking_example =
    must_remake-needs_remaking no_options quiet_system false 50 false 1 some_files times_known

must_remake-not_order_only_example :
    (must_remake no_options quiet_system false 50 false 1
      (with_deps 1 (not_order_only (some_files 1).deps) some_files)).0
    ≡ (must_remake no_options quiet_system false 50 false 1 some_files).0
must_remake-not_order_only_example =
    must_remake-not_order_only no_options quiet_system false 50 false 1 some_files times_known refl

remake_file-Ends_example :
    Ends no_options quiet_system false 1 some_files
      (remake_file no_options quiet_system false 1 some_files)
remake_file-Ends_example = remake_file-Ends no_options quiet_system false 1 some_files
