-- ===== src/Tests/Walking.antt =====
-- Runs of the walk over the prerequisites.
use make.Commands.{Commands}
use make.Remake.{us_question, Prereq, Files, f_mtime, file_mtime, set_command_state}
use make.Remake.Finish.{notice_finished_file, remake_file, remake_with}
use make.Remake.Decide.{consider}
use make.Remake.Walk.{Pass}
use make.Remake.Walk.Calls.{walk, updates}
use make.Remake.Walk.Graph.{IsNode, IsGraph, change-IsGraph}
use make.Remake.Walk.Kept.{notice_finished_file-IsGraph}
use make.Remake.Walk.Loops.{Ends}
use make.Remake.Walk.Calling.{Keeps}
use make.Remake.Walk.Ends.{IsEntries, walk-Ends}
use make.Tests.Remaking.{no_options, quiet_system, plain}
use make.Prelude.{
  ℕ, ◌≡◌, refl, Bool, true, false, Option, none, some, List, [], ◌∷◌, ◌==◌, at, if◌then◌else◌,
  if-both, Returns, arith,
}

abbrev on : ℕ → Prereq
on f = record { file = f; changed = false; ignore_mtime = false; wait_here = false }

abbrev recipe : Commands
recipe = record {
  commands = [];
  command_lines = some ([] ∷ []);
  lines_flags = record { recurse = false; silent = false; noerror = false } ∷ [];
  any_recurse = false;
}

-- Under -q the recipe of a file is not run: its status says that it would be.
abbrev asking : Pass
asking = record {
  opts = record no_options { question_flag = true };
  sys = record quiet_system { name_mtime = λ f. 1 };
  try_implicit_rule = λ f files. files;
  execute_file_commands = λ f files.
      notice_finished_file (record no_options { question_flag = true })
        (record quiet_system { name_mtime = λ f. 1 }) f
        (at f (record (files f) { update_status = us_question }) files);
  considered = 1;
}

-- The makefile `1: 3 2`, `2: 3 1`, with a recipe for 3; 1 and 2 are intermediate.
abbrev circular : Files
circular f =
    if f == 1
    then record plain { deps = on 3 ∷ on 2 ∷ []; intermediate = true; last_mtime = 1 }
    else if f == 2
    then record plain { deps = on 3 ∷ on 1 ∷ []; intermediate = true; last_mtime = 1 }
    else record plain { last_mtime = 1; cmds = some recipe }

abbrev is_none {ℓ} : {A : Type ℓ} → Option A → Bool
is_none none = true
is_none (some a) = false

-- Without `-k` the walk of this makefile goes from 1 to 2 and back for ever: 3 ends each first
-- loop, and the second loops look at intermediate prerequisites without a test of the mark.
for_ever_test : is_none (walk asking 25 (updates 1) false circular) ≡ true
unfolding walk consider notice_finished_file f_mtime file_mtime set_command_state remake_file
    remake_with
for_ever_test = refl

abbrev going : Pass
going = record asking { opts = record no_options { question_flag = true; keep_going_flag = true } }

-- With it the first loop drops the prerequisite that closes the circle.
going_test : is_none (walk going 9 (updates 1) false circular) ≡ false
unfolding walk consider notice_finished_file f_mtime file_mtime set_command_state remake_file
    remake_with
going_test = refl

-- The same circle without intermediate files.
abbrev circle : Files
circle f =
    if f == 1
    then record plain { deps = on 3 ∷ on 2 ∷ []; last_mtime = 1 }
    else if f == 2
    then record plain { deps = on 3 ∷ on 1 ∷ []; last_mtime = 1 }
    else record plain { last_mtime = 1; cmds = some recipe }

abbrev single : ℕ → List ℕ
single f = []

abbrev none_marked : ℕ → Bool
none_marked f = false

circle-IsGraph : IsGraph 4 single none_marked circle
circle-IsGraph f =
    if-both (IsNode 4 single none_marked f) (f == 1) _ _
      (record {
        marked = refl;
        entries = refl;
        kept = refl;
        below = (omega arith, (omega arith, tt));
      })
      (if-both (IsNode 4 single none_marked f) (f == 2) _ _
        (record {
          marked = refl;
          entries = refl;
          kept = refl;
          below = (omega arith, (omega arith, tt));
        })
        (record { marked = refl; entries = refl; kept = refl; below = tt }))

asking-Keeps : Keeps 4 single asking
asking-Keeps = record {
  searches = λ b f files h. h;
  executes = λ b f files h.
      notice_finished_file-IsGraph 4 single b asking.opts asking.sys f
        (at f (record (files f) { update_status = us_question }) files)
        (change-IsGraph 4 single b f (record (files f) { update_status = us_question }) files refl
          refl refl refl h);
}

single-IsEntries : IsEntries 4 single
single-IsEntries = record { first = λ f lt. lt; all = λ f lt. (lt, refl, tt) }

walk-Ends_example : Returns (walk asking 15 (updates 1) false circle) (Ends 4 single none_marked 1)
walk-Ends_example =
    walk-Ends 4 single asking asking-Keeps single-IsEntries 15 1 none_marked false circle
      (omega arith) (omega arith) circle-IsGraph
