-- ===== src/Jobs.antt =====
-- src/job.c: the children that run recipes, the slots and the tokens that they hold, and the list
-- of those that wait. No fatal signal is being handled and no `shell` function runs. What the
-- output of a child, its temporary files, the report of its errors, the guess of the load
-- (`job_counter`) and the reservation of memory need is left out.
pub mod Start
pub mod Reap
pub mod Balance
pub mod Chain
pub mod Safe
pub mod Limit
pub mod Full
pub mod Wait
pub mod Work
pub mod Shrink
pub mod Progress
use make.Remake.{
  CmdState, cs_running, UpdateStatus, us_success, us_question, Files, Options, set_command_state,
}
use make.Remake.Finish.{System, notice_finished_file}
use make.Prelude.{
  ℕ, Bool, true, false, not, ◌&&◌, ◌||◌, Option, none, some, List, [], ◌∷◌, at, if◌then◌else◌,
}

-- One command of a line: whether errors in it are ignored, whether it runs make, whether there is
-- nothing in it to run, and whether it is the empty command `:` of the shell.
pub record Command : Type 0 where
  pub noerror : Bool
  pub recursive : Bool
  pub no_argv : Bool
  pub null_command : Bool

-- The `pid` of a child: zero before the first command, negative where none could be started.
pub data Pid : Type 0 where
  no_pid failed_pid : Pid
  process : ℕ → Pid

-- `command_ptr` has the commands left in the line that is being run, and `command_lines` the lines
-- that `job_next_command` has not come to.
pub record Child : Type 0 where
  pub file : ℕ
  pub command_ptr : List Command
  pub command_lines : List (List Command)
  pub pid : Pid
  pub remote : Bool
  pub noerror : Bool
  pub recursive : Bool
  pub jobslot : ℕ
  pub dontcare : Bool

-- The variables of the job control, with `pool` for the tokens that lie in the jobserver and `others`
-- for those that other makes, above and below this one, have taken from it.
pub record Jobs : Type 0 where
  pub job_slots_used : ℕ
  pub jobserver_tokens : ℕ
  pub children : List Child
  pub waiting_jobs : List Child
  pub pool : ℕ
  pub others : ℕ
  pub files : Files

-- What is settled before any job runs.
pub record Settings : Type 0 where
  pub options : Options
  pub system : System
  pub ignore_errors_flag : Bool
  pub memory_aware_flag : Bool
  pub jobserver_enabled : Bool
  pub master_job_slots : ℕ
  pub job_slots : ℕ

-- What the system says at the moment when a command is to be started, and then of the process: its
-- number, and whether it is on another host, where that was asked for.
pub record Moment : Type 0 where
  pub start_remote_job_p : Bool
  pub load_too_high : Bool
  pub active_jobs_count : ℕ
  pub started_pid : Pid
  pub started_remote : Bool

-- The loop of `job_next_command` over the lines.
unfoldable pub next_line : List (List Command) → List Command × List (List Command)
next_line [] = ([], [])
next_line ([] ∷ ls) = next_line ls
next_line ((c ∷ cs) ∷ ls) = (c ∷ cs, ls)

abbrev pub is_empty {ℓ} : {A : Type ℓ} → List A → Bool
is_empty [] = true
is_empty (x ∷ xs) = false

-- The child at its next command, and whether there is one.
unfoldable pub job_next_command : Child → Child × Bool
unfolding next_line
job_next_command c =
    let (cs, ls) = next_line c.command_lines in
    if is_empty c.command_ptr
    then (record c { command_ptr = cs; command_lines = ls }, not (is_empty cs))
    else (c, true)

-- What `start_job_command` comes to: a command is to be run, with what follows it; -q stops at a
-- command; or there was nothing to run.
pub data Found : Type 0 where
  launched : Command → List Command → List (List Command) → Found
  asked finished : Found

-- The way through the commands of one line; `rest` is what the lines after it come to.
unfoldable pub start_line : Options → List Command → List (List Command) → Found → Found
start_line opts [] ls rest = rest
start_line opts (c ∷ cs) ls rest =
    let on = start_line opts cs ls rest in
    if not c.no_argv && opts.question_flag && not c.recursive
    then asked
    else if c.no_argv || (opts.touch_flag && not c.recursive)
    then on
    else if c.null_command
    then on
    else if opts.just_print_flag && not c.recursive
    then on
    else launched c cs ls

unfoldable pub start_lines : Options → List (List Command) → Found
unfolding start_line
start_lines opts [] = finished
start_lines opts (l ∷ ls) = start_line opts l ls (start_lines opts ls)

-- The child and the files when the command has been started or the recipe is over.
unfoldable pub after_found : Settings → Moment → Child → Files → Found → Child × Files
after_found s m child files (launched c cs ls) = (
  record child {
    command_ptr = cs;
    command_lines = ls;
    noerror = c.noerror;
    recursive = c.recursive;
    pid = m.started_pid;
    remote = child.remote && m.started_remote;
  },
  set_command_state child.file cs_running files,
)
after_found s m child files asked = (
  child,
  notice_finished_file s.options s.system child.file
      (at child.file (record (files child.file) { update_status = us_question }) files),
)
after_found s m child files finished =
    let running = set_command_state child.file cs_running files in
    (
      child,
      notice_finished_file s.options s.system child.file
          (at child.file (record (running child.file) { update_status = us_success }) running),
    )

unfoldable pub start_job_command : Settings → Moment → Child → Files → Child × Files
unfolding start_lines
start_job_command s m child files = after_found s m child files (
    start_line s.options child.command_ptr child.command_lines
      (start_lines s.options child.command_lines))
