-- ===== src/Jobs/Reap.antt =====
-- src/job.c: one round of the loop of `reap_children`.
use make.Remake.{UpdateStatus, us_success, us_question, us_failed, Files, is_running}
use make.Remake.Finish.{notice_finished_file}
use make.Jobs.{
  no_pid, failed_pid, process, Child, Jobs, Settings, Moment, job_next_command, start_job_command,
}
use make.Jobs.Start.{free_child}
use make.Prelude.{
  ℕ, ◌-◌, Bool, true, false, not, ◌&&◌, Option, none, some, List, [], ◌∷◌, ◌++◌, ◌>>=◌, at, ◌==◌,
  ltb, if◌then◌else◌,
}

-- What the system tells of a process that ended.
pub record Exit : Type 0 where
  pub pid : ℕ
  pub remote : Bool
  pub exit_code : ℕ
  pub exit_sig : ℕ

-- What a round comes to: the child runs another command, the child is gone, or make dies with the
-- status, where a failure is to stop the run.
pub data Reaped : Type 0 where
  goes_on : Jobs → Reaped
  reaped : Jobs → Reaped
  dies : ℕ → Reaped

-- MAKE_SUCCESS, MAKE_TROUBLE and MAKE_FAILURE.
unfoldable pub failure : Settings → Child → Exit → ℕ
failure s c e =
    if e.exit_sig == 0 && e.exit_code == 0
    then 0
    else if e.exit_sig == 0 && e.exit_code == 1 && s.options.question_flag && c.recursive
    then 1
    else 2

abbrev pub set_status : ℕ → UpdateStatus → Files → Files
set_status file status files = at file (record (files file) { update_status = status }) files

-- From "all the commands for c->file are finished" on; `before` and `after` are what stands around
-- the child on the chain.
unfoldable pub remove_child : Settings → ℕ → Child → List Child → List Child → Jobs → Option Reaped
unfolding free_child
remove_child s child_failed c before after j =
    free_child s (record j {
      files = notice_finished_file s.options s.system c.file j.files;
      job_slots_used =
          if ltb 0 j.job_slots_used then j.job_slots_used - c.jobslot else j.job_slots_used;
      children = before ++ after;
    })
    >>= λ j'. some (
        if not (child_failed == 0) && not c.dontcare && not s.options.keep_going_flag
        then dies child_failed
        else reaped j')

-- The next command of the child has been started, or its recipe is over.
unfoldable pub restarted : Settings → List Child → List Child → Jobs → Child × Files → Option Reaped
unfolding remove_child
restarted s before after j (c, files) =
    if is_running (files c.file).command_state
    then some (goes_on (record j { files = files; children = before ++ (c ∷ after) }))
    else remove_child s 0 c before after (record j { files = files })

-- No failure that counts: on to the next command, if there is one.
unfoldable pub next_or_done :
    Settings → Moment → List Child → List Child → Jobs → Child × Bool → Option Reaped
unfolding restarted
next_or_done s m before after j (c, true) =
    restarted s before after j
      (start_job_command s m (record c { remote = m.start_remote_job_p }) j.files)
next_or_done s m before after j (c, false) =
    remove_child s 0 c before after (record j { files = set_status c.file us_success j.files })

unfoldable pub process_child :
    Settings → Moment → Exit → Child → List Child → List Child → Jobs → Option Reaped
unfolding failure next_or_done
process_child s m e c before after j =
    let child_failed = failure s c e in
    if not (child_failed == 0) && not c.noerror && not s.ignore_errors_flag
    then remove_child s child_failed c before after (record j {
      files = set_status c.file (if child_failed == 2 then us_failed else us_question) j.files;
    })
    else next_or_done s m before after j (job_next_command c)

abbrev pub is_unstarted : Child → Bool
is_unstarted c = elim c.pid [ no_pid ↦ false | failed_pid ↦ true | process p ↦ false ]

abbrev pub is_of : Exit → Child → Bool
is_of e c = elim c.pid [
  | no_pid ↦ false
  | failed_pid ↦ false
  | process p ↦ p == e.pid && (if e.remote then c.remote else not c.remote)
]

-- The first child of the chain that passes the test, with what stands around it.
unfoldable pub find_child : (Child → Bool) → List Child → Option (List Child × Child × List Child)
find_child test [] = none
find_child test (c ∷ cs) =
    let rest = find_child test cs >>= λ (before, found, after). some (c ∷ before, found, after) in
    if test c then some ([], c, cs) else rest

-- The process with the exit `e` has ended; a child that could not be started comes first.
unfoldable pub reap_one : Settings → Moment → Exit → Jobs → Option Reaped
unfolding process_child find_child
reap_one s m e j = elim (find_child is_unstarted j.children) [
  | some (before, c, after) ↦
      process_child s m (record e { exit_code = 127; exit_sig = 0 }) c before after j
  | none ↦ elim (find_child (is_of e) j.children) [
    | none ↦ some (goes_on j)
    | some (before, c, after) ↦ process_child s m e c before after j
  ]
]
