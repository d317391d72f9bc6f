-- ===== src/Jobs/Start.antt =====
-- src/job.c: `free_child`, `start_waiting_job`, `start_waiting_jobs` and the way of `new_job` to a
-- slot or a token.
use make.Remake.{
  CmdState, cs_not_started, cs_deps_running, cs_running, cs_finished, us_success, Files,
  set_command_state,
}
use make.Remake.Finish.{notice_finished_file}
use make.Jobs.{
  Command, Pid, no_pid, process, Child, Jobs, Settings, Moment, job_next_command, start_job_command,
}
use make.Prelude.{
  ℕ, ◌+◌, ◌-◌, Bool, true, false, not, ◌&&◌, ◌||◌, Option, none, some, List, [], ◌∷◌, ◌>>=◌, at,
  ◌==◌, ltb, leb, if◌then◌else◌,
}

-- What is freed is not modelled; `none` is the fatal error that no token is left.
unfoldable pub free_child : Settings → Jobs → Option Jobs
free_child s j =
    if j.jobserver_tokens == 0
    then none
    else some (record j {
      jobserver_tokens = j.jobserver_tokens - 1;
      pool = if s.jobserver_enabled && ltb 1 j.jobserver_tokens then j.pool + 1 else j.pool;
    })

-- `job_limit`, and the test that goes with it.
unfoldable pub too_many_active : Settings → Moment → Bool
too_many_active s m =
    let job_limit = if s.jobserver_enabled then s.master_job_slots else s.job_slots in
    s.memory_aware_flag && ltb 1 job_limit && leb job_limit m.active_jobs_count

-- Whether the job has to wait.
unfoldable pub must_wait : Settings → Moment → Jobs → Bool
unfolding too_many_active
must_wait s m j =
    (not m.start_remote_job_p && ltb 0 j.job_slots_used && m.load_too_high) || too_many_active s m

abbrev pub is_process : Pid → Bool
is_process (process p) = true
is_process _ = false

-- The case `cs_running`; `none` is the failed assertion.
unfoldable pub put_on_chain : Child → Jobs → Option Jobs
put_on_chain c j =
    if is_process c.pid
    then (if c.jobslot == 0
        then some (record j {
          job_slots_used = j.job_slots_used + 1;
          children = record c { jobslot = 1 } ∷ j.children;
        })
        else none)
    else some (record j { children = c ∷ j.children })

-- The `switch` on the state of the file of the child that has been started.
unfoldable pub place_child : Settings → Child → Jobs → CmdState → Option Jobs
unfolding free_child put_on_chain
place_child s c j cs_running = put_on_chain c j
place_child s c j cs_not_started =
    let succeeded = at c.file (record (j.files c.file) { update_status = us_success }) j.files in
    free_child s (record j { files = notice_finished_file s.options s.system c.file succeeded })
place_child s c j cs_finished =
    free_child s (record j { files = notice_finished_file s.options s.system c.file j.files })
place_child s c j cs_deps_running = none

abbrev pub started_one : Settings → Child → Jobs → Child × Files → Option (Jobs × Bool)
started_one s c j (c', files) =
    place_child s c' (record j { files = files }) (files c.file).command_state >>= λ j'.
    some (j', true)

-- The result tells whether the child was started.
unfoldable pub start_waiting_job : Settings → Moment → Child → Jobs → Option (Jobs × Bool)
unfolding must_wait place_child
start_waiting_job s m c j =
    let c' = record c { remote = m.start_remote_job_p } in
    if must_wait s m j
    then some (
      record j {
        files = set_command_state c.file cs_running j.files;
        waiting_jobs = c' ∷ j.waiting_jobs;
      },
      false,
    )
    else started_one s c' j (start_job_command s m c' j.files)

-- One attempt of `new_job` to have a slot or a token; `none` is to wait and to try again.
unfoldable pub claim_slot : Settings → Jobs → Option Jobs
claim_slot s j =
    let more = record j { jobserver_tokens = j.jobserver_tokens + 1 } in
    if not (s.job_slots == 0)
    then (if j.job_slots_used == s.job_slots then none else some more)
    else if s.jobserver_enabled && not (j.jobserver_tokens == 0)
    then (if j.pool == 0 then none else some (record more { pool = j.pool - 1 }))
    else some more

-- The child that `new_job` makes for the file, with the lines of its recipe expanded.
unfoldable pub new_child : Bool → ℕ → List (List Command) → Child
unfolding job_next_command
new_child dontcare file lines =
    (job_next_command (record {
      file = file;
      command_ptr = [];
      command_lines = lines;
      pid = no_pid;
      remote = false;
      noerror = false;
      recursive = false;
      jobslot = 0;
      dontcare = dontcare;
    })).0

-- From the slot on; the loops that reap and wait before it are rounds of their own.
unfoldable pub new_job : Settings → Moment → ℕ → List (List Command) → Jobs → Option Jobs
unfolding start_waiting_job new_child
new_job s m file lines j =
    start_waiting_job s m (new_child (j.files file).dontcare file lines) j >>= λ r. some r.0

-- The round for the list `waiting` of the jobs that wait.
unfoldable pub start_from : Settings → Moment → List Child → Jobs → Option (Jobs × Bool)
start_from s m [] j = some (j, false)
start_from s m (job ∷ rest) j = start_waiting_job s m job (record j { waiting_jobs = rest })

-- One round of the loop of `start_waiting_jobs`, after it has reaped.
unfoldable pub start_first : Settings → Moment → Jobs → Option (Jobs × Bool)
unfolding start_waiting_job start_from
start_first s m j = start_from s m j.waiting_jobs j
