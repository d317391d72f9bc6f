-- ===== src/Jobs/Shrink.antt =====
-- A round of `reap_children` takes a command or a child from what is left to run.
use make.Remake.{
  us_success, us_failed, us_question, Files, is_running, cs_running, cs_finished, set_command_state,
}
use make.Remake.Finish.{notice_finished_file}
use make.Remake.Settled.{notice_finished_file-IsSettled}
use make.Jobs.{
  Child, Jobs, Settings, Moment, job_next_command, Found, launched, asked, finished, start_line,
  start_lines, after_found, start_job_command,
}
use make.Jobs.Start.{free_child}
use make.Jobs.Reap.{
  Exit, Reaped, goes_on, reaped, dies, failure, set_status, remove_child, restarted, next_or_done,
  process_child, is_unstarted, is_of, find_child, reap_one,
}
use make.Jobs.Chain.{find_child-middle}
use make.Jobs.Work.{
  pending, work, has_begun, AllBegun, work-middle, AllBegun-take, AllBegun-put, FoundBelow,
  start_lines-below, start_line-below, job_next_command-pending,
}
use make.Prelude.{
  ℕ, ◌<◌, ◌≡◌, ◌≢◌, inl, inr, refl, sym, ap, subst, Bool, true, false, not, ◌&&◌, Option, none,
  some, List, ◌∷◌, ◌++◌, ◌>>=◌, at, ◌==◌, if◌then◌else◌, if-both, arith,
}

-- What a round leaves: less than `n` to run, of children that have begun.
abbrev pub Shrinks : ℕ → Option Reaped → Type 0
Shrinks n none = Unit
Shrinks n (some (goes_on j)) = (work j.children < n) × AllBegun j.children
Shrinks n (some (reaped j)) = (work j.children < n) × AllBegun j.children
Shrinks n (some (dies d)) = Unit

-- The children of the state are these, if there is a state.
abbrev HasChildren : List Child → Option Jobs → Type 0
HasChildren cs none = Unit
HasChildren cs (some j) = j.children ≡ cs

free_child-children : (s : Settings) (j : Jobs) → HasChildren j.children (free_child s j)
unfolding free_child
free_child-children s j = if-both (HasChildren j.children) (j.jobserver_tokens == 0) none _ tt refl

ended-Shrinks :
    (n child_failed : ℕ) (b : Bool) (cs : List Child) (o : Option Jobs)
    → (work cs < n) × AllBegun cs
    → HasChildren cs o
    → Shrinks n (o >>= λ j. some (if b then dies child_failed else reaped j))
ended-Shrinks n child_failed b cs none h e = tt
ended-Shrinks n child_failed b cs (some j) h e =
    if-both (λ r. Shrinks n (some r)) b (dies child_failed) (reaped j) tt
      (subst (λ l. (work l < n) × AllBegun l) (sym e) h)

module _ (s : Settings) (before after : List Child) (old : Child) where
  module _ (begun : AllBegun (before ++ (old ∷ after))) where
    remove_child-Shrinks :
        (child_failed : ℕ) (c : Child) (j : Jobs)
        → Shrinks (work (before ++ (old ∷ after))) (remove_child s child_failed c before after j)
    unfolding remove_child
    remove_child-Shrinks child_failed c j =
        let n = work-middle before after old in
        ended-Shrinks (work (before ++ (old ∷ after))) child_failed
          (not (child_failed == 0) && not c.dontcare && not s.options.keep_going_flag)
          (before ++ after) (free_child s _) (omega arith, AllBegun-take before after old begun)
          (free_child-children s _)

    restarted-Shrinks :
        (m : Moment) (c : Child) (j : Jobs) (files : Files) (found : Found)
        → has_begun m.started_pid ≡ true
        → FoundBelow (pending old) found
        → Shrinks
            (work (before ++ (old ∷ after)))
            (restarted s before after j (after_found s m c files found))
    unfolding restarted after_found
    restarted-Shrinks m c j files (launched x cs ls) real less =
        let c' : Child = record c {
          command_ptr = cs;
          command_lines = ls;
          noerror = x.noerror;
          recursive = x.recursive;
          pid = m.started_pid;
          remote = c.remote && m.started_remote;
        } in
        let after_ : Files = set_command_state c.file cs_running files in
        let n = work-middle before after old in
        let k = work-middle before after c' in
        if-both (Shrinks (work (before ++ (old ∷ after))))
          (is_running (after_ c.file).command_state) _ _
          (omega arith, AllBegun-put before after c' real (AllBegun-take before after old begun))
          (remove_child-Shrinks 0 c' (record j { files = after_ }))
    restarted-Shrinks m c j files asked real less =
        let after_ : Files =
          notice_finished_file s.options s.system c.file
            (at c.file (record (files c.file) { update_status = us_question }) files) in
        let done : (after_ c.file).command_state ≡ cs_finished =
          ((notice_finished_file-IsSettled s.options s.system c.file
            (at c.file (record (files c.file) { update_status = us_question }) files)).0
          ).finished in
        rw (ap is_running done) (remove_child-Shrinks 0 c (record j { files = after_ }))
    restarted-Shrinks m c j files finished real less =
        let running : Files = set_command_state c.file cs_running files in
        let over : Files =
          at c.file (record (running c.file) { update_status = us_success }) running in
        let after_ : Files = notice_finished_file s.options s.system c.file over in
        let done : (after_ c.file).command_state ≡ cs_finished =
          ((notice_finished_file-IsSettled s.options s.system c.file over).0).finished in
        rw (ap is_running done) (remove_child-Shrinks 0 c (record j { files = after_ }))

    next_or_done-Shrinks :
        (m : Moment) (j : Jobs) (r : Child × Bool)
        → has_begun m.started_pid ≡ true
        → pending (r.0) ≡ pending old
        → Shrinks (work (before ++ (old ∷ after))) (next_or_done s m before after j r)
    unfolding next_or_done start_job_command
    next_or_done-Shrinks m j (c, true) real same =
        let found =
          start_line s.options c.command_ptr c.command_lines
            (start_lines s.options c.command_lines) in
        restarted-Shrinks m (record c { remote = m.start_remote_job_p }) j j.files found real
          (subst (λ n. FoundBelow n found) same
            (start_line-below s.options c.command_ptr c.command_lines
              (start_lines s.options c.command_lines)
              (start_lines-below s.options c.command_lines)))
    next_or_done-Shrinks m j (c, false) real same =
        remove_child-Shrinks 0 c (record j { files = set_status c.file us_success j.files })

    process_child-Shrinks :
        (m : Moment) (x : Exit) (j : Jobs)
        → has_begun m.started_pid ≡ true
        → Shrinks (work (before ++ (old ∷ after))) (process_child s m x old before after j)
    unfolding process_child
    process_child-Shrinks m x j real =
        let child_failed = failure s old x in
        let status = if child_failed == 2 then us_failed else us_question in
        if-both (Shrinks (work (before ++ (old ∷ after))))
          (not (child_failed == 0) && not old.noerror && not s.ignore_errors_flag) _ _
          (remove_child-Shrinks child_failed old
            (record j { files = set_status old.file status j.files }))
          (next_or_done-Shrinks m j (job_next_command old) real (job_next_command-pending old))

-- Where the process that ended is that of a child on the chain, or some child could not be started,
-- a round leaves less to run.
pub reap_one-Shrinks :
    (s : Settings) (m : Moment) (x : Exit) (j : Jobs)
    → has_begun m.started_pid ≡ true
    → AllBegun j.children
    → (find_child is_unstarted j.children ≡ none → find_child (is_of x) j.children ≢ none)
    → Shrinks (work j.children) (reap_one s m x j)
unfolding reap_one
reap_one-Shrinks s m x j real begun known = elim (find_child-middle is_unstarted j.children) [
  | inr (before, c, after, e, is, _) ↦
      rw (e, reap_one)
        (subst
          (λ n.
            Shrinks n
              (process_child s m (record x { exit_code = 127; exit_sig = 0 }) c before after j))
          (ap work (sym is))
          (process_child-Shrinks s before after c (subst AllBegun is begun) m
            (record x { exit_code = 127; exit_sig = 0 }) j real))
  | inl none_ ↦ elim (find_child-middle (is_of x) j.children) [
    | inl unknown ↦ absurd (known none_ unknown)
    | inr (before, c, after, e, is, _) ↦
        rw (none_, e, reap_one)
          (subst (λ n. Shrinks n (process_child s m x c before after j)) (ap work (sym is))
            (process_child-Shrinks s before after c (subst AllBegun is begun) m x j real))
  ]
]
