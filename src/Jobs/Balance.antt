-- ===== src/Jobs/Balance.antt =====
-- The slots and the tokens that are held are those of the children there are.
use make.Remake.{
  CmdState, cs_not_started, cs_deps_running, cs_running, cs_finished, us_success, us_question,
  Files, raise_states, raise_state, set_command_state,
}
use make.Remake.Finish.{notice_finished_file}
use make.Remake.Settled.{notice_finished_file-IsSettled}
use make.Jobs.{
  Child, Jobs, Settings, Moment, Found, launched, asked, finished, after_found, start_job_command,
  start_line, start_lines,
}
use make.Jobs.Start.{
  free_child, must_wait, is_process, put_on_chain, place_child, start_waiting_job,
}
use make.Prelude.{
  ℕ, ◌+◌, ◌-◌, ◌≤◌, ◌≡◌, ◌⊎◌, inl, inr, refl, ◌∙◌, subst, true, false, ◌&&◌, List, [], ◌∷◌, Returns,
  at, ◌==◌, ==_refl, ltb, if◌then◌else◌, length, Bool-cases, arith,
}

-- The number of slots that the children hold.
abbrev pub slots : List Child → ℕ
slots [] = 0
slots (c ∷ cs) = c.jobslot + slots cs

-- No child holds more than `n` slots.
abbrev pub EachAtMost : ℕ → List Child → Type 0
EachAtMost n [] = Unit
EachAtMost n (c ∷ cs) = (c.jobslot ≤ n) × EachAtMost n cs

-- Besides the children on the two lists, `held` others have been given a token. Where a jobserver
-- hands out the tokens, `total` of them are in the jobserver, with other makes or held beyond the
-- first.
pub record IsBalanced (s : Settings) (total held : ℕ) (j : Jobs) : Type 0 where
  pub tokens : j.jobserver_tokens ≡ length j.children + length j.waiting_jobs + held
  pub used : j.job_slots_used ≡ slots j.children
  pub single : EachAtMost 1 j.children
  pub idle : EachAtMost 0 j.waiting_jobs
  pub conserved :
      (s.jobserver_enabled && s.job_slots == 0) ≡ true
      → j.pool + j.others + (j.jobserver_tokens - 1) ≡ total

-- A file that is running stays so when the state of others is raised to that.
raise_states-running :
    (ds : List ℕ) (files : Files) (g : ℕ)
    → (files g).command_state ≡ cs_running
    → (raise_states cs_running ds files g).command_state ≡ cs_running
unfolding raise_states
raise_states-running [] files g h = h
raise_states-running (d ∷ ds) files g h =
    raise_states-running ds (at d (raise_state cs_running (files d)) files) g
      (elim (Bool-cases (g == d)) [
        | inl it ↦
            let e : g ≡ d = ground arith in
            let was : (files d).command_state ≡ cs_running =
              subst (λ n. (files n).command_state ≡ cs_running) e h in
            rw it (rw was refl)
        | inr other ↦ rw other h
      ])

pub set_command_state-running :
    (file : ℕ) (files : Files)
    → (set_command_state file cs_running files file).command_state ≡ cs_running
unfolding set_command_state
set_command_state-running file files =
    raise_states-running (files file).also_make
      (at file (record (files file) { command_state = cs_running }) files) file
      (rw (==_refl file) refl)

-- What starting a command leaves: the child has its file and its slot, and the file runs or is done.
pub record Begun (c : Child) (r : Child × Files) : Type 0 where
  pub slot : (r.0).jobslot ≡ c.jobslot
  pub file : (r.0).file ≡ c.file
  pub state : ((r.1 c.file).command_state ≡ cs_running) ⊎ ((r.1 c.file).command_state ≡ cs_finished)

after_found-Begun :
    (s : Settings) (m : Moment) (c : Child) (files : Files) (found : Found)
    → Begun c (after_found s m c files found)
unfolding after_found
after_found-Begun s m c files (launched x cs ls) = record {
  slot = refl;
  file = refl;
  state = inl (set_command_state-running c.file files);
}
after_found-Begun s m c files asked = record {
  slot = refl;
  file = refl;
  state =
      inr
        ((notice_finished_file-IsSettled s.options s.system c.file
            (at c.file (record (files c.file) { update_status = us_question }) files)).0
          ).finished;
}
after_found-Begun s m c files finished =
    let running : Files = set_command_state c.file cs_running files in
    record {
      slot = refl;
      file = refl;
      state =
          inr
            ((notice_finished_file-IsSettled s.options s.system c.file
                (at c.file (record (running c.file) { update_status = us_success }) running)).0
              ).finished;
    }

pub start_job_command-Begun :
    (s : Settings) (m : Moment) (c : Child) (files : Files)
    → Begun c (start_job_command s m c files)
unfolding start_job_command
start_job_command-Begun s m c files =
    after_found-Begun s m c files
      (start_line s.options c.command_ptr c.command_lines (start_lines s.options c.command_lines))

module _ (s : Settings) (total : ℕ) where
  -- Freeing a child gives back the token that it held.
  pub free_child-IsBalanced :
      (held : ℕ) (j : Jobs)
      → IsBalanced s total (held + 1) j
      → Returns (free_child s j) (IsBalanced s total held)
  unfolding free_child
  free_child-IsBalanced held j h =
      let tokens = h.tokens in
      let some_ : (j.jobserver_tokens == 0) ≡ false = ground arith in
      let conserved = h.conserved in
      (
        record j {
          jobserver_tokens = j.jobserver_tokens - 1;
          pool = if s.jobserver_enabled && ltb 1 j.jobserver_tokens then j.pool + 1 else j.pool;
        },
        rw some_ refl,
        record {
          tokens = omega arith;
          used = h.used;
          single = h.single;
          idle = h.idle;
          conserved = λ e. let c = h.conserved e in ground arith;
        },
      )

  put_on_chain-IsBalanced :
      (c : Child) (j : Jobs)
      → c.jobslot ≡ 0
      → IsBalanced s total 1 j
      → Returns (put_on_chain c j) (IsBalanced s total 0)
  unfolding put_on_chain
  put_on_chain-IsBalanced c j e h =
      let tokens = h.tokens in
      let used = h.used in
      elim (Bool-cases (is_process c.pid)) [
        | inl runs ↦ (
          record j {
            job_slots_used = j.job_slots_used + 1;
            children = record c { jobslot = 1 } ∷ j.children;
          },
          rw (runs, e) refl,
          record {
            tokens = omega arith;
            used = omega arith;
            single = (omega arith, h.single);
            idle = h.idle;
            conserved = h.conserved;
          },
        )
        | inr broken ↦ (
          record j { children = c ∷ j.children },
          rw broken refl,
          record {
            tokens = omega arith;
            used = omega arith;
            single = (omega arith, h.single);
            idle = h.idle;
            conserved = h.conserved;
          },
        )
      ]

  place_child-IsBalanced :
      (c : Child) (j : Jobs) (state : CmdState)
      → c.jobslot ≡ 0
      → (state ≡ cs_running) ⊎ (state ≡ cs_finished)
      → IsBalanced s total 1 j
      → Returns (place_child s c j state) (IsBalanced s total 0)
  unfolding place_child
  place_child-IsBalanced c j cs_running e k h = put_on_chain-IsBalanced c j e h
  place_child-IsBalanced c j cs_finished e k h =
      free_child-IsBalanced 0
        (record j { files = notice_finished_file s.options s.system c.file j.files })
        (record {
          tokens = h.tokens;
          used = h.used;
          single = h.single;
          idle = h.idle;
          conserved = h.conserved;
        })
  place_child-IsBalanced c j cs_not_started e k h = absurd (elim k [ inl a ↦ cc | inr a ↦ cc ])
  place_child-IsBalanced c j cs_deps_running e k h = absurd (elim k [ inl a ↦ cc | inr a ↦ cc ])

  -- A job that has its token, and no slot yet, is started or put on the list of those that wait.
  pub start_waiting_job-IsBalanced :
      (m : Moment) (c : Child) (j : Jobs)
      → c.jobslot ≡ 0
      → IsBalanced s total 1 j
      → Returns (start_waiting_job s m c j) (λ r. IsBalanced s total 0 r.0)
  unfolding start_waiting_job
  start_waiting_job-IsBalanced m c j e h =
      let c' : Child = record c { remote = m.start_remote_job_p } in
      let tokens = h.tokens in
      elim (Bool-cases (must_wait s m j)) [
        | inl waits ↦ (
          (
            record j {
              files = set_command_state c.file cs_running j.files;
              waiting_jobs = c' ∷ j.waiting_jobs;
            },
            false,
          ),
          rw waits refl,
          record {
            tokens = omega arith;
            used = h.used;
            single = h.single;
            idle = (omega arith, h.idle);
            conserved = h.conserved;
          },
        )
        | inr goes ↦
            let r = start_job_command s m c' j.files in
            let begun = start_job_command-Begun s m c' j.files in
            let (j', is, balanced) =
              place_child-IsBalanced (r.0) (record j { files = r.1 }) ((r.1) c.file).command_state
                (begun.slot ∙ e) begun.state
                (record {
                  tokens = h.tokens;
                  used = h.used;
                  single = h.single;
                  idle = h.idle;
                  conserved = h.conserved;
                }) in
            ((j', true), rw (goes, is) refl, balanced)
      ]
