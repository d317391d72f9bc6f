-- ===== src/Jobs/Full.antt =====
-- The limit -j on the jobs of a run, where make has no jobserver.
use make.Remake.{Files, cs_running, set_command_state}
use make.Jobs.{
  Command, process, Child, Jobs, Settings, Moment, launched, start_line, start_lines, after_found,
  start_job_command,
}
use make.Jobs.Start.{
  must_wait, put_on_chain, place_child, claim_slot, new_child, new_job, is_process, started_one,
  start_waiting_job, start_from, start_first,
}
use make.Jobs.Balance.{set_command_state-running}
use make.Jobs.Limit.{
  PairUsesAtMost, RoundUsesAtMost, start_waiting_job-used, claim_slot-used, reap_one-used,
}
use make.Jobs.Safe.{Step, begin, retry, reap_some, reap_last, others_take, others_return, no_jobs}
use make.Prelude.{
  ℕ, ◌+◌, ◌≤◌, ◌≡◌, ◌≢◌, inl, inr, refl, sym, ◌∙◌, ap, subst, true, false, ◌&&◌, none, some, List,
  [], ◌∷◌, Returns, ◌==◌, Option-cases, arith,
}

-- A run in which no job is ever left to wait.
pub data ReachCalm (s : Settings) (j : Jobs) : Jobs → Type 0 where
  here : ReachCalm s j j
  next : (k l : Jobs) → ReachCalm s j k → Step s k l → l.waiting_jobs ≡ [] → ReachCalm s j l

new_job-used :
    (s : Settings) (m : Moment) (file : ℕ) (lines : List (List Command)) (j k : Jobs)
    → new_job s m file lines j ≡ some k
    → k.job_slots_used ≤ j.job_slots_used + 1
unfolding new_job
new_job-used s m file lines j k e =
    let c : Child = new_child (j.files file).dontcare file lines in
    let started = start_waiting_job s m c j in
    elim (Option-cases started) [
      | inl nothing ↦
          let stuck : new_job s m file lines j ≡ none = rw (nothing, new_job) refl in absurd cc
      | inr (r, is) ↦
          let got : new_job s m file lines j ≡ some r.0 = rw (is, new_job) refl in
          let most =
            subst (PairUsesAtMost (j.job_slots_used + 1)) is (start_waiting_job-used s m c j) in
          let same : r.0 ≡ k = cc in subst (λ l. l.job_slots_used ≤ j.job_slots_used + 1) same most
    ]

start_first-none :
    (s : Settings) (m : Moment) (j : Jobs)
    → j.waiting_jobs ≡ []
    → start_first s m j ≡ some (j, false)
unfolding start_first start_from
start_first-none s m j calm = ap (λ w. start_from s m w j) calm

Step-within :
    (s : Settings) (j k : Jobs)
    → Step s j k
    → s.job_slots ≢ 0
    → j.waiting_jobs ≡ []
    → j.job_slots_used ≤ s.job_slots
    → k.job_slots_used ≤ s.job_slots
Step-within s _ _ (begin m file lines j k l claimed started) limited calm h =
    let (same, free) = claim_slot-used s j k claimed in
    let room = free limited in let most = new_job-used s m file lines k l started in omega arith
Step-within s _ _ (retry m b j k e) limited calm h =
    let same : j ≡ k =
      ap (λ o. (elim o [ none ↦ j | some r ↦ r.0 ])) (sym (start_first-none s m j calm) ∙ e) in
    subst (λ l. l.job_slots_used ≤ s.job_slots) same h
Step-within s _ _ (reap_some m x j k e) limited calm h =
    let most = subst (RoundUsesAtMost j.job_slots_used) e (reap_one-used s m x j) in omega arith
Step-within s _ _ (reap_last m x j k e) limited calm h =
    let most = subst (RoundUsesAtMost j.job_slots_used) e (reap_one-used s m x j) in omega arith
Step-within s _ _ (others_take n j e) limited calm h = h
Step-within s _ _ (others_return n j e) limited calm h = h

ReachCalm-calm :
    (s : Settings) (j k : Jobs) → ReachCalm s j k → j.waiting_jobs ≡ [] → k.waiting_jobs ≡ []
ReachCalm-calm s j _ here calm = calm
ReachCalm-calm s j _ (next k l r step waits) calm = waits

-- With a limit of -j on the jobs, and as long as no job has been left to wait for the load to go
-- down, a run from the state without jobs never has more slots in use than the limit.
pub ReachCalm-within :
    (s : Settings) (pool others : ℕ) (files : Files) (j : Jobs)
    → s.job_slots ≢ 0
    → ReachCalm s (no_jobs pool others files) j
    → j.job_slots_used ≤ s.job_slots
ReachCalm-within s pool others files _ limited here = omega arith
ReachCalm-within s pool others files _ limited (next k l r step waits) =
    Step-within s k l step limited (ReachCalm-calm s (no_jobs pool others files) k r refl)
      (ReachCalm-within s pool others files k limited r)

put_on_chain-process :
    (c : Child) (j : Jobs) (pid : ℕ)
    → c.pid ≡ process pid
    → c.jobslot ≡ 0
    → put_on_chain c j
      ≡ some (record j {
        job_slots_used = j.job_slots_used + 1;
        children = record c { jobslot = 1 } ∷ j.children;
      })
unfolding put_on_chain
put_on_chain-process c j pid runs idle =
    let is : is_process c.pid ≡ true = rw runs refl in
    let free : (c.jobslot == 0) ≡ true = rw idle refl in rw (is, free) refl

-- A job that need not wait, finds a command and gets a process is put on the chain.
start_waiting_job-launched :
    (s : Settings) (m : Moment) (j : Jobs) (job : Child) (c : Command) (cs : List Command)
    (ls : List (List Command)) (pid : ℕ)
    → must_wait s m j ≡ false
    → start_line s.options job.command_ptr job.command_lines
        (start_lines s.options job.command_lines)
      ≡ launched c cs ls
    → m.started_pid ≡ process pid
    → job.jobslot ≡ 0
    → Returns (start_waiting_job s m job j) (λ r. (r.0).job_slots_used ≡ j.job_slots_used + 1)
unfolding start_waiting_job start_job_command after_found place_child
start_waiting_job-launched s m j job c cs ls pid go found runs idle =
    let waiting : Child = record job { remote = m.start_remote_job_p } in
    let child : Child = record waiting {
      command_ptr = cs;
      command_lines = ls;
      noerror = c.noerror;
      recursive = c.recursive;
      pid = m.started_pid;
      remote = m.start_remote_job_p && m.started_remote;
    } in
    let files : Files = set_command_state job.file cs_running j.files in
    let started = record child { jobslot = 1 } in
    let end : Jobs = record j {
      files = files;
      job_slots_used = j.job_slots_used + 1;
      children = started ∷ j.children;
    } in
    let first : start_waiting_job s m job j
        ≡ started_one s waiting j (after_found s m waiting j.files (launched c cs ls)) =
      rw (go, start_waiting_job)
        (ap (λ f. started_one s waiting j (after_found s m waiting j.files f)) found) in
    let second : place_child s child (record j { files = files }) (files job.file).command_state
        ≡ some end =
      ap (place_child s child (record j { files = files }))
        (set_command_state-running job.file j.files)
      ∙ put_on_chain-process child (record j { files = files }) pid runs idle in
    ((end, true), first ∙ rw second refl, refl)

claim_slot-over :
    (s : Settings) (j : Jobs)
    → s.job_slots ≢ 0
    → j.job_slots_used ≡ s.job_slots + 1
    → claim_slot s j ≢ none
unfolding claim_slot
claim_slot-over s j limited over e = ground arith

-- A job that waits is started without a look at the limit: where every slot is in use, a round of
-- `start_waiting_jobs` for a first waiting job that need not wait any longer, has a command to run
-- and can be started takes one slot more than the limit, and after that `new_job` does not wait for
-- a slot any more.
pub start_first-overruns :
    (s : Settings) (m : Moment) (j : Jobs) (job : Child) (rest : List Child) (c : Command)
    (cs : List Command) (ls : List (List Command)) (pid : ℕ)
    → j.waiting_jobs ≡ job ∷ rest
    → must_wait s m (record j { waiting_jobs = rest }) ≡ false
    → start_line s.options job.command_ptr job.command_lines
        (start_lines s.options job.command_lines)
      ≡ launched c cs ls
    → m.started_pid ≡ process pid
    → job.jobslot ≡ 0
    → s.job_slots ≢ 0
    → j.job_slots_used ≡ s.job_slots
    → Returns
        (start_first s m j)
        (λ r. ((r.0).job_slots_used ≡ s.job_slots + 1) × (claim_slot s r.0 ≢ none))
unfolding start_first start_from
start_first-overruns s m j job rest c cs ls pid waits go found runs idle limited full =
    let (r, is, more) =
      start_waiting_job-launched s m (record j { waiting_jobs = rest }) job c cs ls pid go found
        runs idle in
    (
      r,
      ap (λ w. start_from s m w j) waits ∙ is,
      (let now = more ∙ rw full refl in (now, claim_slot-over s r.0 limited now)),
    )
