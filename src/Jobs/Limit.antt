-- ===== src/Jobs/Limit.antt =====
-- How many slots one operation can take.
use make.Remake.{
  CmdState, cs_not_started, cs_deps_running, cs_running, cs_finished, us_success, us_failed,
  us_question, Files, is_running,
}
use make.Jobs.{Child, Jobs, Settings, Moment, start_job_command, job_next_command}
use make.Jobs.Start.{
  free_child, must_wait, is_process, put_on_chain, place_child, start_waiting_job, claim_slot,
}
use make.Jobs.Reap.{
  Exit, Reaped, goes_on, reaped, dies, remove_child, restarted, next_or_done, process_child,
  reap_one, is_unstarted, is_of, failure, set_status,
}
use make.Jobs.Chain.{find_child-middle}
use make.Prelude.{
  ℕ, ◌+◌, ◌-◌, ◌≤◌, ◌≡◌, ◌≢◌, inl, inr, Bool, true, false, not, ◌&&◌, Option, none, some, List,
  ◌>>=◌, ◌==◌, ltb, if◌then◌else◌, if-both, arith,
}

-- The slots in use are not more than `n` in what a call returns, if it returns.
abbrev pub UsesAtMost : ℕ → Option Jobs → Type 0
UsesAtMost n none = Unit
UsesAtMost n (some j) = j.job_slots_used ≤ n

abbrev pub PairUsesAtMost : ℕ → Option (Jobs × Bool) → Type 0
PairUsesAtMost n none = Unit
PairUsesAtMost n (some (j, _)) = j.job_slots_used ≤ n

abbrev pub RoundUsesAtMost : ℕ → Option Reaped → Type 0
RoundUsesAtMost n none = Unit
RoundUsesAtMost n (some (goes_on j)) = j.job_slots_used ≤ n
RoundUsesAtMost n (some (reaped j)) = j.job_slots_used ≤ n
RoundUsesAtMost n (some (dies _)) = Unit

free_child-used : (s : Settings) (j : Jobs) → UsesAtMost j.job_slots_used (free_child s j)
unfolding free_child
free_child-used s j =
    if-both (UsesAtMost j.job_slots_used) (j.jobserver_tokens == 0) none _ tt (omega arith)

put_on_chain-used : (c : Child) (j : Jobs) → UsesAtMost (j.job_slots_used + 1) (put_on_chain c j)
unfolding put_on_chain
put_on_chain-used c j =
    let P = UsesAtMost (j.job_slots_used + 1) in
    if-both P (is_process c.pid) _ _ (if-both P (c.jobslot == 0) _ none (omega arith) tt)
      (omega arith)

UsesAtMost-more : (n k : ℕ) (o : Option Jobs) → n ≤ k → UsesAtMost n o → UsesAtMost k o
UsesAtMost-more n k none le h = tt
UsesAtMost-more n k (some j) le h = omega arith

place_child-used :
    (s : Settings) (c : Child) (j : Jobs) (state : CmdState)
    → UsesAtMost (j.job_slots_used + 1) (place_child s c j state)
unfolding place_child
place_child-used s c j cs_running = put_on_chain-used c j
place_child-used s c j cs_not_started =
    UsesAtMost-more j.job_slots_used (j.job_slots_used + 1) _ (omega arith) (free_child-used s _)
place_child-used s c j cs_finished =
    UsesAtMost-more j.job_slots_used (j.job_slots_used + 1) _ (omega arith) (free_child-used s _)
place_child-used s c j cs_deps_running = tt

paired-used :
    (n : ℕ) (b : Bool) (o : Option Jobs)
    → UsesAtMost n o
    → PairUsesAtMost n (o >>= λ j. some (j, b))
paired-used n b none h = tt
paired-used n b (some j) h = h

pub start_waiting_job-used :
    (s : Settings) (m : Moment) (c : Child) (j : Jobs)
    → PairUsesAtMost (j.job_slots_used + 1) (start_waiting_job s m c j)
unfolding start_waiting_job
start_waiting_job-used s m c j =
    let c' : Child = record c { remote = m.start_remote_job_p } in
    let r = start_job_command s m c' j.files in
    let j' : Jobs = record j { files = r.1 } in
    if-both (PairUsesAtMost (j.job_slots_used + 1)) (must_wait s m j) _ _ (omega arith) (
      paired-used (j.job_slots_used + 1) true (place_child s (r.0) j' ((r.1) c.file).command_state)
        (place_child-used s (r.0) j' ((r.1) c.file).command_state))

pub claim_slot-used :
    (s : Settings) (j k : Jobs)
    → claim_slot s j ≡ some k
    → (k.job_slots_used ≡ j.job_slots_used) × (s.job_slots ≢ 0 → j.job_slots_used ≢ s.job_slots)
unfolding claim_slot
claim_slot-used s j k e = (ground arith, ground arith)

ended-used :
    (n child_failed : ℕ) (b : Bool) (o : Option Jobs)
    → UsesAtMost n o
    → RoundUsesAtMost n (o >>= λ j. some (if b then dies child_failed else reaped j))
ended-used n child_failed b none h = tt
ended-used n child_failed b (some j) h =
    if-both (λ r. RoundUsesAtMost n (some r)) b (dies child_failed) (reaped j) tt h

RoundUsesAtMost-more :
    (n k : ℕ) (o : Option Reaped) → n ≤ k → RoundUsesAtMost n o → RoundUsesAtMost k o
RoundUsesAtMost-more n k none le h = tt
RoundUsesAtMost-more n k (some (goes_on j)) le h = omega arith
RoundUsesAtMost-more n k (some (reaped j)) le h = omega arith
RoundUsesAtMost-more n k (some (dies d)) le h = tt

module _ (s : Settings) (before after : List Child) where
  remove_child-used :
      (n : ℕ) (c : Child) (j : Jobs)
      → RoundUsesAtMost j.job_slots_used (remove_child s n c before after j)
  unfolding remove_child
  remove_child-used n c j =
      let left =
        if ltb 0 j.job_slots_used then j.job_slots_used - c.jobslot else j.job_slots_used in
      let less : left ≤ j.job_slots_used = ground arith in
      ended-used j.job_slots_used n
        (not (n == 0) && not c.dontcare && not s.options.keep_going_flag) (free_child s _)
        (UsesAtMost-more left j.job_slots_used (free_child s _) less (free_child-used s _))

  restarted-used :
      (j : Jobs) (r : Child × Files)
      → RoundUsesAtMost j.job_slots_used (restarted s before after j r)
  unfolding restarted
  restarted-used j (c, files) =
      if-both (RoundUsesAtMost j.job_slots_used) (is_running (files c.file).command_state) _ _
        (omega arith) (remove_child-used 0 c (record j { files = files }))

  next_or_done-used :
      (m : Moment) (j : Jobs) (r : Child × Bool)
      → RoundUsesAtMost j.job_slots_used (next_or_done s m before after j r)
  unfolding next_or_done
  next_or_done-used m j (c, true) =
      restarted-used j (start_job_command s m (record c { remote = m.start_remote_job_p }) j.files)
  next_or_done-used m j (c, false) =
      remove_child-used 0 c (record j { files = set_status c.file us_success j.files })

  process_child-used :
      (m : Moment) (x : Exit) (c : Child) (j : Jobs)
      → RoundUsesAtMost j.job_slots_used (process_child s m x c before after j)
  unfolding process_child
  process_child-used m x c j =
      let child_failed = failure s c x in
      let status = if child_failed == 2 then us_failed else us_question in
      if-both (RoundUsesAtMost j.job_slots_used)
        (not (child_failed == 0) && not c.noerror && not s.ignore_errors_flag) _ _
        (remove_child-used child_failed c (record j { files = set_status c.file status j.files }))
        (next_or_done-used m j (job_next_command c))

pub reap_one-used :
    (s : Settings) (m : Moment) (x : Exit) (j : Jobs)
    → RoundUsesAtMost j.job_slots_used (reap_one s m x j)
unfolding reap_one
reap_one-used s m x j = elim (find_child-middle is_unstarted j.children) [
  | inr (before, c, after, e, is, _) ↦
      rw (e, reap_one)
        (process_child-used s before after m (record x { exit_code = 127; exit_sig = 0 }) c j)
  | inl none_ ↦ elim (find_child-middle (is_of x) j.children) [
    | inl unknown ↦ rw (none_, unknown, reap_one) (omega arith)
    | inr (before, c, after, e, is, _) ↦
        rw (none_, e, reap_one) (process_child-used s before after m x c j)
  ]
]
