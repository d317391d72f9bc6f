-- ===== src/Tests/Running.antt =====
-- Runs of the job control with a few children.
use make.Remake.{cs_running, Files, set_command_state}
use make.Jobs.{
  Command, Pid, no_pid, failed_pid, process, Child, Jobs, Settings, Moment, is_empty, start_line,
  start_lines, start_job_command, after_found, launched,
}
use make.Jobs.Start.{claim_slot, new_job, start_first, must_wait}
use make.Jobs.Reap.{Exit, is_unstarted, is_of, find_child, reap_one}
use make.Jobs.Balance.{IsBalanced}
use make.Jobs.Safe.{
  Step, begin, others_return, Reach, here, next, no_jobs, Reach-IsBalanced, Reach-total,
}
use make.Jobs.Full.{ReachCalm, ReachCalm-within, start_first-overruns}
use make.Jobs.Wait.{Host, wait_for_slot}
use make.Jobs.Work.{has_begun, AllBegun}
use make.Jobs.Progress.{Serves, Freed, wait_for_slot-Freed}
use make.Tests.Remaking.{no_options, quiet_system, plain}
use make.Prelude.{
  ℕ, ◌≤◌, ◌≡◌, ◌≢◌, refl, ap, Bool, true, false, not, none, some, List, [], ◌∷◌, Returns, ==_refl,
  if◌then◌else◌, arith,
}

-- With -j 2 and no jobserver.
abbrev two_slots : Settings
two_slots = record {
  options = no_options;
  system = quiet_system;
  ignore_errors_flag = false;
  memory_aware_flag = false;
  jobserver_enabled = false;
  master_job_slots = 0;
  job_slots = 2;
}

abbrev idle_host : Moment
idle_host = record {
  start_remote_job_p = false;
  load_too_high = false;
  active_jobs_count = 0;
  started_pid = process 7;
  started_remote = false;
}

abbrev compile : Command
compile = record { noerror = false; recursive = false; no_argv = false; null_command = false }

abbrev all_plain : Files
all_plain n = plain

-- File 1 with a recipe of two lines, of which the first has been started.
abbrev first_child : Child
first_child = record {
  file = 1;
  command_ptr = [];
  command_lines = (compile ∷ []) ∷ [];
  pid = process 7;
  remote = false;
  noerror = false;
  recursive = false;
  jobslot = 1;
  dontcare = false;
}

abbrev one_running : Jobs
one_running = record {
  job_slots_used = 1;
  jobserver_tokens = 1;
  children = first_child ∷ [];
  waiting_jobs = [];
  pool = 3;
  others = 1;
  files = set_command_state 1 cs_running all_plain;
}

claimed :
    claim_slot two_slots (no_jobs 3 1 all_plain)
    ≡ some (record (no_jobs 3 1 all_plain) { jobserver_tokens = 1 })
unfolding claim_slot
claimed = refl

begun :
    new_job two_slots idle_host 1
      ((compile ∷ []) ∷ (compile ∷ []) ∷ [])
      (record (no_jobs 3 1 all_plain) { jobserver_tokens = 1 })
    ≡ some one_running
unfolding new_job set_command_state start_job_command after_found
begun = refl

first-Step : Step two_slots (no_jobs 3 1 all_plain) one_running
first-Step =
    begin idle_host 1 ((compile ∷ []) ∷ (compile ∷ []) ∷ []) (no_jobs 3 1 all_plain)
      (record (no_jobs 3 1 all_plain) { jobserver_tokens = 1 }) one_running claimed begun

one_running-Reach : Reach two_slots (no_jobs 3 1 all_plain) one_running
one_running-Reach = next (no_jobs 3 1 all_plain) one_running here first-Step

-- A make with a jobserver: while its child runs, another make puts back its token.
abbrev served : Settings
served = record two_slots { jobserver_enabled = true; job_slots = 0 }

free_token :
    claim_slot served (no_jobs 3 1 all_plain)
    ≡ some (record (no_jobs 3 1 all_plain) { jobserver_tokens = 1 })
unfolding claim_slot
free_token = refl

served_begun :
    new_job served idle_host 1
      ((compile ∷ []) ∷ (compile ∷ []) ∷ [])
      (record (no_jobs 3 1 all_plain) { jobserver_tokens = 1 })
    ≡ some one_running
unfolding new_job set_command_state start_job_command after_found
served_begun = refl

abbrev given_back : Jobs
given_back = record one_running { pool = 4; others = 0 }

given_back-Reach : Reach served (no_jobs 3 1 all_plain) given_back
given_back-Reach =
    next one_running given_back
      (next (no_jobs 3 1 all_plain) one_running here (
        begin idle_host 1 ((compile ∷ []) ∷ (compile ∷ []) ∷ []) (no_jobs 3 1 all_plain)
          (record (no_jobs 3 1 all_plain) { jobserver_tokens = 1 }) one_running free_token
          served_begun))
      (others_return 0 one_running refl)

Reach-IsBalanced_example : IsBalanced served 4 0 given_back
Reach-IsBalanced_example = Reach-IsBalanced served 3 1 all_plain given_back given_back-Reach

abbrev well : Exit
well = record { pid = 7; remote = false; exit_code = 0; exit_sig = 0 }

Reach-total_example :
    (reap_one two_slots idle_host well one_running ≢ none)
    × (start_first two_slots idle_host one_running ≢ none)
    × ((k : Jobs) (file : ℕ) (lines : List (List Command))
        → claim_slot two_slots one_running ≡ some k
        → new_job two_slots idle_host file lines k ≢ none)
Reach-total_example =
    Reach-total two_slots 3 1 all_plain one_running idle_host well one_running-Reach

calm_run : ReachCalm two_slots (no_jobs 3 1 all_plain) one_running
calm_run = ReachCalm.next (no_jobs 3 1 all_plain) one_running ReachCalm.here first-Step refl

ReachCalm-within_example : one_running.job_slots_used ≤ two_slots.job_slots
ReachCalm-within_example =
    ReachCalm-within two_slots 3 1 all_plain one_running (λ e. absurd cc) calm_run

-- Both slots are in use, and a job waits that the load kept back before.
abbrev waiting_child : Child
waiting_child = record first_child { file = 3; pid = no_pid; jobslot = 0 }

abbrev both_used : Jobs
both_used = record one_running {
  job_slots_used = 2;
  jobserver_tokens = 3;
  children = record first_child { file = 2; pid = process 8 } ∷ first_child ∷ [];
  waiting_jobs = waiting_child ∷ [];
}

no_wait : must_wait two_slots idle_host (record both_used { waiting_jobs = [] }) ≡ false
unfolding must_wait
no_wait = refl

command_found :
    start_line no_options [] ((compile ∷ []) ∷ []) (start_lines no_options ((compile ∷ []) ∷ []))
    ≡ launched compile [] []
unfolding start_line start_lines
command_found = refl

start_first-overruns_example :
    Returns
      (start_first two_slots idle_host both_used)
      (λ r. ((r.0).job_slots_used ≡ 3) × (claim_slot two_slots r.0 ≢ none))
start_first-overruns_example =
    start_first-overruns two_slots idle_host both_used waiting_child [] compile [] [] 7 refl no_wait
      command_found refl refl (λ e. absurd cc) refl

-- A system on which the first process of the chain is the one that ends, with success.
abbrev first_process : List Child → Exit
first_process [] = well
first_process (c ∷ cs) = record well {
  pid = elim c.pid [ no_pid ↦ 0 | failed_pid ↦ 0 | process p ↦ p ];
  remote = c.remote;
}

abbrev in_order : Host
in_order = record {
  moment = λ j. idle_host;
  exit = λ j. first_process j.children;
  has_dead = λ j. false;
}

find_child-first :
    (test : Child → Bool) (c : Child) (cs : List Child)
    → test c ≡ true
    → find_child test (c ∷ cs) ≡ some ([], c, cs)
unfolding find_child
find_child-first test c cs e = rw e refl

same_place : (b : Bool) → (if b then b else not b) ≡ true
same_place true = refl
same_place false = refl

first_ends :
    (c : Child) (cs : List Child) (pid : Pid)
    → c.pid ≡ pid
    → has_begun c.pid ≡ true
    → find_child is_unstarted (c ∷ cs) ≡ none
    → find_child (is_of (first_process (c ∷ cs))) (c ∷ cs) ≢ none
first_ends c cs no_pid e h none_ f = let not_yet = ap has_begun e in absurd cc
first_ends c cs failed_pid e h none_ f =
    let there = find_child-first is_unstarted c cs (rw e refl) in absurd cc
first_ends c cs (process p) e h none_ f =
    let there =
      find_child-first (is_of (first_process (c ∷ cs))) c cs
        (rw (e, ==_refl p) (same_place c.remote)) in
    absurd cc

some_ends :
    (cs : List Child)
    → is_empty cs ≡ false
    → AllBegun cs
    → find_child is_unstarted cs ≡ none
    → find_child (is_of (first_process cs)) cs ≢ none
some_ends [] e h none_ = absurd cc
some_ends (c ∷ cs) e (h, _) none_ = first_ends c cs c.pid refl h none_

in_order-Serves : Serves in_order
in_order-Serves = record {
  starts = λ j. refl;
  waits = λ j e h none_. some_ends j.children e h none_;
}

-- Both slots are in use, and nothing waits.
abbrev full : Jobs
full = record both_used { jobserver_tokens = 2; waiting_jobs = [] }

full-IsBalanced : IsBalanced two_slots 4 0 full
full-IsBalanced = record {
  tokens = refl;
  used = refl;
  single = (omega arith, (omega arith, tt));
  idle = tt;
  conserved = λ e. absurd cc;
}

wait_for_slot-Freed_example :
    Returns (wait_for_slot two_slots in_order 9 full) (Freed two_slots 4 in_order in_order-Serves)
wait_for_slot-Freed_example =
    wait_for_slot-Freed two_slots 4 in_order in_order-Serves 9 full (λ e. absurd cc)
      (full-IsBalanced, (refl, (refl, tt))) (omega arith)
