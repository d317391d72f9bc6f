-- ===== src/Jobs/Safe.antt =====
-- The runs of the job control, as steps: a new job, a round of `start_waiting_jobs`, a round of
-- `reap_children`; and what other makes do with the jobserver that they share with this one.
use make.Remake.{Files}
use make.Jobs.{Command, Child, Jobs, Settings, Moment}
use make.Jobs.Start.{claim_slot, new_child, new_job, start_first, start_from}
use make.Jobs.Reap.{Exit, goes_on, reaped, reap_one}
use make.Jobs.Balance.{EachAtMost, IsBalanced, start_waiting_job-IsBalanced}
use make.Jobs.Chain.{Leaves, reap_one-Leaves}
use make.Prelude.{
  ℕ, ◌+◌, ◌-◌, ◌≡◌, ◌≢◌, inl, inr, refl, sym, ap, subst, Bool, false, not, ◌&&◌, Option, none, some,
  List, [], ◌∷◌, Returns, ◌==◌, if◌then◌else◌, length, Bool-cases, arith,
}

-- What can happen next. At any time another make may take a token out of the jobserver or put back
-- one that it has taken.
pub data Step (s : Settings) : Jobs → Jobs → Type 0 where
  begin :
      (m : Moment) (file : ℕ) (lines : List (List Command)) (j k l : Jobs)
      → claim_slot s j ≡ some k
      → new_job s m file lines k ≡ some l
      → Step s j l
  retry : (m : Moment) (b : Bool) (j k : Jobs) → start_first s m j ≡ some (k, b) → Step s j k
  reap_some :
      (m : Moment) (x : Exit) (j k : Jobs) → reap_one s m x j ≡ some (goes_on k) → Step s j k
  reap_last : (m : Moment) (x : Exit) (j k : Jobs) → reap_one s m x j ≡ some (reaped k) → Step s j k
  others_take :
      (n : ℕ) (j : Jobs) → j.pool ≡ n + 1 → Step s j (record j { pool = n; others = j.others + 1 })
  others_return :
      (n : ℕ) (j : Jobs) → j.others ≡ n + 1 → Step s j (record j { pool = j.pool + 1; others = n })

pub data Reach (s : Settings) (j : Jobs) : Jobs → Type 0 where
  here : Reach s j j
  next : (k l : Jobs) → Reach s j k → Step s k l → Reach s j l

-- Before any job: nothing runs or waits, `pool` tokens are in the jobserver, and `others` with other
-- makes.
abbrev pub no_jobs : ℕ → ℕ → Files → Jobs
no_jobs pool others files = record {
  job_slots_used = 0;
  jobserver_tokens = 0;
  children = [];
  waiting_jobs = [];
  pool = pool;
  others = others;
  files = files;
}

returned_unique {ℓ} :
    {A : Type 0} (P : A → Type ℓ) (o : Option A) (a : A) → Returns o P → o ≡ some a → P a
returned_unique P o a (b, e, p) h = let b=a : b ≡ a = cc in subst P b=a p

new_child-slot :
    (dontcare : Bool) (file : ℕ) (lines : List (List Command))
    → (new_child dontcare file lines).jobslot ≡ 0
unfolding new_child
new_child-slot dontcare file lines = refl

module _ (s : Settings) (total : ℕ) where
  claim_slot-IsBalanced :
      (j k : Jobs) → claim_slot s j ≡ some k → IsBalanced s total 0 j → IsBalanced s total 1 k
  unfolding claim_slot
  claim_slot-IsBalanced j k e h =
      let more : Jobs = record j { jobserver_tokens = j.jobserver_tokens + 1 } in
      let taken : Jobs = record more { pool = j.pool - 1 } in
      let serves = s.jobserver_enabled && not (j.jobserver_tokens == 0) in
      let tokens = h.tokens in
      elim (Bool-cases (s.job_slots == 0)) [
        | inr limited ↦
            let is : claim_slot s j
                ≡ (if j.job_slots_used == s.job_slots then none else some more) =
              rw (limited, claim_slot) refl in
            let k=more : k ≡ more = ground arith in
            subst (IsBalanced s total 1) (sym k=more) (record {
              tokens = omega arith;
              used = h.used;
              single = h.single;
              idle = h.idle;
              conserved = λ on. absurd (ground arith);
            })
        | inl open_ ↦ elim (Bool-cases serves) [
          | inl server ↦
              let is : claim_slot s j ≡ (if j.pool == 0 then none else some taken) =
                rw (open_, server, claim_slot) refl in
              let k=taken : k ≡ taken = ground arith in
              let left : (j.pool == 0) ≡ false = ground arith in
              subst (IsBalanced s total 1) (sym k=taken) (record {
                tokens = omega arith;
                used = h.used;
                single = h.single;
                idle = h.idle;
                conserved = λ on. let c = h.conserved on in ground arith;
              })
          | inr none_ ↦
              let is : claim_slot s j ≡ some more = rw (open_, none_, claim_slot) refl in
              let k=more : k ≡ more = cc in
              subst (IsBalanced s total 1) (sym k=more) (record {
                tokens = omega arith;
                used = h.used;
                single = h.single;
                idle = h.idle;
                conserved = λ on. let c = h.conserved on in ground arith;
              })
        ]
      ]

  new_job-IsBalanced :
      (m : Moment) (file : ℕ) (lines : List (List Command)) (j : Jobs)
      → IsBalanced s total 1 j
      → Returns (new_job s m file lines j) (IsBalanced s total 0)
  unfolding new_job
  new_job-IsBalanced m file lines j h =
      let c : Child = new_child (j.files file).dontcare file lines in
      let (r, e, balanced) =
        start_waiting_job-IsBalanced s total m c j
          (new_child-slot (j.files file).dontcare file lines) h in
      (r.0, rw e refl, balanced)

  start_from-IsBalanced :
      (m : Moment) (waiting : List Child) (j : Jobs)
      → j.waiting_jobs ≡ waiting
      → IsBalanced s total 0 j
      → Returns (start_from s m waiting j) (λ r. IsBalanced s total 0 r.0)
  unfolding start_from
  start_from-IsBalanced m [] j e h = ((j, false), refl, h)
  start_from-IsBalanced m (job ∷ rest) j e h =
      let idle : EachAtMost 0 (job ∷ rest) = subst (EachAtMost 0) e h.idle in
      let tokens = h.tokens in
      let one_less = ap length e in
      let none_held = idle.0 in
      start_waiting_job-IsBalanced s total m job (record j { waiting_jobs = rest }) (omega arith)
        (record {
          tokens = omega arith;
          used = h.used;
          single = h.single;
          idle = idle.1;
          conserved = h.conserved;
        })

  start_first-IsBalanced :
      (m : Moment) (j : Jobs)
      → IsBalanced s total 0 j
      → Returns (start_first s m j) (λ r. IsBalanced s total 0 r.0)
  unfolding start_first
  start_first-IsBalanced m j h = start_from-IsBalanced m j.waiting_jobs j refl h

  Step-IsBalanced : (j k : Jobs) → Step s j k → IsBalanced s total 0 j → IsBalanced s total 0 k
  Step-IsBalanced _ _ (begin m file lines j k l claimed started) h =
      returned_unique (IsBalanced s total 0) (new_job s m file lines k) l
        (new_job-IsBalanced m file lines k (claim_slot-IsBalanced j k claimed h)) started
  Step-IsBalanced _ _ (retry m b j k e) h =
      returned_unique (λ r. IsBalanced s total 0 r.0) (start_first s m j) (k, b)
        (start_first-IsBalanced m j h) e
  Step-IsBalanced _ _ (reap_some m x j k e) h =
      returned_unique (Leaves s total) (reap_one s m x j) (goes_on k)
        (reap_one-Leaves s total m x j h) e
  Step-IsBalanced _ _ (reap_last m x j k e) h =
      returned_unique (Leaves s total) (reap_one s m x j) (reaped k)
        (reap_one-Leaves s total m x j h) e
  Step-IsBalanced _ _ (others_take n j e) h = record {
    tokens = h.tokens;
    used = h.used;
    single = h.single;
    idle = h.idle;
    conserved = λ on. let c = h.conserved on in omega arith;
  }
  Step-IsBalanced _ _ (others_return n j e) h = record {
    tokens = h.tokens;
    used = h.used;
    single = h.single;
    idle = h.idle;
    conserved = λ on. let c = h.conserved on in omega arith;
  }

  Reach-keeps : (j k : Jobs) → Reach s j k → IsBalanced s total 0 j → IsBalanced s total 0 k
  Reach-keeps j _ here h = h
  Reach-keeps j _ (next k l r step) h = Step-IsBalanced k l step (Reach-keeps j k r h)

no_jobs-IsBalanced :
    (s : Settings) (pool others : ℕ) (files : Files)
    → IsBalanced s (pool + others) 0 (no_jobs pool others files)
no_jobs-IsBalanced s pool others files = record {
  tokens = refl;
  used = refl;
  single = tt;
  idle = tt;
  conserved = λ on. omega arith;
}

-- In every state that a run comes to from the state without jobs, whatever tokens other makes take
-- out of the jobserver and put back meanwhile, the count of tokens held is that of
-- the children that run or wait, the count of slots in use is that of the children that hold one,
-- each of those holds one at most and none that waits holds any; and where the jobserver hands out
-- tokens, those that lie in it, those that other makes have and those held beyond the first are
-- together as many as lay in it or were with other makes at the start.
pub Reach-IsBalanced :
    (s : Settings) (pool others : ℕ) (files : Files) (j : Jobs)
    → Reach s (no_jobs pool others files) j
    → IsBalanced s (pool + others) 0 j
Reach-IsBalanced s pool others files j r =
    Reach-keeps s (pool + others) (no_jobs pool others files) j r
      (no_jobs-IsBalanced s pool others files)

-- In every state that a run comes to, neither a round of `reap_children`, a round of
-- `start_waiting_jobs` nor, once it has its slot or its token, `new_job` fails an assertion or ends
-- in the fatal error that no token is left.
pub Reach-total :
    (s : Settings) (pool others : ℕ) (files : Files) (j : Jobs) (m : Moment) (x : Exit)
    → Reach s (no_jobs pool others files) j
    → (reap_one s m x j ≢ none)
      × (start_first s m j ≢ none)
      × ((k : Jobs) (file : ℕ) (lines : List (List Command))
          → claim_slot s j ≡ some k
          → new_job s m file lines k ≢ none)
Reach-total s pool others files j m x r =
    let h = Reach-IsBalanced s pool others files j r in
    let (a, reaps, _) = reap_one-Leaves s (pool + others) m x j h in
    let (b, starts, _) = start_first-IsBalanced s (pool + others) m j h in
    (
      λ e. absurd cc,
      λ e. absurd cc,
      λ k file lines claimed e.
          let (c, begins, _) =
            new_job-IsBalanced s (pool + others) m file lines k
              (claim_slot-IsBalanced s (pool + others) j k claimed h) in
          absurd cc,
    )
