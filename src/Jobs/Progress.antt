-- ===== src/Jobs/Progress.antt =====
-- The waiting for a slot comes to an end.
use make.Jobs.{Child, Jobs, Settings, is_empty}
use make.Jobs.Reap.{Reaped, goes_on, reaped, dies, is_unstarted, is_of, find_child}
use make.Jobs.Balance.{slots, IsBalanced}
use make.Jobs.Chain.{Leaves, reap_one-Leaves}
use make.Jobs.Wait.{Host, nothing_to_reap, after_reap, reap_children, after_reaping, wait_for_slot}
use make.Jobs.Work.{work, has_begun, AllBegun}
use make.Jobs.Shrink.{Shrinks, reap_one-Shrinks}
use make.Prelude.{
  ℕ, zero, suc, ◌+◌, ◌≤◌, ◌<◌, ◌≡◌, ◌≢◌, inl, inr, refl, subst, Bool, true, false, not, ◌&&◌,
  Option, none, some, List, [], ◌∷◌, Returns, ◌==◌, Bool-cases, arith,
}

-- What the code relies on: starting a command gives a process or is known to have failed, and a wait
-- for children of which each has begun gives the end of one of them.
pub record Serves (host : Host) : Type 0 where
  pub starts : (j : Jobs) → has_begun (host.moment j).started_pid ≡ true
  pub waits :
      (j : Jobs)
      → is_empty j.children ≡ false
      → AllBegun j.children
      → find_child is_unstarted j.children ≡ none
      → find_child (is_of (host.exit j)) j.children ≢ none

nothing_to_reap-lax :
    (host : Host) (block : Bool) (j : Jobs)
    → nothing_to_reap host block j ≡ true
    → (block && not (is_empty j.children)) ≡ false
unfolding nothing_to_reap
nothing_to_reap-lax host block j e = ground arith

nothing_to_reap-some :
    (host : Host) (block : Bool) (j : Jobs)
    → nothing_to_reap host block j ≡ false
    → is_empty j.children ≡ false
unfolding nothing_to_reap
nothing_to_reap-some host block j e = ground arith

slots-some : (cs : List Child) → slots cs ≢ 0 → is_empty cs ≡ false
slots-some [] h = absurd (h refl)
slots-some (c ∷ cs) h = refl

module _ (s : Settings) (total : ℕ) (host : Host) (serves : Serves host) where
  -- The slots and the tokens are balanced, and each child on the chain has begun.
  abbrev pub Good : Jobs → Type 0
  Good j = IsBalanced s total 0 j × AllBegun j.children

  -- What a call leaves: no more than `n` to run, and less where it is `strict`.
  abbrev Went : Bool → ℕ → Reaped → Type 0
  Went strict n (goes_on j) = Good j × (work j.children ≤ n) × (strict ≡ true → work j.children < n)
  Went strict n (reaped j) = Good j × (work j.children ≤ n) × (strict ≡ true → work j.children < n)
  Went strict n (dies d) = d ≢ 0

  Went-less : (strict b : Bool) (k n : ℕ) (r : Reaped) → k < n → Went strict k r → Went b n r
  Went-less strict b k n (goes_on j) less (h, le, _) = (h, omega arith, λ e. omega arith)
  Went-less strict b k n (reaped j) less (h, le, _) = (h, omega arith, λ e. omega arith)
  Went-less strict b k n (dies d) less h = h

  abbrev Loops : (Bool → Jobs → Option Reaped) → ℕ → Type 0
  Loops again fuel =
      (block : Bool) (j : Jobs)
      → Good j
      → work j.children < fuel
      → Returns (again block j) (Went (block && not (is_empty j.children)) (work j.children))

  after_reap-Went :
      (again : Bool → Jobs → Option Reaped) (fuel : ℕ) (block b : Bool) (n : ℕ) (r : Reaped)
      → Loops again fuel
      → n ≤ fuel
      → Leaves s total r
      → Shrinks n (some r)
      → Returns (after_reap again block r) (Went b n)
  unfolding after_reap
  after_reap-Went again fuel block b n (goes_on j) loops le h (less, begun) =
      let (r, e, went) = loops block j (h, begun) (omega arith) in
      (r, e, Went-less (block && not (is_empty j.children)) b (work j.children) n r less went)
  after_reap-Went again fuel block b n (reaped j) loops le h (less, begun) =
      let (r, e, went) = loops false j (h, begun) (omega arith) in
      (r, e, Went-less (false && not (is_empty j.children)) b (work j.children) n r less went)
  after_reap-Went again fuel block b n (dies d) loops le h _ = (dies d, refl, h)

  reap_children-Went : (fuel : ℕ) → Loops (reap_children s host fuel) fuel
  unfolding reap_children
  reap_children-Went zero block j h less = absurd (omega arith)
  reap_children-Went (suc fuel) block j (balanced, begun) less =
      elim (Bool-cases (nothing_to_reap host block j)) [
        | inl ends ↦ (
          goes_on j,
          rw ends refl,
          (
            (balanced, begun),
            omega arith,
            λ e. absurd (let lax = nothing_to_reap-lax host block j ends in cc),
          ),
        )
        | inr more ↦
            let (r, is, leaves) =
              reap_one-Leaves s total (host.moment j) (host.exit j) j balanced in
            let shrinks = subst (Shrinks (work j.children)) is (
              reap_one-Shrinks s (host.moment j) (host.exit j) j (serves.starts j) begun
                (serves.waits j (nothing_to_reap-some host block j more) begun)) in
            rw (more, is)
              (after_reap-Went (reap_children s host fuel) fuel block
                (block && not (is_empty j.children)) (work j.children) r (reap_children-Went fuel)
                (omega arith) leaves shrinks)
      ]

  -- How the wait ends: with a slot that is not in use, or with the end of make.
  abbrev pub Freed : Reaped → Type 0
  Freed (goes_on j) = Good j × (j.job_slots_used ≢ s.job_slots)
  Freed (reaped j) = Good j × (j.job_slots_used ≢ s.job_slots)
  Freed (dies n) = n ≢ 0

  after_reaping-Freed :
      (again : Jobs → Option Reaped) (fuel n : ℕ) (r : Reaped)
      → ((j : Jobs)
          → s.job_slots ≢ 0
          → Good j
          → work j.children + 1 < fuel
          → Returns (again j) Freed)
      → s.job_slots ≢ 0
      → n < fuel
      → Went true n r
      → Returns (after_reaping again r) Freed
  unfolding after_reaping
  after_reaping-Freed again fuel n (goes_on j) loops limited le (h, _, less) =
      let lt = less refl in loops j limited h (omega arith)
  after_reaping-Freed again fuel n (reaped j) loops limited le (h, _, less) =
      let lt = less refl in loops j limited h (omega arith)
  after_reaping-Freed again fuel n (dies d) loops limited le h = (dies d, refl, h)

  -- With a limit of -j on the jobs, the loop of `new_job` that waits for a slot comes to an end.
  -- The state is one in which the slots and the tokens are balanced and each child on the chain has
  -- begun, and the system gives, for each wait, the end of a child that there is. Then fuel of two
  -- more than the commands and children left is enough for the loop to reach a state of the same
  -- kind in which the slots in use are not as many as the limit, or the end of make by a child that
  -- failed.
  pub wait_for_slot-Freed :
      (fuel : ℕ) (j : Jobs)
      → s.job_slots ≢ 0
      → Good j
      → work j.children + 1 < fuel
      → Returns (wait_for_slot s host fuel j) Freed
  unfolding wait_for_slot
  wait_for_slot-Freed zero j limited h less = absurd (omega arith)
  wait_for_slot-Freed (suc fuel) j limited h less =
      elim (Bool-cases (j.job_slots_used == s.job_slots)) [
        | inr free ↦ (goes_on j, rw free refl, (h, ground arith))
        | inl full ↦
            let (r, is, went) = reap_children-Went fuel true j h (omega arith) in
            let some_ : is_empty j.children ≡ false =
              slots-some j.children (let used = (h.0).used in ground arith) in
            rw (full, is)
              (after_reaping-Freed (wait_for_slot s host fuel) fuel (work j.children) r
                (wait_for_slot-Freed fuel) limited (omega arith)
                (subst (λ b. Went (not b) (work j.children) r) some_ went))
      ]
