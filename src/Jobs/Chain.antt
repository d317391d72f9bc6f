-- ===== src/Jobs/Chain.antt =====
-- A round of `reap_children` keeps the slots and the tokens balanced.
use make.Remake.{us_success, us_question, us_failed, Files, is_running}
use make.Remake.Finish.{notice_finished_file}
use make.Jobs.{Child, Jobs, Settings, Moment, is_empty, job_next_command, start_job_command}
use make.Jobs.Reap.{
  Exit, Reaped, goes_on, reaped, dies, failure, set_status, remove_child, restarted, next_or_done,
  process_child, is_unstarted, is_of, find_child, reap_one,
}
use make.Jobs.Balance.{
  slots, EachAtMost, IsBalanced, start_job_command-Begun, free_child-IsBalanced,
}
use make.Prelude.{
  ℕ, ◌+◌, ◌-◌, ◌≤◌, ◌≡◌, ◌≢◌, ◌⊎◌, inl, inr, refl, ◌∙◌, ap, subst, Bool, true, false, not, ◌&&◌,
  none, some, List, [], ◌∷◌, ◌++◌, Returns, ◌==◌, ltb, if◌then◌else◌, length, Bool-cases, arith,
}

slots-middle :
    (before after : List Child) (c : Child)
    → slots (before ++ (c ∷ after)) ≡ c.jobslot + slots (before ++ after)
slots-middle [] after c = refl
slots-middle (b ∷ before) after c = let ih = slots-middle before after c in omega arith

length-middle :
    (before after : List Child) (c : Child)
    → length (before ++ (c ∷ after)) ≡ length (before ++ after) + 1
length-middle [] after c = omega arith
length-middle (b ∷ before) after c = let ih = length-middle before after c in omega arith

EachAtMost-take :
    (n : ℕ) (before after : List Child) (c : Child)
    → EachAtMost n (before ++ (c ∷ after))
    → (c.jobslot ≤ n) × EachAtMost n (before ++ after)
EachAtMost-take n [] after c h = h
EachAtMost-take n (b ∷ before) after c (h, rest) =
    let (own, others) = EachAtMost-take n before after c rest in (own, (h, others))

EachAtMost-put :
    (n : ℕ) (before after : List Child) (c : Child)
    → c.jobslot ≤ n
    → EachAtMost n (before ++ after)
    → EachAtMost n (before ++ (c ∷ after))
EachAtMost-put n [] after c own h = (own, h)
EachAtMost-put n (b ∷ before) after c own (h, rest) = (h, EachAtMost-put n before after c own rest)

pub find_child-middle :
    (test : Child → Bool) (cs : List Child)
    → (find_child test cs ≡ none)
      ⊎ ((before : List Child) × (c : Child) × (after : List Child) × (find_child test cs
            ≡ some (before, c, after))
          × (cs ≡ before ++ (c ∷ after))
          × (test c ≡ true))
unfolding find_child
find_child-middle test [] = inl refl
find_child-middle test (c ∷ cs) = elim (Bool-cases (test c)) [
  | inl here ↦ inr ([], c, cs, rw here refl, refl, here)
  | inr no_ ↦ elim (find_child-middle test cs) [
    | inl e ↦ inl (rw (no_, e) refl)
    | inr (before, d, after, e, is, holds) ↦
        inr (c ∷ before, d, after, rw (no_, e) refl, ap (λ l. c ∷ l) is, holds)
  ]
]

pub job_next_command-slot : (c : Child) → ((job_next_command c).0).jobslot ≡ c.jobslot
unfolding job_next_command
job_next_command-slot c = elim (Bool-cases (is_empty c.command_ptr)) [
  | inl e ↦ rw e refl
  | inr e ↦ rw e refl
]

module _ (s : Settings) (total : ℕ) where
  -- What a round leaves, unless make dies.
  abbrev pub Leaves : Reaped → Type 0
  Leaves (goes_on j) = IsBalanced s total 0 j
  Leaves (reaped j) = IsBalanced s total 0 j
  Leaves (dies n) = n ≢ 0

  -- `old` is the child as it stands on the chain.
  module _ (before after : List Child) (old : Child) where
    remove_child-Leaves :
        (child_failed : ℕ) (c : Child) (j : Jobs)
        → c.jobslot ≡ old.jobslot
        → j.children ≡ before ++ (old ∷ after)
        → IsBalanced s total 0 j
        → Returns (remove_child s child_failed c before after j) Leaves
    unfolding remove_child
    remove_child-Leaves child_failed c j same e h =
        let used : j.job_slots_used ≡ old.jobslot + slots (before ++ after) =
          h.used ∙ ap slots e ∙ slots-middle before after old in
        let there = ap length e ∙ length-middle before after old in
        let (own, others) = EachAtMost-take 1 before after old (subst (EachAtMost 1) e h.single) in
        let tokens = h.tokens in
        let j' : Jobs = record j {
          files = notice_finished_file s.options s.system c.file j.files;
          job_slots_used =
              if ltb 0 j.job_slots_used then j.job_slots_used - c.jobslot else j.job_slots_used;
          children = before ++ after;
        } in
        let (k, is, balanced) = free_child-IsBalanced s total 0 j' (record {
          tokens = omega arith;
          used = ground arith;
          single = others;
          idle = h.idle;
          conserved = h.conserved;
        }) in
        elim (Bool-cases
          (not (child_failed == 0) && not c.dontcare && not s.options.keep_going_flag)) [
            | inl fatal ↦ (dies child_failed, rw (is, fatal) refl, ground arith)
            | inr fine ↦ (reaped k, rw (is, fine) refl, balanced)
          ]

    restarted-Leaves :
        (j : Jobs) (r : Child × Files)
        → (r.0).jobslot ≡ old.jobslot
        → j.children ≡ before ++ (old ∷ after)
        → IsBalanced s total 0 j
        → Returns (restarted s before after j r) Leaves
    unfolding restarted
    restarted-Leaves j (c, files) same e h =
        let used : j.job_slots_used ≡ old.jobslot + slots (before ++ after) =
          h.used ∙ ap slots e ∙ slots-middle before after old in
        let there = ap length e ∙ length-middle before after old in
        let (own, others) = EachAtMost-take 1 before after old (subst (EachAtMost 1) e h.single) in
        let tokens = h.tokens in
        elim (Bool-cases (is_running (files c.file).command_state)) [
          | inl runs ↦ (
            goes_on (record j { files = files; children = before ++ (c ∷ after) }),
            rw runs refl,
            record {
              tokens = let n = length-middle before after c in omega arith;
              used = used ∙ (let n = slots-middle before after c in omega arith);
              single = EachAtMost-put 1 before after c (omega arith) others;
              idle = h.idle;
              conserved = h.conserved;
            },
          )
          | inr over ↦ rw over (
              remove_child-Leaves 0 c (record j { files = files }) same e
                (record {
                  tokens = h.tokens;
                  used = h.used;
                  single = h.single;
                  idle = h.idle;
                  conserved = h.conserved;
                }))
        ]

    next_or_done-Leaves :
        (m : Moment) (j : Jobs) (r : Child × Bool)
        → (r.0).jobslot ≡ old.jobslot
        → j.children ≡ before ++ (old ∷ after)
        → IsBalanced s total 0 j
        → Returns (next_or_done s m before after j r) Leaves
    unfolding next_or_done
    next_or_done-Leaves m j (c, true) same e h =
        let c' : Child = record c { remote = m.start_remote_job_p } in
        restarted-Leaves j (start_job_command s m c' j.files)
          ((start_job_command-Begun s m c' j.files).slot ∙ same) e h
    next_or_done-Leaves m j (c, false) same e h =
        remove_child-Leaves 0 c (record j { files = set_status c.file us_success j.files }) same e
          (record {
            tokens = h.tokens;
            used = h.used;
            single = h.single;
            idle = h.idle;
            conserved = h.conserved;
          })

    process_child-Leaves :
        (m : Moment) (x : Exit) (j : Jobs)
        → j.children ≡ before ++ (old ∷ after)
        → IsBalanced s total 0 j
        → Returns (process_child s m x old before after j) Leaves
    unfolding process_child
    process_child-Leaves m x j e h =
        let child_failed = failure s old x in
        let status = if child_failed == 2 then us_failed else us_question in
        elim (Bool-cases (not (child_failed == 0) && not old.noerror && not s.ignore_errors_flag)) [
          | inl counts ↦ rw counts (
              remove_child-Leaves child_failed old
                (record j { files = set_status old.file status j.files }) refl e
                (record {
                  tokens = h.tokens;
                  used = h.used;
                  single = h.single;
                  idle = h.idle;
                  conserved = h.conserved;
                }))
          | inr ignored ↦
              rw ignored
                (next_or_done-Leaves m j (job_next_command old) (job_next_command-slot old) e h)
        ]

  -- A round ends, and leaves the slots and the tokens balanced, whatever process ended.
  pub reap_one-Leaves :
      (m : Moment) (x : Exit) (j : Jobs)
      → IsBalanced s total 0 j
      → Returns (reap_one s m x j) Leaves
  unfolding reap_one
  reap_one-Leaves m x j h = elim (find_child-middle is_unstarted j.children) [
    | inr (before, c, after, e, is, _) ↦
        rw (e, reap_one)
          (process_child-Leaves before after c m (record x { exit_code = 127; exit_sig = 0 }) j is
            h)
    | inl none_ ↦ elim (find_child-middle (is_of x) j.children) [
      | inl unknown ↦ (goes_on j, rw (none_, unknown, reap_one) refl, h)
      | inr (before, c, after, e, is, _) ↦
          rw (none_, e, reap_one) (process_child-Leaves before after c m x j is h)
    ]
  ]
