-- ===== src/Jobs/Work.antt =====
-- Each round of `reap_children` leaves less to run.
use make.Remake.{Options}
use make.Jobs.{
  Command, Pid, no_pid, Child, next_line, job_next_command, Found, launched, asked, finished,
  start_line, start_lines,
}
use make.Prelude.{
  ℕ, ◌+◌, ◌≤◌, ◌<◌, ◌≡◌, refl, Bool, true, false, not, ◌&&◌, ◌||◌, List, [], ◌∷◌, ◌++◌, if-both,
  length, arith,
}

-- The number of commands that a child has left.
abbrev pub in_lines : List (List Command) → ℕ
in_lines [] = 0
in_lines (l ∷ ls) = length l + in_lines ls

abbrev pub pending : Child → ℕ
pending c = length c.command_ptr + in_lines c.command_lines

-- What the children have left, with one for each child.
abbrev pub work : List Child → ℕ
work [] = 0
work (c ∷ cs) = 1 + pending c + work cs

abbrev pub has_begun : Pid → Bool
has_begun no_pid = false
has_begun _ = true

-- The first command of each child has been started, with success or not.
abbrev pub AllBegun : List Child → Type 0
AllBegun [] = Unit
AllBegun (c ∷ cs) = (has_begun c.pid ≡ true) × AllBegun cs

pub work-middle :
    (before after : List Child) (c : Child)
    → work (before ++ (c ∷ after)) ≡ 1 + pending c + work (before ++ after)
work-middle [] after c = refl
work-middle (b ∷ before) after c = let ih = work-middle before after c in omega arith

pub AllBegun-take :
    (before after : List Child) (c : Child)
    → AllBegun (before ++ (c ∷ after))
    → AllBegun (before ++ after)
AllBegun-take [] after c (h, rest) = rest
AllBegun-take (b ∷ before) after c (h, rest) = (h, AllBegun-take before after c rest)

pub AllBegun-put :
    (before after : List Child) (c : Child)
    → has_begun c.pid ≡ true
    → AllBegun (before ++ after)
    → AllBegun (before ++ (c ∷ after))
AllBegun-put [] after c own h = (own, h)
AllBegun-put (b ∷ before) after c own (h, rest) = (h, AllBegun-put before after c own rest)

-- A command that is found leaves fewer than `n` after it.
abbrev pub FoundBelow : ℕ → Found → Type 0
FoundBelow n (launched c cs ls) = length cs + in_lines ls < n
FoundBelow n asked = Unit
FoundBelow n finished = Unit

FoundBelow-more : (n k : ℕ) (f : Found) → n ≤ k → FoundBelow n f → FoundBelow k f
FoundBelow-more n k (launched c cs ls) le h = omega arith
FoundBelow-more n k asked le h = tt
FoundBelow-more n k finished le h = tt

pub start_line-below :
    (opts : Options) (l : List Command) (ls : List (List Command)) (rest : Found)
    → FoundBelow (in_lines ls) rest
    → FoundBelow (length l + in_lines ls) (start_line opts l ls rest)
unfolding start_line
start_line-below opts [] ls rest h =
    FoundBelow-more (in_lines ls) (length {A = Command} [] + in_lines ls) rest (omega arith) h
start_line-below opts (c ∷ cs) ls rest h =
    let n = length (c ∷ cs) + in_lines ls in
    let on = start_line opts cs ls rest in
    let later : FoundBelow n on =
      FoundBelow-more (length cs + in_lines ls) n on (omega arith)
        (start_line-below opts cs ls rest h) in
    if-both (FoundBelow n) (not c.no_argv && opts.question_flag && not c.recursive) _ _ tt (
      if-both (FoundBelow n) (c.no_argv || (opts.touch_flag && not c.recursive)) _ _ later (
        if-both (FoundBelow n) c.null_command _ _ later (
          if-both (FoundBelow n) (opts.just_print_flag && not c.recursive) _ (launched c cs ls)
            later (omega arith))))

pub start_lines-below :
    (opts : Options) (ls : List (List Command)) → FoundBelow (in_lines ls) (start_lines opts ls)
unfolding start_lines
start_lines-below opts [] = tt
start_lines-below opts (l ∷ ls) =
    start_line-below opts l ls (start_lines opts ls) (start_lines-below opts ls)

next_line-length :
    (ls : List (List Command)) → length (next_line ls).0 + in_lines (next_line ls).1 ≡ in_lines ls
unfolding next_line
next_line-length [] = refl
next_line-length ([] ∷ ls) = let ih = next_line-length ls in omega arith
next_line-length ((c ∷ cs) ∷ ls) = refl

pub job_next_command-pending : (c : Child) → pending (job_next_command c).0 ≡ pending c
unfolding job_next_command
job_next_command-pending c = go c.command_ptr refl
  where
    go : (l : List Command) → c.command_ptr ≡ l → pending (job_next_command c).0 ≡ pending c
    go [] e = rw (e, job_next_command) (let n = next_line-length c.command_lines in omega arith)
    go (x ∷ l) e = rw (e, job_next_command) refl
