-- ===== src/Remake/Walk/Calling.antt =====
-- `update_file_1` ends, where the calls of `check_dep` that it makes end.
use make.Remake.{
  UpdateStatus, us_success, us_failed, Prereq, Target, Files, CmdState, is_success, is_us_none,
  is_finished, set_command_state, cs_not_started, cs_deps_running, cs_running, cs_finished,
  file_mtime, nonexistent_mtime,
}
use make.Remake.Finish.{notice_finished_file}
use make.Remake.Decide.{Considered, runs, returns, consider}
use make.Remake.Walk.{
  Pass, Reply, dies, replies, is_updating, mark_updating, waits_for_deps, Loop, set_deps, Call,
  Rest, each_prereq, each_intermediate, executed, decided, after_loops, search_rule,
}
use make.Remake.Walk.Calls.{after_search, by_state, update_file_1}
use make.Remake.Walk.Graph.{
  AllBelow, AllBelow-append, IsGraph, change-IsGraph, file_mtime-IsGraph, set_command_state-IsGraph,
}
use make.Remake.Walk.Kept.{ConsideredKeeps, consider-keeps, notice_finished_file-IsGraph}
use make.Remake.Walk.Loops.{
  head, IsGraph-ext, mark_updating-IsGraph, Stays, Ends, CallEnds, is_updating-marked, RestEnds,
  and_then-Returns, set_deps-IsGraph, after_dep-Returns,
}
use make.Prelude.{
  ℕ, ◌≡◌, inl, inr, refl, Bool, true, false, not, ◌&&◌, ◌||◌, Option, none, some, List, [], ◌∷◌,
  ◌++◌, at, ◌==◌, if◌then◌else◌, if-both, Bool-cases, Returns,
}

-- What the walk asks of the search for an implicit rule and of the start of a recipe: they leave the
-- marks and the entries of the files, and make no file intermediate and no prerequisite outside.
pub record Keeps (n : ℕ) (dc : ℕ → List ℕ) (p : Pass) : Type 0 where
  pub searches :
      (b : ℕ → Bool) (f : ℕ) (files : Files)
      → IsGraph n dc b files
      → IsGraph n dc b (p.try_implicit_rule f files)
  pub executes :
      (b : ℕ → Bool) (f : ℕ) (files : Files)
      → IsGraph n dc b files
      → IsGraph n dc b (p.execute_file_commands f files)

module _ (n : ℕ) (dc : ℕ → List ℕ) (p : Pass) (keeps : Keeps n dc p) where
  module _ (b : ℕ → Bool) where
    search_rule-IsGraph :
        (f : ℕ) (files : Files) → IsGraph n dc b files → IsGraph n dc b (search_rule p f files)
    unfolding search_rule
    search_rule-IsGraph f files h =
        let found = keeps.searches b f files h in
        if-both (IsGraph n dc b) _ _ files
          (change-IsGraph n dc b f _ (p.try_implicit_rule f files) refl refl refl refl found) h

    decided-Returns :
        (f : ℕ) (c : Option Considered)
        → ConsideredKeeps n dc b c
        → Returns (decided p f c) (Stays n dc b)
    unfolding decided
    decided-Returns f none k = (dies, refl, tt)
    decided-Returns f (some (returns status files)) k = (replies status false files, refl, k)
    decided-Returns f (some (runs files)) k =
        let after = p.execute_file_commands f files in
        let kept = keeps.executes b f files k in
        (
          executed f after,
          refl,
          if-both (Stays n dc b) (is_finished (after f).command_state) _ _
              (change-IsGraph n dc b f _ after refl refl refl refl kept) kept,
        )

    module _ (Q : Reply → Type 0) (died : Q dies) where
      each_prereq-Returns :
          (check : Call) (file : ℕ) (kept ds : List Prereq) (leave : Rest)
          → CallEnds n dc b check
          → AllBelow n kept
          → AllBelow n ds
          → RestEnds n dc b Q died leave
          → RestEnds n dc b Q died (each_prereq p check file kept ds leave)
      unfolding each_prereq
      each_prereq-Returns check file kept [] leave ends k own leaves l h = leaves l h
      each_prereq-Returns check file kept (d ∷ ds) leave ends k (lt, own) leaves l h =
          let r = file_mtime p.sys.name_mtime d.file l.files in
          let timed = file_mtime-IsGraph n dc b p.sys.name_mtime d.file l.files h in
          elim (Bool-cases (d.wait_here && l.running)) [
            | inl waits ↦ rw waits (leaves l h)
            | inr goes ↦ elim (Bool-cases (is_updating d.file r.1)) [
              | inl circular ↦
                  rw (goes, circular)
                    (each_prereq-Returns check file kept ds leave ends k own leaves
                      (record l { files = set_deps file (kept ++ ds) r.1 })
                      (set_deps-IsGraph n dc b Q died file (kept ++ ds) r.1
                        (AllBelow-append n kept ds k own) timed))
              | inr free ↦
                  rw (goes, free)
                    (and_then-Returns n dc b Q died (check d.file l.must_make r.1) _
                      (ends d.file l.must_make r.1 lt
                        (is_updating-marked n dc b d.file r.1 timed free) timed)
                      (after_dep-Returns n dc b Q died p file kept d ds r.0 true leave
                        (λ d'. each_prereq p check file (kept ++ (d' ∷ [])) ds leave) l k lt own
                        leaves
                        (λ d' lt'.
                          each_prereq-Returns check file (kept ++ (d' ∷ [])) ds leave ends
                            (AllBelow-append n kept (d' ∷ []) k (lt', tt)) own leaves)))
            ]
          ]

      -- No prerequisite is intermediate, so the second loop calls nothing.
      each_intermediate-Returns :
          (update : Call) (file : ℕ) (kept ds : List Prereq) (leave : Rest)
          → RestEnds n dc b Q died leave
          → RestEnds n dc b Q died (each_intermediate p update file kept ds leave)
      unfolding each_intermediate
      each_intermediate-Returns update file kept [] leave leaves l h = leaves l h
      each_intermediate-Returns update file kept (d ∷ ds) leave leaves l h =
          let plain = (h d.file).kept in
          elim (Bool-cases (d.wait_here && l.running)) [
            | inl waits ↦ rw waits (leaves l h)
            | inr goes ↦
                rw (goes, plain)
                  (each_intermediate-Returns update file (kept ++ (d ∷ [])) ds leave leaves l h)
          ]

  -- After the loops the mark of the file is taken off.
  after_loops-Returns :
      (b : ℕ → Bool) (f : ℕ) (noexist : Bool) (this_mtime : ℕ) (l : Loop)
      → IsGraph n dc b l.files
      → Returns (after_loops p f noexist this_mtime l) (Stays n dc (at (head n dc f) false b))
  unfolding after_loops
  after_loops-Returns b f noexist this_mtime l h =
      let off = at (head n dc f) false b in
      let files = mark_updating false f l.files in
      let marked : IsGraph n dc off files = mark_updating-IsGraph n dc b false f l.files h in
      let failed = if is_us_none l.dep_status then us_failed else l.dep_status in
      let told : Target = record (files f) { update_status = failed } in
      let ready =
        if waits_for_deps (files f).command_state
        then set_command_state f cs_not_started files
        else files in
      let Q : Option Reply → Type 0 = λ o. Returns o (Stays n dc off) in
      if-both Q l.running _ _
        (
          replies us_success false (set_command_state f cs_deps_running files),
          refl,
          set_command_state-IsGraph n dc off f cs_deps_running files marked,
        )
        (if-both Q (not (is_success l.dep_status)) _ _
          (
            replies l.dep_status false (notice_finished_file p.opts p.sys f (at f told files)),
            refl,
            notice_finished_file-IsGraph n dc off p.opts p.sys f (at f told files)
                (change-IsGraph n dc off f told files refl refl refl refl marked),
          )
          (decided-Returns off f
            (consider p.opts p.sys false noexist this_mtime l.must_make f ready)
            (consider-keeps n dc off p.opts p.sys noexist this_mtime l.must_make f ready (
              if-both (IsGraph n dc off) (waits_for_deps (files f).command_state)
                (set_command_state f cs_not_started files) files
                (set_command_state-IsGraph n dc off f cs_not_started files marked) marked))))

  after_search-Returns :
      (b : ℕ → Bool) (check : ℕ → Call) (update : Call) (f this_mtime : ℕ) (files : Files)
      → CallEnds n dc b (check this_mtime)
      → IsGraph n dc b files
      → Returns
          (after_search p check update f this_mtime files)
          (Stays n dc (at (head n dc f) false b))
  unfolding after_search
  after_search-Returns b check update f this_mtime files ends h =
      let Q = Stays n dc (at (head n dc f) false b) in
      let noexist = this_mtime == nonexistent_mtime in
      let finish = after_loops p f noexist this_mtime in
      let finishes = after_loops-Returns b f noexist this_mtime in
      each_prereq-Returns b Q tt (check this_mtime) f [] (files f).deps _ ends tt (h f).below
        (λ l k.
          if-both (λ o. Returns o Q) (l.must_make || p.opts.always_make_flag) _ _
            (each_intermediate-Returns b Q tt update f [] (l.files f).deps finish finishes l k)
            (finishes l k))
        (record { dep_status = us_success; must_make = noexist; running = false; files = files }) h

  -- The mark of a file that is taken off after it has been put on.
  off_on : (b : ℕ → Bool) (h g : ℕ) → at h false (at h true b) g ≡ at h false b g
  off_on b h g = elim (Bool-cases (g == h)) [ inl it ↦ rw it refl | inr other ↦ rw other refl ]

  by_state-Returns :
      (Q : Reply → Type 0) (status : UpdateStatus) (files : Files) (goes_on : Option Reply)
      (state : CmdState)
      → Returns goes_on Q
      → ((s : UpdateStatus) → Q (replies s false files))
      → Returns (by_state status files goes_on state) Q
  unfolding by_state
  by_state-Returns Q status files goes_on cs_not_started goes stops = goes
  by_state-Returns Q status files goes_on cs_deps_running goes stops = goes
  by_state-Returns Q status files goes_on cs_running goes stops =
      (replies us_success false files, refl, stops us_success)
  by_state-Returns Q status files goes_on cs_finished goes stops =
      (replies status false files, refl, stops status)

  Stays-Ends :
      (b : ℕ → Bool) (h : ℕ) (r : Reply) → Stays n dc (at h false (at h true b)) r → Ends n dc b h r
  Stays-Ends b h dies k = tt
  Stays-Ends b h (replies s m files) k =
      inr (IsGraph-ext n dc (at h false (at h true b)) (at h false b) files (off_on b h) k)

  -- `update_file_1` ends where each `check_dep` does.
  pub update_file_1-Returns :
      (b : ℕ → Bool) (check : ℕ → Call) (update : Call) (f : ℕ) (files : Files)
      → ((this_mtime : ℕ) → CallEnds n dc (at (head n dc f) true b) (check this_mtime))
      → IsGraph n dc b files
      → Returns (update_file_1 p check update f files) (Ends n dc b (head n dc f))
  unfolding update_file_1
  update_file_1-Returns b check update f files ends h =
      let on : ℕ → Bool = at (head n dc f) true b in
      let r = file_mtime p.sys.name_mtime f (mark_updating true f files) in
      let timed : IsGraph n dc on r.1 =
        file_mtime-IsGraph n dc on p.sys.name_mtime f (mark_updating true f files)
          (mark_updating-IsGraph n dc b true f files h) in
      let (reply, e, stays) =
        after_search-Returns on check update f r.0 (search_rule p f r.1) (ends r.0)
          (search_rule-IsGraph on f r.1 timed) in
      if-both (λ o. Returns o (Ends n dc b (head n dc f))) (files f).updated _ _ (_, refl, inl h)
        (by_state-Returns (Ends n dc b (head n dc f)) (files f).update_status files _
          (files f).command_state (reply, e, Stays-Ends b (head n dc f) reply stays) (λ s. inl h))
