-- ===== src/Remake/Walk/Kept.antt =====
-- The end of a target keeps the graph.
use make.Commands.{Commands}
use make.Remake.{
  UpdateStatus, us_success, us_failed, Prereq, Target, Files, Options, f_mtime, file_mtime,
  is_us_none, is_running,
}
use make.Remake.Finish.{
  System, finish_entry, max_of, give_times, propagate_mtime, settle, finish_peer, finish_peers,
  finish_status, notice_finished_file, Remade, starts, settles, settle_now, remake_bare,
  remake_with, remake_file,
}
use make.Remake.Decide.{
  record_change, missing, scan_deps, Considered, runs, returns, leave_alone, after_remake, remake,
  must_remake, consider,
}
use make.Remake.Walk.Graph.{
  AllBelow, IsGraph, at-IsGraph, change-IsGraph, f_mtime-IsGraph, file_mtime-IsGraph,
}
use make.Prelude.{
  ℕ, ◌≡◌, inl, inr, refl, sym, subst, Bool, true, false, not, ◌&&◌, ◌||◌, Option, none, some, List,
  [], ◌∷◌, at, if◌then◌else◌, if-both, Option-cases,
}

module _ (n : ℕ) (dc : ℕ → List ℕ) (b : ℕ → Bool) where
  give_times-IsGraph :
      (t : ℕ) (fs : List ℕ) (files : Files)
      → IsGraph n dc b files
      → IsGraph n dc b (give_times t fs files)
  unfolding give_times
  give_times-IsGraph t [] files h = h
  give_times-IsGraph t (f ∷ fs) files h =
      give_times-IsGraph t fs (at f (record (files f) { last_mtime = t }) files)
        (change-IsGraph n dc b f (record (files f) { last_mtime = t }) files refl refl refl refl h)

  propagate_mtime-IsGraph :
      (f : ℕ) (files : Files) → IsGraph n dc b files → IsGraph n dc b (propagate_mtime f files)
  unfolding propagate_mtime
  propagate_mtime-IsGraph f files h =
      elim (Option-cases (max_of (files f).last_mtime (files f).double_colon files)) [
        | inl e ↦ subst (IsGraph n dc b) (sym (rw (e, propagate_mtime) refl)) h
        | inr (t, e) ↦
            let is : propagate_mtime f files ≡ give_times t (files f).double_colon files =
              rw (e, propagate_mtime) refl in
            subst (IsGraph n dc b) (sym is) (give_times-IsGraph t (files f).double_colon files h)
      ]

  finish_peer-IsGraph :
      (sys : System) (status : UpdateStatus) (d : ℕ) (files : Files)
      → IsGraph n dc b files
      → IsGraph n dc b (finish_peer sys status d files)
  unfolding finish_peer
  finish_peer-IsGraph sys status d files h =
      let done : Files = at d (settle status (files d)) files in
      let first : IsGraph n dc b done =
        change-IsGraph n dc b d (settle status (files d)) files refl refl refl refl h in
      if-both (IsGraph n dc b) (files d).phony done (f_mtime sys.name_mtime d done) first
        (f_mtime-IsGraph n dc b sys.name_mtime d done first)

  finish_peers-IsGraph :
      (sys : System) (status : UpdateStatus) (ds : List ℕ) (files : Files)
      → IsGraph n dc b files
      → IsGraph n dc b (finish_peers sys status ds files)
  unfolding finish_peers
  finish_peers-IsGraph sys status [] files h = h
  finish_peers-IsGraph sys status (d ∷ ds) files h =
      finish_peers-IsGraph sys status ds (finish_peer sys status d files)
        (finish_peer-IsGraph sys status d files h)

  finish_status-IsGraph :
      (sys : System) (ran : Bool) (f : ℕ) (files : Files)
      → IsGraph n dc b files
      → IsGraph n dc b (finish_status sys ran f files)
  unfolding finish_status
  finish_status-IsGraph sys ran f files h =
      let x : Target = record (files f) { update_status = us_success } in
      if-both (IsGraph n dc b) (ran && not (is_us_none (files f).update_status)) _ _
        (finish_peers-IsGraph sys (files f).update_status (files f).also_make files h)
        (if-both (IsGraph n dc b) (is_us_none (files f).update_status) (at f x files) files
          (change-IsGraph n dc b f x files refl refl refl refl h) h)

  entry-IsGraph :
      (opts : Options) (sys : System) (f : ℕ) (files : Files)
      → IsGraph n dc b files
      → IsGraph n dc b (at f (finish_entry opts sys f (files f)) files)
  unfolding finish_entry
  entry-IsGraph opts sys f files h = change-IsGraph n dc b f _ files refl refl refl refl h

  pub notice_finished_file-IsGraph :
      (opts : Options) (sys : System) (f : ℕ) (files : Files)
      → IsGraph n dc b files
      → IsGraph n dc b (notice_finished_file opts sys f files)
  unfolding notice_finished_file
  notice_finished_file-IsGraph opts sys f files h =
      let first : Files = at f (finish_entry opts sys f (files f)) files in
      finish_status-IsGraph sys (is_running (files f).command_state) f (propagate_mtime f first)
        (propagate_mtime-IsGraph f first (entry-IsGraph opts sys f files h))

  -- Where the call comes to an end without a recipe, the graph is kept.
  abbrev RemadeKeeps : Option Remade → Type 0
  RemadeKeeps none = Unit
  RemadeKeeps (some starts) = Unit
  RemadeKeeps (some (settles files)) = IsGraph n dc b files

  settle_now-keeps :
      (opts : Options) (sys : System) (status : UpdateStatus) (f : ℕ) (files : Files)
      → IsGraph n dc b files
      → RemadeKeeps (some (settle_now opts sys status f files))
  unfolding settle_now
  settle_now-keeps opts sys status f files h =
      let x : Target = record (files f) { update_status = status } in
      notice_finished_file-IsGraph opts sys f (at f x files)
        (change-IsGraph n dc b f x files refl refl refl refl h)

  remake_with-keeps :
      (opts : Options) (sys : System) (rebuilding : Bool) (cmds : Option Commands) (f : ℕ)
      (files : Files)
      → IsGraph n dc b files
      → RemadeKeeps (remake_with opts sys rebuilding cmds f files)
  unfolding remake_with remake_bare
  remake_with-keeps opts sys rebuilding none f files h =
      if-both RemadeKeeps ((files f).phony || (files f).is_target) _ _
        (settle_now-keeps opts sys us_success f files h)
        (if-both RemadeKeeps (not opts.keep_going_flag && not (rebuilding && (files f).dontcare))
          none _ tt (settle_now-keeps opts sys us_failed f files h))
  remake_with-keeps opts sys rebuilding (some c) f files h =
      if-both RemadeKeeps (not opts.touch_flag || c.any_recurse) (some starts) _ tt
        (settle_now-keeps opts sys us_success f files h)

  abbrev pub ConsideredKeeps : Option Considered → Type 0
  ConsideredKeeps none = Unit
  ConsideredKeeps (some (runs files)) = IsGraph n dc b files
  ConsideredKeeps (some (returns status files)) = IsGraph n dc b files

  after_remake-keeps :
      (f : ℕ) (files : Files) (r : Option Remade)
      → IsGraph n dc b files
      → RemadeKeeps r
      → ConsideredKeeps (after_remake f files r)
  unfolding after_remake
  after_remake-keeps f files none h k = tt
  after_remake-keeps f files (some starts) h k = h
  after_remake-keeps f files (some (settles after)) h k =
      change-IsGraph n dc b f (record (after f) { updated = true }) after refl refl refl refl k

  remake-keeps :
      (opts : Options) (sys : System) (f : ℕ) (files : Files)
      → IsGraph n dc b files
      → ConsideredKeeps (remake opts sys false f files)
  unfolding remake remake_file
  remake-keeps opts sys f files h =
      after_remake-keeps f files (remake_with opts sys false (files f).cmds f files) h
        (remake_with-keeps opts sys false (files f).cmds f files h)

  leave_alone-keeps :
      (opts : Options) (sys : System) (f : ℕ) (files : Files)
      → IsGraph n dc b files
      → ConsideredKeeps (some (leave_alone opts sys f files))
  unfolding leave_alone
  leave_alone-keeps opts sys f files h =
      let x : Target = record (files f) { secondary = true } in
      let kept =
        if not (files f).notintermediate && not opts.no_intermediates
        then at f x files
        else files in
      notice_finished_file-IsGraph opts sys f kept (
        if-both (IsGraph n dc b) (not (files f).notintermediate && not opts.no_intermediates)
          (at f x files) files (change-IsGraph n dc b f x files refl refl refl refl h) h)

  scan_deps-IsGraph :
      (sys : System) (noexist : Bool) (t : ℕ) (ds : List Prereq) (must changed : Bool)
      (files : Files)
      → AllBelow n ds
      → IsGraph n dc b files
      → let s = scan_deps sys noexist t ds must changed files in
        IsGraph n dc b s.files × AllBelow n s.deps
  unfolding scan_deps record_change
  scan_deps-IsGraph sys noexist t [] must changed files own h = (h, tt)
  scan_deps-IsGraph sys noexist t (d ∷ ds) must changed files (lt, own) h =
      let (d_mtime, after) = file_mtime sys.name_mtime d.file files in
      let (graph, below) =
        scan_deps-IsGraph sys noexist t ds (must || missing d_mtime (after d.file).intermediate d)
          (changed || (not d.ignore_mtime && d.changed)) after own
          (file_mtime-IsGraph n dc b sys.name_mtime d.file files h) in
      (graph, (lt, below))

  must_remake-IsGraph :
      (opts : Options) (sys : System) (noexist : Bool) (t : ℕ) (must : Bool) (f : ℕ) (files : Files)
      → IsGraph n dc b files
      → IsGraph n dc b (must_remake opts sys noexist t must f files).1
  unfolding must_remake
  must_remake-IsGraph opts sys noexist t must f files h =
      let s = scan_deps sys noexist t (files f).deps must false files in
      let (graph, below) =
        scan_deps-IsGraph sys noexist t (files f).deps must false files (h f).below h in
      at-IsGraph n dc b f (record (s.files f) { deps = s.deps }) s.files
        (record {
          marked = (graph f).marked;
          entries = (graph f).entries;
          kept = (graph f).kept;
          below = below;
        })
        graph

  -- The decision on a file, and what follows it, keeps the graph.
  pub consider-keeps :
      (opts : Options) (sys : System) (noexist : Bool) (t : ℕ) (must : Bool) (f : ℕ) (files : Files)
      → IsGraph n dc b files
      → ConsideredKeeps (consider opts sys false noexist t must f files)
  unfolding consider
  consider-keeps opts sys noexist t must f files h =
      let r = must_remake opts sys noexist t must f files in
      let kept = must_remake-IsGraph opts sys noexist t must f files h in
      if-both ConsideredKeeps r.0 (remake opts sys false f r.1) (some (leave_alone opts sys f r.1))
        (remake-keeps opts sys f r.1 kept) (leave_alone-keeps opts sys f r.1 kept)
