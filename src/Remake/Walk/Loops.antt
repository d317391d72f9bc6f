-- ===== src/Remake/Walk/Loops.antt =====
-- The loops of the walk end, where the calls that they make end.
use make.Remake.{UpdateStatus, Prereq, Files, head_entry, entries, is_success, has_cmds}
use make.Remake.Walk.{
  Pass, Reply, dies, replies, and_then, first_entry, is_updating, mark_updating, worse,
  any_in_progress, Loop, set_deps, Call, Rest, after_dep,
}
use make.Remake.Walk.Graph.{AllBelow, AllBelow-append, IsGraph, at-IsGraph, file_mtime-IsGraph}
use make.Prelude.{
  ℕ, ◌<◌, ◌≡◌, ◌⊎◌, inl, inr, refl, sym, ◌∙◌, ap, Bool, true, false, not, ◌&&◌, ◌||◌, Option, List,
  ◌∷◌, ◌++◌, at, ◌==◌, if-both, Bool-cases, Returns, arith,
}

module _ (n : ℕ) (dc : ℕ → List ℕ) where
  abbrev pub head : ℕ → ℕ
  head f = head_entry f (dc f)

  pub IsGraph-ext :
      (b c : ℕ → Bool) (files : Files)
      → ((g : ℕ) → b g ≡ c g)
      → IsGraph n dc b files
      → IsGraph n dc c files
  IsGraph-ext b c files e h g = record {
    marked = (h g).marked ∙ e g;
    entries = (h g).entries;
    kept = (h g).kept;
    below = (h g).below;
  }

  pub first_entry-head :
      (b : ℕ → Bool) (f : ℕ) (files : Files) → IsGraph n dc b files → first_entry f files ≡ head f
  first_entry-head b f files h = ap (head_entry f) (h f).entries

  pub mark_updating-IsGraph :
      (b : ℕ → Bool) (v : Bool) (f : ℕ) (files : Files)
      → IsGraph n dc b files
      → IsGraph n dc (at (head f) v b) (mark_updating v f files)
  unfolding mark_updating
  mark_updating-IsGraph b v f files h g =
      let first = first_entry f files in
      let e : first ≡ head f = first_entry-head b f files h in
      elim (Bool-cases (g == first)) [
        | inl it ↦
            let g=first : g ≡ first = ground arith in
            let here : (g == head f) ≡ true = ground arith in
            rw it (record {
              marked = rw here refl;
              entries = (h first).entries ∙ ap dc (sym g=first);
              kept = (h first).kept;
              below = (h first).below;
            })
        | inr other ↦
            let there : (g == head f) ≡ false = ground arith in
            rw other (record {
              marked = rw there (h g).marked;
              entries = (h g).entries;
              kept = (h g).kept;
              below = (h g).below;
            })
      ]

  -- A call has ended with the marks as they are.
  abbrev pub Stays : (ℕ → Bool) → Reply → Type 0
  Stays b dies = Unit
  Stays b (replies status must files) = IsGraph n dc b files

  -- A call has ended with the marks as they are, or with that of `h` taken off.
  abbrev pub Ends : (ℕ → Bool) → ℕ → Reply → Type 0
  Ends b h dies = Unit
  Ends b h (replies status must files) = IsGraph n dc b files ⊎ IsGraph n dc (at h false b) files

  -- A call for a file that is not being updated ends.
  abbrev pub CallEnds : (ℕ → Bool) → Call → Type 0
  CallEnds b call =
      (f : ℕ) (must : Bool) (files : Files)
      → f < n
      → b (head f) ≡ false
      → IsGraph n dc b files
      → Returns (call f must files) (Stays b)

  pub is_updating-marked :
      (b : ℕ → Bool) (f : ℕ) (files : Files)
      → IsGraph n dc b files
      → is_updating f files ≡ false
      → b (head f) ≡ false
  is_updating-marked b f files h e =
      ap b (sym (first_entry-head b f files h)) ∙ sym (h (first_entry f files)).marked ∙ e

  module _ (b : ℕ → Bool) (Q : Reply → Type 0) (died : Q dies) where
    abbrev pub RestEnds : Rest → Type 0
    RestEnds rest = (l : Loop) → IsGraph n dc b l.files → Returns (rest l) Q

    pub and_then-Returns :
        (o : Option Reply) (next : UpdateStatus → Bool → Files → Option Reply)
        → Returns o (Stays b)
        → ((s : UpdateStatus) (m : Bool) (files : Files)
            → IsGraph n dc b files
            → Returns (next s m files) Q)
        → Returns (and_then o next) Q
    unfolding and_then
    and_then-Returns o next (dies, e, _) k = (dies, rw e refl, died)
    and_then-Returns o next (replies s m files, e, h) k = rw e (k s m files h)

    pub set_deps-IsGraph :
        (f : ℕ) (ds : List Prereq) (files : Files)
        → AllBelow n ds
        → IsGraph n dc b files
        → IsGraph n dc b (set_deps f ds files)
    set_deps-IsGraph f ds files own h =
        at-IsGraph n dc b f (record (files f) { deps = ds }) files
          (record {
            marked = (h f).marked;
            entries = (h f).entries;
            kept = (h f).kept;
            below = own;
          })
          h

    pub after_dep-Returns :
        (p : Pass) (file : ℕ) (kept : List Prereq) (d : Prereq) (ds : List Prereq) (mtime : ℕ)
        (by_time : Bool) (leave : Rest) (goes_on : Prereq → Rest) (l : Loop)
        → AllBelow n kept
        → d.file < n
        → AllBelow n ds
        → RestEnds leave
        → ((d' : Prereq) → d'.file < n → RestEnds (goes_on d'))
        → (s : UpdateStatus) (m : Bool) (files : Files) → IsGraph n dc b files
        → Returns (after_dep p file kept d ds mtime by_time leave goes_on l s m files) Q
    unfolding after_dep
    after_dep-Returns p file kept d ds mtime by_time leave goes_on l k lt own leaves goes s m files
          h =
        if-both (λ o. Returns o Q)
          (not (is_success (worse s l.dep_status)) && not p.opts.keep_going_flag) _ _ (leaves _ h)
          (if-both (λ o. Returns o Q)
            (l.running || any_in_progress (entries d.file (files d.file).double_colon) files) _ _
            (goes d lt _ h)
            (goes _ lt _ (
              set_deps-IsGraph file (kept ++ (_ ∷ ds)) _
                (AllBelow-append n kept (_ ∷ ds) k (lt, own))
                (if-both (IsGraph n dc b)
                  (not by_time && (files file).phony && has_cmds (files file)) files _ h
                  (file_mtime-IsGraph n dc b p.sys.name_mtime d.file files h)))))
