-- ===== src/Remake/Walk/Graph.antt =====
-- What the update leaves as it is: the marks of the files being updated, the entries of the files,
-- and the set of files that the prerequisites are in.
use make.Remake.{
  CmdState, Prereq, Target, Files, store_mtime, store_mtimes, f_mtime, file_mtime, raise_state,
  raise_states, set_command_state, entries, head_entry,
}
use make.Prelude.{
  ℕ, ◌<◌, ◌≡◌, inl, inr, refl, sym, ◌∙◌, subst, Bool, false, List, [], ◌∷◌, ◌++◌, at, ◌==◌, if-both,
  Bool-cases, arith,
}

-- Every prerequisite is one of the files below `n`.
abbrev pub AllBelow : ℕ → List Prereq → Type 0
AllBelow n [] = Unit
AllBelow n (d ∷ ds) = (d.file < n) × AllBelow n ds

pub AllBelow-append :
    (n : ℕ) (ds es : List Prereq) → AllBelow n ds → AllBelow n es → AllBelow n (ds ++ es)
AllBelow-append n [] es h k = k
AllBelow-append n (d ∷ ds) es (h, hs) k = (h, AllBelow-append n ds es hs k)

module _ (n : ℕ) (dc : ℕ → List ℕ) where
  -- The file `g` is marked as being updated just if `b g`, has the entries `dc g`, is not
  -- intermediate and has its prerequisites below `n`.
  pub record IsNode (b : ℕ → Bool) (g : ℕ) (x : Target) : Type 0 where
    pub marked : x.updating ≡ b g
    pub entries : x.double_colon ≡ dc g
    pub kept : x.intermediate ≡ false
    pub below : AllBelow n x.deps

  abbrev pub IsGraph : (ℕ → Bool) → Files → Type 0
  IsGraph b files = (g : ℕ) → IsNode b g (files g)

  module _ (b : ℕ → Bool) where
    pub at-IsGraph :
        (d : ℕ) (x : Target) (files : Files)
        → IsNode b d x
        → IsGraph b files
        → IsGraph b (at d x files)
    at-IsGraph d x files own h g = elim (Bool-cases (g == d)) [
      | inl it ↦ let e : g ≡ d = ground arith in rw it (subst (λ k. IsNode b k x) (sym e) own)
      | inr other ↦ rw other (h g)
    ]

    -- Another record with the same four fields.
    same-IsNode :
        (g : ℕ) (x y : Target)
        → y.updating ≡ x.updating
        → y.double_colon ≡ x.double_colon
        → y.intermediate ≡ x.intermediate
        → y.deps ≡ x.deps
        → IsNode b g x
        → IsNode b g y
    same-IsNode g x y u e i d h = record {
      marked = u ∙ h.marked;
      entries = e ∙ h.entries;
      kept = i ∙ h.kept;
      below = subst (AllBelow n) (sym d) h.below;
    }

    store_mtime-IsNode :
        (t : ℕ) (p : Bool) (g : ℕ) (x : Target) → IsNode b g x → IsNode b g (store_mtime t p x)
    store_mtime-IsNode t p g x h =
        let kept = h.kept in
        same-IsNode g x (store_mtime t p x) (ground arith) (ground arith) (ground arith)
          (ground arith) h

    store_mtimes-IsGraph :
        (t : ℕ) (p : Bool) (fs : List ℕ) (files : Files)
        → IsGraph b files
        → IsGraph b (store_mtimes t p fs files)
    unfolding store_mtimes
    store_mtimes-IsGraph t p [] files h = h
    store_mtimes-IsGraph t p (f ∷ fs) files h =
        store_mtimes-IsGraph t p fs (at f (store_mtime t p (files f)) files) (
          at-IsGraph f (store_mtime t p (files f)) files (store_mtime-IsNode t p f (files f) (h f))
            h)

    pub f_mtime-IsGraph :
        (name_mtime : ℕ → ℕ) (f : ℕ) (files : Files)
        → IsGraph b files
        → IsGraph b (f_mtime name_mtime f files)
    unfolding f_mtime
    f_mtime-IsGraph name_mtime f files h =
        store_mtimes-IsGraph (name_mtime f) (files (head_entry f (files f).double_colon)).updated
          (entries f (files f).double_colon) files h

    pub file_mtime-IsGraph :
        (name_mtime : ℕ → ℕ) (f : ℕ) (files : Files)
        → IsGraph b files
        → IsGraph b (file_mtime name_mtime f files).1
    unfolding file_mtime
    file_mtime-IsGraph name_mtime f files h =
        if-both (λ (r : ℕ × Files). IsGraph b r.1) ((files f).last_mtime == 0)
          (name_mtime f, f_mtime name_mtime f files) ((files f).last_mtime, files)
          (f_mtime-IsGraph name_mtime f files h) h

    raise_states-IsGraph :
        (s : CmdState) (ds : List ℕ) (files : Files)
        → IsGraph b files
        → IsGraph b (raise_states s ds files)
    unfolding raise_states
    raise_states-IsGraph s [] files h = h
    raise_states-IsGraph s (d ∷ ds) files h =
        raise_states-IsGraph s ds (at d (raise_state s (files d)) files) (
          at-IsGraph d (raise_state s (files d)) files
            (same-IsNode d (files d) (raise_state s (files d)) (ground arith) (ground arith)
              (ground arith) (ground arith) (h d))
            h)

    -- A change of the record of one file that leaves the four fields.
    pub change-IsGraph :
        (f : ℕ) (y : Target) (files : Files)
        → y.updating ≡ (files f).updating
        → y.double_colon ≡ (files f).double_colon
        → y.intermediate ≡ (files f).intermediate
        → y.deps ≡ (files f).deps
        → IsGraph b files
        → IsGraph b (at f y files)
    change-IsGraph f y files u e i d h =
        at-IsGraph f y files (same-IsNode f (files f) y u e i d (h f)) h

    pub set_command_state-IsGraph :
        (f : ℕ) (s : CmdState) (files : Files)
        → IsGraph b files
        → IsGraph b (set_command_state f s files)
    unfolding set_command_state
    set_command_state-IsGraph f s files h =
        raise_states-IsGraph s (files f).also_make
          (at f (record (files f) { command_state = s }) files)
          (change-IsGraph f (record (files f) { command_state = s }) files refl refl refl refl h)
