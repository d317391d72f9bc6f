-- ===== src/Remake/Walk/Ends.antt =====
-- The walk over the prerequisites ends.
use make.Remake.{UpdateStatus, us_success, Target, Files, entries, is_success, is_finished}
use make.Remake.Walk.{Pass, Reply, dies, replies, and_then, first_entry, worse, in_progress, Call}
use make.Remake.Walk.Calls.{each_entry, update_file, Visit, updates, updates_one, checks, walk}
use make.Remake.Walk.Graph.{IsGraph, change-IsGraph}
use make.Remake.Walk.Loops.{head, IsGraph-ext, Stays, Ends}
use make.Remake.Walk.Calling.{Keeps, update_file_1-Returns}
use make.Remake.Walk.Checking.{check_dep-Returns}
use make.Prelude.{
  ℕ, zero, suc, ◌+◌, ◌*◌, ◌≤◌, ◌<◌, ◌≡◌, ◌⊎◌, inl, inr, refl, sym, ◌∙◌, ap, subst, Bool, true,
  false, not, ◌&&◌, List, [], ◌∷◌, at, ◌==◌, if◌then◌else◌, if-both, Bool-cases, Returns, arith,
}

-- The number of files below `n` that are not marked as being updated.
abbrev pub free_files : ℕ → (ℕ → Bool) → ℕ
free_files zero b = 0
free_files (suc n) b = (if b n then 0 else 1) + free_files n b

free_files-ext : (n : ℕ) (b c : ℕ → Bool) → ((g : ℕ) → b g ≡ c g) → free_files n b ≡ free_files n c
free_files-ext zero b c e = refl
free_files-ext (suc n) b c e = rw (e n, free_files-ext n b c e) refl

free_files-above : (n h : ℕ) (b : ℕ → Bool) → n ≤ h → free_files n (at h true b) ≡ free_files n b
free_files-above zero h b le = refl
free_files-above (suc n) h b le =
    let other : (n == h) ≡ false = ground arith in
    rw (other, free_files-above n h b (omega arith)) refl

free_files-mark :
    (n h : ℕ) (b : ℕ → Bool) → h < n → b h ≡ false → free_files n (at h true b) + 1 ≡ free_files n b
free_files-mark zero h b lt e = absurd (omega arith)
free_files-mark (suc n) h b lt e = elim (Bool-cases (n == h)) [
  | inl it ↦
      let n=h : n ≡ h = ground arith in
      let was : b n ≡ false = ap b n=h ∙ e in
      rw (it, was, free_files-above n h b (omega arith)) (omega arith)
  | inr other ↦ let ih = free_files-mark n h b (ground arith) e in rw other (omega arith)
]

free_files_bound : (n : ℕ) (b : ℕ → Bool) → free_files n b ≤ n
free_files_bound zero b = omega arith
free_files_bound (suc n) b = let ih = free_files_bound n b in ground arith

module _ (n : ℕ) (dc : ℕ → List ℕ) where
  -- The files of the list are below `n`, and the first of their entries is `h`.
  abbrev pub AllShare : ℕ → List ℕ → Type 0
  AllShare h [] = Unit
  AllShare h (g ∷ gs) = (g < n) × (head n dc g ≡ h) × AllShare h gs

  -- The entries of a file below `n` are below `n`, and have the same first entry.
  pub record IsEntries : Type 0 where
    pub first : (f : ℕ) → f < n → head n dc f < n
    pub all : (f : ℕ) → f < n → AllShare (head n dc f) (entries f (dc f))

module _ (n : ℕ) (dc : ℕ → List ℕ) (p : Pass) (keeps : Keeps n dc p)
    (is_entries : IsEntries n dc) where
  -- The number of files that are free while `f` is being updated.
  abbrev left : (ℕ → Bool) → ℕ → ℕ
  left b f = free_files n (at (head n dc f) true b)

  -- What each function needs: a file that there is, and fuel; `check_dep` one that is not marked.
  abbrev Needs : ℕ → (ℕ → Bool) → Visit → Type 0
  Needs fuel b (updates f) = (f < n) × (3 * left b f + 2 < fuel)
  Needs fuel b (updates_one f) = (f < n) × (3 * left b f + 1 < fuel)
  Needs fuel b (checks this f) = (f < n) × (b (head n dc f) ≡ false) × (3 * left b f + 3 < fuel)

  abbrev Left : (ℕ → Bool) → Visit → Reply → Type 0
  Left b (updates f) = Ends n dc b (head n dc f)
  Left b (updates_one f) = Ends n dc b (head n dc f)
  Left b (checks this f) = Stays n dc b

  -- Taking the mark off changes nothing for the updating of the same file.
  on_off : (b : ℕ → Bool) (h g : ℕ) → at h true (at h false b) g ≡ at h true b g
  on_off b h g = elim (Bool-cases (g == h)) [ inl it ↦ rw it refl | inr other ↦ rw other refl ]

  off_off : (b : ℕ → Bool) (h g : ℕ) → at h false (at h false b) g ≡ at h false b g
  off_off b h g = elim (Bool-cases (g == h)) [ inl it ↦ rw it refl | inr other ↦ rw other refl ]

  on_on : (b : ℕ → Bool) (h g : ℕ) → at h true (at h true b) g ≡ at h true b g
  on_on b h g = elim (Bool-cases (g == h)) [ inl it ↦ rw it refl | inr other ↦ rw other refl ]

  Ends-off : (b : ℕ → Bool) (h : ℕ) (r : Reply) → Ends n dc (at h false b) h r → Ends n dc b h r
  Ends-off b h dies k = tt
  Ends-off b h (replies s m files) (inl k) = inr k
  Ends-off b h (replies s m files) (inr k) =
      inr (IsGraph-ext n dc (at h false (at h false b)) (at h false b) files (off_off b h) k)

  -- Calls for the entries of one file end, whether the mark is on or not.
  abbrev OneEnds : (ℕ → Bool) → ℕ → Call → Type 0
  OneEnds b h one =
      (g : ℕ) (files : Files)
      → g < n
      → head n dc g ≡ h
      → IsGraph n dc b files ⊎ IsGraph n dc (at h false b) files
      → Returns (one g false files) (Ends n dc b h)

  each_entry-Returns :
      (b : ℕ → Bool) (h : ℕ) (one : Call) (fs : List ℕ) (status : UpdateStatus) (files : Files)
      → OneEnds b h one
      → AllShare n dc h fs
      → IsGraph n dc b files ⊎ IsGraph n dc (at h false b) files
      → Returns (each_entry p one fs status files) (Ends n dc b h)
  unfolding each_entry and_then
  each_entry-Returns b h one [] status files ends share k = (replies status false files, refl, k)
  each_entry-Returns b h one (f ∷ fs) status files ends (lt, same, share) k =
      let x : Target = record (files f) { considered = p.considered } in
      let seen : Files = at f x files in
      let ready : IsGraph n dc b seen ⊎ IsGraph n dc (at h false b) seen = elim k [
        | inl on ↦ inl (change-IsGraph n dc b f x files refl refl refl refl on)
        | inr off ↦ inr (change-IsGraph n dc (at h false b) f x files refl refl refl refl off)
      ] in
      go (ends f seen lt same ready)
        (λ worst after kept. each_entry-Returns b h one fs worst after ends share kept)
    where
      go :
          Returns
            (one f false (at f (record (files f) { considered = p.considered }) files))
            (Ends n dc b h)
          → ((worst : UpdateStatus) (after : Files)
              → IsGraph n dc b after ⊎ IsGraph n dc (at h false b) after
              → Returns (each_entry p one fs worst after) (Ends n dc b h))
          → Returns (each_entry p one (f ∷ fs) status files) (Ends n dc b h)
      go (dies, e, _) again = (dies, rw (e, each_entry) refl, tt)
      go (replies new m after, e, kept) again =
          rw (e, each_entry)
            (if-both (λ o. Returns o (Ends n dc b h))
              (not (is_success new) && not p.opts.keep_going_flag) _ _
              (replies new false after, refl, kept)
              (if-both (λ o. Returns o (Ends n dc b h)) (in_progress (after f).command_state) _ _
                (replies us_success false after, refl, kept) (again (worse new status) after kept)))

  update_file-Returns :
      (b : ℕ → Bool) (one : Call) (f : ℕ) (files : Files)
      → f < n
      → OneEnds b (head n dc f) one
      → IsGraph n dc b files
      → Returns (update_file p one f files) (Ends n dc b (head n dc f))
  unfolding update_file
  update_file-Returns b one f files lt ends h =
      let chain : AllShare n dc (head n dc f) (entries f (files f).double_colon) =
        subst (λ l. AllShare n dc (head n dc f) (entries f l)) (sym (h f).entries)
          (is_entries.all f lt) in
      let start = files (first_entry f files) in
      if-both (λ o. Returns o (Ends n dc b (head n dc f))) (start.considered == p.considered) _ _
        (
          replies (if is_finished start.command_state then start.update_status else us_success)
              false files,
          refl,
          inl h,
        )
        (each_entry-Returns b (head n dc f) one (entries f (files f).double_colon) us_success files
          ends chain (inl h))

  walk-Returns :
      (fuel : ℕ) (v : Visit) (b : ℕ → Bool) (must : Bool) (files : Files)
      → Needs fuel b v
      → IsGraph n dc b files
      → Returns (walk p fuel v must files) (Left b v)
  unfolding walk
  walk-Returns zero (updates f) b must files need h = absurd (let less = need.1 in omega arith)
  walk-Returns zero (updates_one f) b must files need h = absurd (let less = need.1 in omega arith)
  walk-Returns zero (checks this f) b must files need h = absurd (let less = need.2 in omega arith)
  walk-Returns (suc fuel) (updates f) b must files (lt, enough) h =
      let top = head n dc f in
      update_file-Returns b (λ g. walk p fuel (updates_one g)) f files lt
        (λ g files g<n same k. elim k [
          | inl on ↦
              let need : 3 * left b g + 1 < fuel = rw same (omega arith) in
              subst (λ i. Returns (walk p fuel (updates_one g) false files) (Ends n dc b i)) same
                (walk-Returns fuel (updates_one g) b false files (g<n, need) on)
          | inr off ↦
              let fewer : left (at top false b) g ≡ left b f =
                ap (λ i. free_files n (at i true (at top false b))) same
                ∙ free_files-ext n (at top true (at top false b)) (at top true b) (on_off b top) in
              let need : 3 * left (at top false b) g + 1 < fuel = omega arith in
              let (r, e, kept) =
                walk-Returns fuel (updates_one g) (at top false b) false files (g<n, need) off in
              (r, e, Ends-off b top r (subst (λ i. Ends n dc (at top false b) i r) same kept))
        ])
        h
  walk-Returns (suc fuel) (updates_one f) b must files (lt, enough) h =
      let on : ℕ → Bool = at (head n dc f) true b in
      update_file_1-Returns n dc p keeps b (λ this g. walk p fuel (checks this g))
        (λ g. walk p fuel (updates g)) f files
        (λ this g must files g<n free k.
          let fewer = free_files-mark n (head n dc g) on (is_entries.first g g<n) free in
          walk-Returns fuel (checks this g) on must files (g<n, free, omega arith) k)
        h
  walk-Returns (suc fuel) (checks this f) b must files (lt, free, enough) h =
      let top = head n dc f in
      let on : ℕ → Bool = at top true b in
      check_dep-Returns n dc p b (λ g. walk p fuel (updates g)) (λ g. walk p fuel (checks this g))
        this f must files free h
        (λ must started k.
          let fewer : left on f ≡ left b f =
            free_files-ext n (at top true on) on (λ g. on_on b top g) in
          walk-Returns fuel (updates f) on must started (lt, omega arith) k)

  -- The walk from `update_file` ends, whatever circles the prerequisites make. There are `n` files,
  -- whose prerequisites and entries are among them, none of them is intermediate, and neither the
  -- search for an implicit rule nor the start of a recipe changes that or the marks of the files
  -- being updated. Then fuel of more than 3 n + 2 is enough for a status or the end of make, and in
  -- the first case no mark is set that was not set before, and none is taken off but that of the
  -- file.
  pub walk-Ends :
      (fuel f : ℕ) (b : ℕ → Bool) (must : Bool) (files : Files)
      → f < n
      → 3 * n + 2 < fuel
      → IsGraph n dc b files
      → Returns (walk p fuel (updates f) must files) (Ends n dc b (head n dc f))
  walk-Ends fuel f b must files lt enough h =
      let most = free_files_bound n (at (head n dc f) true b) in
      walk-Returns fuel (updates f) b must files (lt, omega arith) h
