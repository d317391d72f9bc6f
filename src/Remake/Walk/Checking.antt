-- ===== src/Remake/Walk/Checking.antt =====
-- `check_dep` ends, where the call of `update_file` that it makes ends.
use make.Remake.{Files, file_mtime, nonexistent_mtime}
use make.Remake.Walk.{Pass, Reply, dies, replies, and_then, mark_updating, Call}
use make.Remake.Walk.Calls.{check_dep}
use make.Remake.Walk.Graph.{IsGraph, file_mtime-IsGraph}
use make.Remake.Walk.Loops.{head, IsGraph-ext, mark_updating-IsGraph, Stays, Ends}
use make.Prelude.{
  ℕ, ◌≡◌, ◌⊎◌, inl, inr, refl, sym, ◌∙◌, ap, Bool, true, false, not, ◌||◌, Option, some, List, at,
  ◌==◌, ltb, Bool-cases, Returns, arith,
}

module _ (n : ℕ) (dc : ℕ → List ℕ) (p : Pass) where
  -- A mark that was not there before is taken off again.
  off_again :
      (b c : ℕ → Bool) (h g : ℕ)
      → b h ≡ false
      → (((g == h) ≡ false) → c g ≡ b g)
      → at h false c g ≡ b g
  off_again b c h g free e = elim (Bool-cases (g == h)) [
    | inl it ↦ let g=h : g ≡ h = ground arith in rw it (sym (ap b g=h ∙ free))
    | inr other ↦ rw other (e other)
  ]

  taken_off :
      (b : ℕ → Bool) (f : ℕ) (files : Files)
      → b (head n dc f) ≡ false
      → IsGraph n dc (at (head n dc f) true b) files
        ⊎ IsGraph n dc (at (head n dc f) false (at (head n dc f) true b)) files
      → let r = file_mtime p.sys.name_mtime f files in IsGraph n dc b (mark_updating false f r.1)
  taken_off b f files free (inl k) =
      let h = head n dc f in
      let on : ℕ → Bool = at h true b in
      let r = file_mtime p.sys.name_mtime f files in
      IsGraph-ext n dc (at h false on) b (mark_updating false f r.1)
        (λ g. off_again b on h g free (λ other. rw other refl))
        (mark_updating-IsGraph n dc on false f r.1
          (file_mtime-IsGraph n dc on p.sys.name_mtime f files k))
  taken_off b f files free (inr k) =
      let h = head n dc f in
      let off : ℕ → Bool = at h false (at h true b) in
      let r = file_mtime p.sys.name_mtime f files in
      IsGraph-ext n dc (at h false off) b (mark_updating false f r.1)
        (λ g. off_again b off h g free (λ other. rw other refl))
        (mark_updating-IsGraph n dc off false f r.1
          (file_mtime-IsGraph n dc off p.sys.name_mtime f files k))

  after_update-Returns :
      (b : ℕ → Bool) (f : ℕ) (must : ℕ → Bool) (o : Option Reply)
      → b (head n dc f) ≡ false
      → Returns o (Ends n dc (at (head n dc f) true b) (head n dc f))
      → Returns
          (and_then o (λ status _ after.
            let (time, timed) = file_mtime p.sys.name_mtime f after in
            some (replies status (must time) (mark_updating false f timed))))
          (Stays n dc b)
  unfolding and_then
  after_update-Returns b f must o free (dies, e, k) = (dies, rw e refl, tt)
  after_update-Returns b f must o free (replies s m files, e, k) =
      let r = file_mtime p.sys.name_mtime f files in
      (replies s (must r.0) (mark_updating false f r.1), rw e refl, taken_off b f files free k)

  -- `check_dep` ends where `update_file` does.
  pub check_dep-Returns :
      (b : ℕ → Bool) (update check : Call) (this_mtime f : ℕ) (must_make : Bool) (files : Files)
      → b (head n dc f) ≡ false
      → IsGraph n dc b files
      → ((must : Bool) (started : Files)
          → IsGraph n dc (at (head n dc f) true b) started
          → Returns (update f must started) (Ends n dc (at (head n dc f) true b) (head n dc f)))
      → Returns (check_dep p update check this_mtime f must_make files) (Stays n dc b)
  unfolding check_dep
  check_dep-Returns b update check this_mtime f must_make files free h ends =
      let on : ℕ → Bool = at (head n dc f) true b in
      let started = mark_updating true f files in
      let marked : IsGraph n dc on started = mark_updating-IsGraph n dc b true f files h in
      let first : ((files f).phony || not (files f).intermediate) ≡ true =
        let kept = (h f).kept in ground arith in
      rw first (
        after_update-Returns b f
          (λ time. must_make || time == nonexistent_mtime || ltb this_mtime time)
          (update f must_make started) free (ends must_make started marked))
