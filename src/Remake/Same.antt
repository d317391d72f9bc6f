-- ===== src/Remake/Same.antt =====
-- What stores and spreads times leaves the states of the files.
use make.Remake.{Target, Files, store_mtime, store_mtimes, f_mtime, entries, head_entry}
use make.Remake.Finish.{give_times, max_of, propagate_mtime}
use make.Prelude.{
  ℕ, ◌≡◌, inl, inr, refl, ◌∙◌, Bool, List, [], ◌∷◌, at, ◌==◌, Bool-cases, Option-cases, arith,
}

-- Every file keeps its state and its status; the other fields may change.
abbrev pub SameState : Target → Target → Type 0
SameState f g =
    (f.command_state ≡ g.command_state)
    × (f.updated ≡ g.updated)
    × (f.update_status ≡ g.update_status)
    × (f.also_make ≡ g.also_make)

store_mtime-SameState : (t : ℕ) (p : Bool) (f : Target) → SameState (store_mtime t p f) f
store_mtime-SameState t p f = ground arith

SameState-trans : (f g h : Target) → SameState f g → SameState g h → SameState f h
SameState-trans f g h (a, b, c, d) (a', b', c', d') = (a ∙ a', b ∙ b', c ∙ c', d ∙ d')

at-SameState :
    (d : ℕ) (x : Target) (files : Files)
    → SameState x (files d)
    → (g : ℕ) → SameState (at d x files g) (files g)
at-SameState d x files h g = elim (Bool-cases (g == d)) [
  | inl same ↦ let e : g ≡ d = ground arith in rw (same, e) h
  | inr other ↦ rw other (refl, refl, refl, refl)
]

store_mtimes-SameState :
    (t : ℕ) (p : Bool) (fs : List ℕ) (files : Files) (g : ℕ)
    → SameState (store_mtimes t p fs files g) (files g)
unfolding store_mtimes
store_mtimes-SameState t p [] files g = (refl, refl, refl, refl)
store_mtimes-SameState t p (f ∷ fs) files g =
    let next : Files = at f (store_mtime t p (files f)) files in
    SameState-trans (store_mtimes t p fs next g) (next g) (files g)
      (store_mtimes-SameState t p fs next g)
      (at-SameState f (store_mtime t p (files f)) files (store_mtime-SameState t p (files f)) g)

pub f_mtime-SameState :
    (name_mtime : ℕ → ℕ) (file : ℕ) (files : Files) (g : ℕ)
    → SameState (f_mtime name_mtime file files g) (files g)
unfolding f_mtime
f_mtime-SameState name_mtime file files g =
    store_mtimes-SameState (name_mtime file)
      (files (head_entry file (files file).double_colon)).updated
      (entries file (files file).double_colon) files g

give_times-SameState :
    (t : ℕ) (fs : List ℕ) (files : Files) (g : ℕ) → SameState (give_times t fs files g) (files g)
unfolding give_times
give_times-SameState t [] files g = (refl, refl, refl, refl)
give_times-SameState t (f ∷ fs) files g =
    let next : Files = at f (record (files f) { last_mtime = t }) files in
    SameState-trans (give_times t fs next g) (next g) (files g) (give_times-SameState t fs next g)
      (at-SameState f (record (files f) { last_mtime = t }) files (refl, refl, refl, refl) g)

pub propagate_mtime-SameState :
    (file : ℕ) (files : Files) (g : ℕ) → SameState (propagate_mtime file files g) (files g)
unfolding propagate_mtime
propagate_mtime-SameState file files g =
    elim (Option-cases (max_of (files file).last_mtime (files file).double_colon files)) [
      | inl e ↦ rw (e, propagate_mtime) (refl, refl, refl, refl)
      | inr (t, e) ↦
          rw (e, propagate_mtime) (give_times-SameState t (files file).double_colon files g)
    ]
