-- ===== src/Remake/Entries.antt =====
-- The entries of a double-colon file come to have one modification time.
use make.Remake.{Files, unknown_mtime, is_among}
use make.Remake.Finish.{later, max_of, give_times, propagate_mtime}
use make.Prelude.{
  ℕ, ◌≡◌, ◌⊎◌, inl, inr, refl, ◌∙◌, Bool, true, false, not, ◌&&◌, ◌||◌, some, List, [], ◌∷◌, at,
  at-other, ◌==◌, leb, Bool-cases, arith,
}

-- The time `t` is not before `u`; a time that is not known is after any other.
abbrev pub covers : ℕ → ℕ → Bool
covers t u = (t == unknown_mtime) || (not (u == unknown_mtime) && leb u t)

covers_refl : (t : ℕ) → covers t t ≡ true
covers_refl t = ground arith

covers_trans : (t u v : ℕ) → covers t u ≡ true → covers u v ≡ true → covers t v ≡ true
covers_trans t u v h k = ground arith

later-left : (t m : ℕ) → covers (later t m) t ≡ true
later-left t m = ground arith

later-right : (t m : ℕ) → covers (later t m) m ≡ true
later-right t m = ground arith

later-or : (t m : ℕ) → (later t m ≡ t) ⊎ (later t m ≡ m)
later-or t m = ground arith

abbrev pub AllUpdated : Files → List ℕ → Type 0
AllUpdated files fs = (g : ℕ) → is_among g fs ≡ true → (files g).updated ≡ true

-- The latest of the time `m` and the times of the files of the list.
pub record IsLatest (t m : ℕ) (fs : List ℕ) (files : Files) : Type 0 where
  pub start : covers t m ≡ true
  pub all : (g : ℕ) → is_among g fs ≡ true → covers t (files g).last_mtime ≡ true
  pub reached : (t ≡ m) ⊎ ((g : ℕ) × (is_among g fs ≡ true) × (t ≡ (files g).last_mtime))

max_of-IsLatest :
    (m : ℕ) (fs : List ℕ) (files : Files)
    → AllUpdated files fs
    → (t : ℕ) × (max_of m fs files ≡ some t) × IsLatest t m fs files
unfolding max_of
max_of-IsLatest m [] files up =
    (m, refl, record { start = covers_refl m; all = λ g e. absurd cc; reached = inl refl })
max_of-IsLatest m (f ∷ fs) files up =
    let time = (files f).last_mtime in
    let (t, e, h) = max_of-IsLatest (later time m) fs files (λ g k. up g (ground arith)) in
    let here : covers t time ≡ true =
      covers_trans t (later time m) time h.start (later-left time m) in
    (
      t,
      rw (up f (ground arith)) e,
      record {
        start = covers_trans t (later time m) m h.start (later-right time m);
        all = λ g k. elim (Bool-cases (g == f)) [
          | inl it ↦ let g=f : g ≡ f = ground arith in rw g=f here
          | inr other ↦ h.all g (ground arith)
        ];
        reached = elim h.reached [
          | inl own ↦ elim (later-or time m) [
            | inl now ↦ inr (f, ground arith, own ∙ now)
            | inr before ↦ inl (own ∙ before)
          ]
          | inr (g, k, at_g) ↦ inr (g, ground arith, at_g)
        ];
      },
    )

give_times-among :
    (t : ℕ) (fs : List ℕ) (files : Files) (g : ℕ)
    → ((files g).last_mtime ≡ t) ⊎ (is_among g fs ≡ true)
    → (give_times t fs files g).last_mtime ≡ t
unfolding give_times
give_times-among t [] files g (inl e) = e
give_times-among t [] files g (inr k) = absurd cc
give_times-among t (f ∷ fs) files g h =
    let next : Files = at f (record (files f) { last_mtime = t }) files in
    elim (Bool-cases (g == f)) [
      | inl it ↦ give_times-among t fs next g (inl (rw it refl))
      | inr other ↦ elim h [
        | inl e ↦ give_times-among t fs next g (inl (rw other e))
        | inr k ↦ give_times-among t fs next g (inr (ground arith))
      ]
    ]

give_times-other :
    (t : ℕ) (fs : List ℕ) (files : Files) (g : ℕ)
    → is_among g fs ≡ false
    → give_times t fs files g ≡ files g
unfolding give_times
give_times-other t [] files g h = refl
give_times-other t (f ∷ fs) files g h =
    give_times-other t fs (at f (record (files f) { last_mtime = t }) files) g (ground arith)
    ∙ at-other f g (record (files f) { last_mtime = t }) files (ground arith)

-- When all the entries of a double-colon file have been updated, all of them get one modification
-- time: it is the time of the entry just finished or of one of the others, and no time among these
-- is after it, one that is not known counting as the latest. No other file is changed.
pub propagate_mtime-IsLatest :
    (file : ℕ) (files : Files)
    → AllUpdated files (files file).double_colon
    → (t : ℕ) × IsLatest t (files file).last_mtime (files file).double_colon files
      × ((g : ℕ)
          → is_among g (files file).double_colon ≡ true
          → (propagate_mtime file files g).last_mtime ≡ t)
      × ((g : ℕ)
          → is_among g (files file).double_colon ≡ false
          → propagate_mtime file files g ≡ files g)
unfolding propagate_mtime
propagate_mtime-IsLatest file files up =
    let f = files file in
    let (t, e, h) = max_of-IsLatest f.last_mtime f.double_colon files up in
    let is : propagate_mtime file files ≡ give_times t f.double_colon files =
      rw (e, propagate_mtime) refl in
    (
      t,
      h,
      λ g k. rw is (give_times-among t f.double_colon files g (inr k)),
      λ g k. rw is (give_times-other t f.double_colon files g k),
    )
