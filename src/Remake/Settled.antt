-- ===== src/Remake/Settled.antt =====
-- What `notice_finished_file` and `remake_file` settle.
use make.Remake.{
  UpdateStatus, us_success, us_failed, cs_finished, Target, Files, Options, is_running, is_us_none,
  f_mtime, is_among,
}
use make.Remake.Finish.{
  System, touch_file, finish_entry, propagate_mtime, finish_status, settle, finish_peer,
  finish_peers, notice_finished_file, is_touched,
}
use make.Remake.Same.{SameState, f_mtime-SameState, propagate_mtime-SameState}
use make.Prelude.{
  ℕ, ◌≡◌, ◌⊎◌, inl, inr, refl, ◌∙◌, ap, subst, Bool, true, false, List, [], ◌∷◌, at, at-here, ◌==◌,
  ==_refl, if◌then◌else◌, if-both, Bool-cases, arith,
}

-- The update of the file is over, and its status tells how it went.
pub record IsSettled (f : Target) : Type 0 where
  pub finished : f.command_state ≡ cs_finished
  pub updated : f.updated ≡ true
  pub told : is_us_none f.update_status ≡ false

-- The files that are settled stay so.
abbrev pub KeepsSettled : Files → Files → Type 0
KeepsSettled a b = (g : ℕ) → IsSettled (a g) → IsSettled (b g)

SameState-IsSettled : (f g : Target) → SameState f g → IsSettled g → IsSettled f
SameState-IsSettled f g (a, b, c, d) h = record {
  finished = a ∙ h.finished;
  updated = b ∙ h.updated;
  told = ap is_us_none c ∙ h.told;
}

at-KeepsSettled :
    (d : ℕ) (x : Target) (files : Files) → IsSettled x → KeepsSettled files (at d x files)
at-KeepsSettled d x files h g s = elim (Bool-cases (g == d)) [
  | inl same ↦ rw same h
  | inr other ↦ rw other s
]

module _ (P : Target → Type 0) (same : (f g : Target) → SameState f g → P g → P f)
    (status : UpdateStatus) (done : (f : Target) → P (settle status f)) (sys : System) where
  -- One round of the loop over `also_make`.
  finish_peer-keeps :
      (d : ℕ) (files : Files) (g : ℕ) → P (files g) ⊎ (g ≡ d) → P (finish_peer sys status d files g)
  unfolding finish_peer
  finish_peer-keeps d files g h =
      let first : P (at d (settle status (files d)) files g) = elim (Bool-cases (g == d)) [
        | inl here ↦ rw here (done (files d))
        | inr other ↦ elim h [ inl p ↦ rw other p | inr here ↦ absurd (ground arith) ]
      ] in
      if-both (λ (fs : Files). P (fs g)) (files d).phony (at d (settle status (files d)) files)
        (f_mtime sys.name_mtime d (at d (settle status (files d)) files)) first
        (same (f_mtime sys.name_mtime d (at d (settle status (files d)) files) g)
          (at d (settle status (files d)) files g)
          (f_mtime-SameState sys.name_mtime d (at d (settle status (files d)) files) g) first)

  pub finish_peers-keeps :
      (ds : List ℕ) (files : Files) (g : ℕ)
      → P (files g) ⊎ (is_among g ds ≡ true)
      → P (finish_peers sys status ds files g)
  unfolding finish_peers
  finish_peers-keeps [] files g (inl p) = p
  finish_peers-keeps [] files g (inr e) = absurd cc
  finish_peers-keeps (d ∷ ds) files g h =
      let now = finish_peer-keeps d files g in
      elim (Bool-cases (g == d)) [
        | inl here ↦
            finish_peers-keeps ds (finish_peer sys status d files) g
              (inl (now (inr (ground arith))))
        | inr other ↦ elim h [
          | inl p ↦ finish_peers-keeps ds (finish_peer sys status d files) g (inl (now (inl p)))
          | inr e ↦ finish_peers-keeps ds (finish_peer sys status d files) g (inr (ground arith))
        ]
      ]

-- A file that is not told to be left alone is not told so after the touching.
finish_entry-told :
    (opts : Options) (sys : System) (file : ℕ) (f : Target)
    → is_us_none f.update_status ≡ false
    → is_us_none (finish_entry opts sys file f).update_status ≡ false
unfolding finish_entry touch_file
finish_entry-told opts sys file f h =
    if-both (λ s. is_us_none s ≡ false) (is_touched opts f)
      (if opts.just_print_flag
        then us_success
        else if sys.touches file
        then us_success
        else us_failed)
      f.update_status
      (if-both (λ s. is_us_none s ≡ false) opts.just_print_flag us_success
        (if sys.touches file then us_success else us_failed) refl
        (if-both (λ s. is_us_none s ≡ false) (sys.touches file) us_success us_failed refl refl))
      h

-- A file of the list is settled with the status.
abbrev pub SettledAs : UpdateStatus → Target → Type 0
SettledAs status f = IsSettled f × (f.update_status ≡ status)

settle-IsSettled :
    (status : UpdateStatus) (f : Target) → is_us_none status ≡ false → IsSettled (settle status f)
settle-IsSettled status f h = record { finished = refl; updated = refl; told = h }

settle-SettledAs :
    (status : UpdateStatus)
    → is_us_none status ≡ false
    → (f : Target) → SettledAs status (settle status f)
settle-SettledAs status h f = (settle-IsSettled status f h, refl)

SameState-SettledAs :
    (status : UpdateStatus) (f g : Target) → SameState f g → SettledAs status g → SettledAs status f
SameState-SettledAs status f g (a, b, c, d) (h, e) = (SameState-IsSettled f g (a, b, c, d) h, c ∙ e)

-- What the last part does, from the state in which the file is marked finished and updated.
finish_status-IsSettled :
    (sys : System) (ran : Bool) (file : ℕ) (files : Files)
    → (files file).command_state ≡ cs_finished
    → (files file).updated ≡ true
    → let after = finish_status sys ran file files in
      IsSettled (after file)
      × KeepsSettled files after
      × (ran ≡ true
          → is_us_none (files file).update_status ≡ false
          → (d : ℕ) → is_among d (files file).also_make ≡ true
          → SettledAs (after file).update_status (after d))
unfolding finish_status
finish_status-IsSettled sys true file files done up =
    let f = files file in
    let status = f.update_status in
    elim (Bool-cases (is_us_none status)) [
      | inl idle ↦
          let x : Target = record f { update_status = us_success } in
          let ok : IsSettled x = record { finished = done; updated = up; told = refl } in
          let there : IsSettled (at file x files file) = rw (==_refl file) ok in
          rw idle (there, at-KeepsSettled file x files ok, λ r told. absurd cc)
      | inr told ↦
          let all =
            finish_peers-keeps (SettledAs status) (SameState-SettledAs status) status
              (settle-SettledAs status told) sys f.also_make files in
          let here = all file (inl (record { finished = done; updated = up; told = told }, refl)) in
          rw told (
            here.0,
            λ g s.
                finish_peers-keeps IsSettled SameState-IsSettled status
                  (λ f. settle-IsSettled status f told) sys (files file).also_make files g (inl s),
            λ r told d m. rw (here.1) (all d (inr m)),
          )
    ]
finish_status-IsSettled sys false file files done up =
    let f = files file in
    elim (Bool-cases (is_us_none f.update_status)) [
      | inl idle ↦
          let x : Target = record f { update_status = us_success } in
          let ok : IsSettled x = record { finished = done; updated = up; told = refl } in
          let there : IsSettled (at file x files file) = rw (==_refl file) ok in
          rw idle (there, at-KeepsSettled file x files ok, λ r. absurd cc)
      | inr told ↦
          rw told (record { finished = done; updated = up; told = told }, λ g s. s, λ r. absurd cc)
    ]

finish_entry-finished :
    (opts : Options) (sys : System) (file : ℕ) (f : Target)
    → (finish_entry opts sys file f).command_state ≡ cs_finished
unfolding finish_entry
finish_entry-finished opts sys file f = refl

finish_entry-updated :
    (opts : Options) (sys : System) (file : ℕ) (f : Target)
    → (finish_entry opts sys file f).updated ≡ true
unfolding finish_entry
finish_entry-updated opts sys file f = refl

finish_entry-peers :
    (opts : Options) (sys : System) (file : ℕ) (f : Target)
    → (finish_entry opts sys file f).also_make ≡ f.also_make
unfolding finish_entry
finish_entry-peers opts sys file f = refl

-- `notice_finished_file` settles the file, whatever state it was in, and no file that was settled is
-- unsettled by it; where the recipe of the file ran and it was tried to be made, each of the other
-- targets of that recipe is settled too, with the status of the file.
pub notice_finished_file-IsSettled :
    (opts : Options) (sys : System) (file : ℕ) (files : Files)
    → let after = notice_finished_file opts sys file files in
      IsSettled (after file)
      × KeepsSettled files after
      × (is_running (files file).command_state ≡ true
          → is_us_none (files file).update_status ≡ false
          → (d : ℕ) → is_among d (files file).also_make ≡ true
          → SettledAs (after file).update_status (after d))
unfolding notice_finished_file
notice_finished_file-IsSettled opts sys file files =
    let f : Target = finish_entry opts sys file (files file) in
    let first : Files = at file f files in
    let spread : Files = propagate_mtime file first in
    let here : first file ≡ f = at-here file f files in
    let same : (g : ℕ) → SameState (spread g) (first g) = propagate_mtime-SameState file first in
    let (a, b, c, d) = same file in
    let (settled, keeps, peers) =
      finish_status-IsSettled sys (is_running (files file).command_state) file spread
        (a
          ∙ ap (λ (x : Target). x.command_state) here
          ∙ finish_entry-finished opts sys file (files file))
        (b
          ∙ ap (λ (x : Target). x.updated) here
          ∙ finish_entry-updated opts sys file (files file)) in
    (
      settled,
      λ g s. keeps g (
          SameState-IsSettled (spread g) (first g) (same g) (elim (Bool-cases (g == file)) [
            | inl it ↦
                let e : g ≡ file = ground arith in
                let was : is_us_none (files file).update_status ≡ false =
                  subst (λ n. is_us_none (files n).update_status ≡ false) e s.told in
                rw it (record {
                  finished = finish_entry-finished opts sys file (files file);
                  updated = finish_entry-updated opts sys file (files file);
                  told = finish_entry-told opts sys file (files file) was;
                })
            | inr other ↦ rw other s
          ])),
      λ ran told p m.
          peers ran
            (ap is_us_none (c ∙ ap (λ (x : Target). x.update_status) here)
              ∙ finish_entry-told opts sys file (files file) told)
            p
            (ap (is_among p) (
                d
                ∙ ap (λ (x : Target). x.also_make) here
                ∙ finish_entry-peers opts sys file (files file))
              ∙ m),
    )
