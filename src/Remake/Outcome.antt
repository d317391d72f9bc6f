-- ===== src/Remake/Outcome.antt =====
-- How `remake_file` ends, and what the status of the file then tells.
use make.Commands.{Commands}
use make.Remake.{
  UpdateStatus, us_success, us_failed, Target, Files, Options, is_success, is_us_none, is_running,
  has_cmds,
}
use make.Remake.Finish.{
  System, Remade, starts, settles, settle_now, remake_bare, remake_with, remake_file, touch_file,
  is_touched, have_nonrecursing, finish_entry, finish_status, propagate_mtime, notice_finished_file,
}
use make.Remake.Same.{propagate_mtime-SameState}
use make.Remake.Settled.{IsSettled, finish_peers-keeps, notice_finished_file-IsSettled}
use make.Prelude.{
  ℕ, ◌≡◌, inl, inr, refl, ◌∙◌, ap, Bool, true, false, not, ◌&&◌, ◌||◌, Option, none, some, at,
  at-here, Bool-cases, if◌then◌else◌, arith,
}

-- Nothing can make the file: it has no recipe, is not phony and is not a target.
abbrev pub is_hopeless : Target → Bool
is_hopeless f = not (has_cmds f) && not f.phony && not f.is_target

-- A line of the recipe runs make.
abbrev pub runs_make : Option Commands → Bool
runs_make none = false
runs_make (some c) = c.any_recurse

-- The file has a recipe and is no phony one, and the system fails to touch it.
abbrev pub refuses : Options → System → ℕ → Target → Bool
refuses opts sys file f =
    has_cmds f && not f.phony && not opts.just_print_flag && not (sys.touches file)

-- What each of the three ends says of the file as it was before.
abbrev pub Ends : Options → System → Bool → ℕ → Files → Option Remade → Type 0
Ends opts sys rebuilding file files none =
    (is_hopeless (files file) ≡ true)
    × (opts.keep_going_flag ≡ false)
    × ((rebuilding && (files file).dontcare) ≡ false)
Ends opts sys rebuilding file files (some starts) =
    (has_cmds (files file) ≡ true)
    × ((opts.touch_flag && not (runs_make (files file).cmds)) ≡ false)
Ends opts sys rebuilding file files (some (settles after)) =
    IsSettled (after file)
    × ((has_cmds (files file) && not opts.touch_flag) ≡ false)
    × (is_success (after file).update_status
        ≡ not (is_hopeless (files file) || refuses opts sys file (files file)))

-- The last part of `notice_finished_file` leaves a status that tells how the update went.
finish_status-told :
    (sys : System) (ran : Bool) (file : ℕ) (files : Files)
    → is_us_none (files file).update_status ≡ false
    → (finish_status sys ran file files file).update_status ≡ (files file).update_status
unfolding finish_status
finish_status-told sys true file files told =
    let status = (files file).update_status in
    rw told (
      finish_peers-keeps (λ f. f.update_status ≡ status) (λ f g same e. same.2 ∙ e) status
        (λ f. refl) sys (files file).also_make files file (inl refl))
finish_status-told sys false file files told = rw told refl

-- So the status is that which the first part has given to the file.
notice_finished_file-told :
    (opts : Options) (sys : System) (file : ℕ) (files : Files)
    → is_us_none (finish_entry opts sys file (files file)).update_status ≡ false
    → (notice_finished_file opts sys file files file).update_status
      ≡ (finish_entry opts sys file (files file)).update_status
unfolding notice_finished_file
notice_finished_file-told opts sys file files told =
    let f : Target = finish_entry opts sys file (files file) in
    let first : Files = at file f files in
    let spread : Files = propagate_mtime file first in
    let (a, b, c, d) = propagate_mtime-SameState file first file in
    let status : (spread file).update_status ≡ f.update_status =
      c ∙ ap (λ (x : Target). x.update_status) (at-here file f files) in
    finish_status-told sys (is_running (files file).command_state) file spread
      (ap is_us_none status ∙ told)
    ∙ status

-- Settling ends as it should, where the first part gives the file the status `s`.
settle_now-Ends :
    (opts : Options) (sys : System) (rebuilding : Bool) (status s : UpdateStatus) (file : ℕ)
    (files : Files)
    → (finish_entry opts sys file (record (files file) { update_status = status })).update_status
      ≡ s
    → is_us_none s ≡ false
    → ((has_cmds (files file) && not opts.touch_flag) ≡ false)
    → is_success s ≡ not (is_hopeless (files file) || refuses opts sys file (files file))
    → Ends opts sys rebuilding file files (some (settle_now opts sys status file files))
unfolding settle_now
settle_now-Ends opts sys rebuilding status s file files e told guard honest =
    let f : Target = record (files file) { update_status = status } in
    let given : Files = at file f files in
    let entry : (finish_entry opts sys file (given file)).update_status ≡ s =
      ap (λ x. (finish_entry opts sys file x).update_status) (at-here file f files) ∙ e in
    let is = notice_finished_file-told opts sys file given (ap is_us_none entry ∙ told) ∙ entry in
    ((notice_finished_file-IsSettled opts sys file given).0, guard, ap is_success is ∙ honest)

-- Without a recipe nothing is touched.
finish_entry-bare :
    (opts : Options) (sys : System) (file : ℕ) (f : Target)
    → has_cmds f ≡ false
    → (finish_entry opts sys file f).update_status ≡ f.update_status
unfolding finish_entry is_touched
finish_entry-bare opts sys file f bare =
    let untouched : (opts.touch_flag
          && is_success f.update_status
          && have_nonrecursing f
          && not f.phony
          && has_cmds f)
        ≡ false =
      ground arith in
    rw untouched refl

remake_bare-Ends :
    (opts : Options) (sys : System) (rebuilding : Bool) (file : ℕ) (files : Files)
    → has_cmds (files file) ≡ false
    → Ends opts sys rebuilding file files (remake_bare opts sys rebuilding file files)
unfolding remake_bare
remake_bare-Ends opts sys rebuilding file files bare =
    let f = files file in
    let settled = λ (status : UpdateStatus).
      settle_now-Ends opts sys rebuilding status status file files
        (finish_entry-bare opts sys file (record f { update_status = status }) bare) in
    let stops = not opts.keep_going_flag && not (rebuilding && f.dontcare) in
    elim (Bool-cases (f.phony || f.is_target)) [
      | inl some_target ↦ rw some_target (settled us_success refl (ground arith) (ground arith))
      | inr neither ↦ elim (Bool-cases stops) [
        | inl fatal ↦ rw (neither, fatal) (ground arith, ground arith, ground arith)
        | inr goes_on ↦ rw (neither, goes_on) (settled us_failed refl (ground arith) (ground arith))
      ]
    ]

-- Under -t, a recipe without a line that runs make is replaced by touching the file.
finish_entry-touched :
    (opts : Options) (sys : System) (file : ℕ) (f : Target) (c : Commands)
    → f.cmds ≡ some c
    → c.any_recurse ≡ false
    → opts.touch_flag ≡ true
    → f.update_status ≡ us_success
    → (finish_entry opts sys file f).update_status
      ≡ (if f.phony then us_success else touch_file opts sys file)
unfolding finish_entry is_touched have_nonrecursing
finish_entry-touched opts sys file f c e plain touch fresh = elim (Bool-cases f.phony) [
  | inl phony ↦ rw (touch, e, plain, fresh, phony) refl
  | inr real ↦ rw (touch, e, plain, fresh, real) refl
]

-- The status of that touching tells whether the system refused it.
touch_file-honest :
    (opts : Options) (sys : System) (file : ℕ) (f : Target)
    → has_cmds f ≡ true
    → let s = if f.phony then us_success else touch_file opts sys file in
      (is_us_none s ≡ false) × (is_success s ≡ not (is_hopeless f || refuses opts sys file f))
unfolding touch_file
touch_file-honest opts sys file f has = elim (Bool-cases f.phony) [
  | inl phony ↦ rw phony (refl, ground arith)
  | inr real ↦ elim (Bool-cases opts.just_print_flag) [
    | inl printed ↦ rw (real, printed) (refl, ground arith)
    | inr runs ↦ elim (Bool-cases (sys.touches file)) [
      | inl done ↦ rw (real, runs, done) (refl, ground arith)
      | inr failed ↦ rw (real, runs, failed) (refl, ground arith)
    ]
  ]
]

remake_with-Ends :
    (opts : Options) (sys : System) (rebuilding : Bool) (cmds : Option Commands) (file : ℕ)
    (files : Files)
    → (files file).cmds ≡ cmds
    → Ends opts sys rebuilding file files (remake_with opts sys rebuilding cmds file files)
unfolding remake_with
remake_with-Ends opts sys rebuilding none file files e =
    remake_bare-Ends opts sys rebuilding file files (rw e refl)
remake_with-Ends opts sys rebuilding (some c) file files e =
    let f = files file in
    let has : has_cmds f ≡ true = rw e refl in
    let (told, honest) = touch_file-honest opts sys file f has in
    elim (Bool-cases (not opts.touch_flag || c.any_recurse)) [
      | inl starts_it ↦ rw starts_it (has, rw e (ground arith))
      | inr touches ↦ rw touches (
          settle_now-Ends opts sys rebuilding us_success
            (if f.phony then us_success else touch_file opts sys file) file files
            (finish_entry-touched opts sys file (record f { update_status = us_success }) c e
              (ground arith) (ground arith) refl)
            told (ground arith) honest)
    ]

-- `remake_file` ends in one of three ways. The run stops, only for a file that nothing can make,
-- without -k, when its failure is not to be ignored as that of a makefile. The recipe is started,
-- only if the file has one, and under -t only if a line of it runs make. Or the file is settled,
-- with a recipe only under -t, and its status is then a success if and only if the file is not one
-- that nothing can make, nor one with a recipe that the system fails to touch.
pub remake_file-Ends :
    (opts : Options) (sys : System) (rebuilding : Bool) (file : ℕ) (files : Files)
    → Ends opts sys rebuilding file files (remake_file opts sys rebuilding file files)
unfolding remake_file
remake_file-Ends opts sys rebuilding file files =
    remake_with-Ends opts sys rebuilding (files file).cmds file files refl
