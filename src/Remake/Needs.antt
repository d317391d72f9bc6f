-- ===== src/Remake/Needs.antt =====
-- When `update_file_1` remakes a file.
use make.Remake.{
  Prereq, Target, Files, Options, unknown_mtime, nonexistent_mtime, has_cmds, file_mtime,
}
use make.Remake.Finish.{System}
use make.Remake.Decide.{record_change, missing, scan_deps, is_nil, decide, must_remake}
use make.Prelude.{
  ℕ, ◌≡◌, inl, inr, refl, sym, ◌∙◌, subst, Bool, true, false, not, ◌&&◌, ◌||◌, List, [], ◌∷◌, map,
  at, ◌==◌, ==_refl, if◌then◌else◌, if-both, Bool-cases, arith,
}

-- The times of the prerequisites are known, as they are when the loop over them has looked at each.
abbrev pub TimesKnown : Files → List Prereq → Type 0
TimesKnown files [] = Unit
TimesKnown files (d ∷ ds) =
    ((files d.file).last_mtime == unknown_mtime ≡ false) × TimesKnown files ds

abbrev pub any_prereq : (Prereq → Bool) → List Prereq → Bool
any_prereq test [] = false
any_prereq test (d ∷ ds) = test d || any_prereq test ds

-- A prerequisite that is not order-only, does not exist and is not intermediate.
abbrev pub is_missing : Files → Prereq → Bool
is_missing files d =
    not d.ignore_mtime
    && (files d.file).last_mtime == nonexistent_mtime
    && not (files d.file).intermediate

-- One that is not order-only and has changed while it was made.
abbrev pub has_changed : Prereq → Bool
has_changed d = not d.ignore_mtime && d.changed

abbrev pub mark_change : Files → Bool → ℕ → Prereq → Prereq
mark_change files noexist this_mtime d =
    record_change (files d.file).last_mtime noexist this_mtime d

or_assoc : (a b c : Bool) → ((a || b) || c) ≡ (a || (b || c))
or_assoc a b c = ground arith

missing_lem :
    (files : Files) (d : Prereq)
    → missing (files d.file).last_mtime (files d.file).intermediate d ≡ is_missing files d
unfolding missing
missing_lem files d = refl

file_mtime-known :
    (sys : System) (d : ℕ) (files : Files)
    → (files d).last_mtime == unknown_mtime ≡ false
    → file_mtime sys.name_mtime d files ≡ ((files d).last_mtime, files)
unfolding file_mtime
file_mtime-known sys d files k = rw k refl

-- With the times known, the loop leaves the store alone and finds what the definitions above say.
scan_deps-known :
    (sys : System) (noexist : Bool) (this_mtime : ℕ) (ds : List Prereq) (must changed : Bool)
    (files : Files)
    → TimesKnown files ds
    → scan_deps sys noexist this_mtime ds must changed files ≡ record {
      files = files;
      must_make = must || any_prereq (is_missing files) ds;
      deps_changed = changed || any_prereq has_changed ds;
      deps = map (mark_change files noexist this_mtime) ds;
    }
unfolding scan_deps
scan_deps-known sys noexist this_mtime [] must changed files h = ground arith
scan_deps-known sys noexist this_mtime (d ∷ ds) must changed files (k, h) =
    let time = (files d.file).last_mtime in
    rw (file_mtime-known sys d.file files k) (
      rw
        (
          scan_deps-known sys noexist this_mtime ds
              (must || missing time (files d.file).intermediate d) (changed || has_changed d) files
              h,
          missing_lem files d,
          or_assoc must (is_missing files d) (any_prereq (is_missing files) ds),
          or_assoc changed (has_changed d) (any_prereq has_changed ds),
        )
        refl)

-- The rule for a file that exists and has no recipe: it stands as it is unless a prerequisite
-- changed.
abbrev pub rests : Options → Target → Bool → List Prereq → Bool
rests opts f noexist ds =
    not noexist
    && f.is_target
    && not (any_prereq has_changed ds)
    && not (has_cmds f)
    && not opts.always_make_flag

-- What the decision comes to, for the prerequisites `ds` that the file had.
abbrev pub needs_remaking : Options → Files → Target → Bool → Bool → List Prereq → Bool
needs_remaking opts files f noexist must_make ds =
    (not (is_nil f.double_colon) && is_nil ds)
    || (not (rests opts f noexist ds)
        && (must_make || any_prereq (is_missing files) ds || (has_cmds f && opts.always_make_flag)))

is_nil-map : (mark : Prereq → Prereq) (ds : List Prereq) → is_nil (map mark ds) ≡ is_nil ds
is_nil-map mark [] = refl
is_nil-map mark (d ∷ ds) = refl

-- Where the times of the prerequisites are known, `update_file_1` decides to remake a file just
-- when it is a double-colon entry without prerequisites, or it does not rest as it is and: the
-- update of its prerequisites has already asked for it, a prerequisite that is neither order-only
-- nor intermediate does not exist, or -B is given and it has a recipe. The prerequisites keep their
-- order, and each is marked as changed just if it was so before, the file does not exist, or its
-- own time is after that of the file.
pub must_remake-needs_remaking :
    (opts : Options) (sys : System) (noexist : Bool) (this_mtime : ℕ) (must_make : Bool) (file : ℕ)
    (files : Files)
    → TimesKnown files (files file).deps
    → let after = must_remake opts sys noexist this_mtime must_make file files in
      (after.0 ≡ needs_remaking opts files (files file) noexist must_make (files file).deps)
      × ((after.1 file).deps ≡ map (mark_change files noexist this_mtime) (files file).deps)
unfolding must_remake decide
must_remake-needs_remaking opts sys noexist this_mtime must_make file files h =
    let f = files file in
    rw
      (
        scan_deps-known sys noexist this_mtime f.deps must_make false files h,
        is_nil-map (mark_change files noexist this_mtime) f.deps,
      )
      (ground arith, rw (==_refl file) refl)

-- The prerequisites without those that are order-only.
unfoldable pub not_order_only : List Prereq → List Prereq
not_order_only [] = []
not_order_only (d ∷ ds) = let rest = not_order_only ds in if d.ignore_mtime then rest else d ∷ rest

not_order_only-any :
    (test : Prereq → Bool)
    → ((d : Prereq) → d.ignore_mtime ≡ true → test d ≡ false)
    → (ds : List Prereq) → any_prereq test (not_order_only ds) ≡ any_prereq test ds
unfolding not_order_only
not_order_only-any test h [] = refl
not_order_only-any test h (d ∷ ds) = elim (Bool-cases d.ignore_mtime) [
  | inl order_only ↦ rw (h d order_only) (rw order_only (not_order_only-any test h ds))
  | inr normal ↦ rw (normal, not_order_only-any test h ds) refl
]

not_order_only-TimesKnown :
    (files : Files) (ds : List Prereq) → TimesKnown files ds → TimesKnown files (not_order_only ds)
unfolding not_order_only
not_order_only-TimesKnown files [] h = tt
not_order_only-TimesKnown files (d ∷ ds) (k, h) =
    if-both (TimesKnown files) d.ignore_mtime (not_order_only ds) (d ∷ not_order_only ds)
      (not_order_only-TimesKnown files ds h) (k, not_order_only-TimesKnown files ds h)

-- The store in which the file has other prerequisites.
abbrev pub with_deps : ℕ → List Prereq → Files → Files
with_deps file ds files = at file (record (files file) { deps = ds }) files

with_deps-time :
    (file : ℕ) (ds : List Prereq) (files : Files) (g : ℕ)
    → (with_deps file ds files g).last_mtime ≡ (files g).last_mtime
with_deps-time file ds files g = elim (Bool-cases (g == file)) [
  | inl it ↦ let e : g ≡ file = ground arith in rw (it, e) refl
  | inr other ↦ rw other refl
]

with_deps-intermediate :
    (file : ℕ) (ds : List Prereq) (files : Files) (g : ℕ)
    → (with_deps file ds files g).intermediate ≡ (files g).intermediate
with_deps-intermediate file ds files g = elim (Bool-cases (g == file)) [
  | inl it ↦ let e : g ≡ file = ground arith in rw (it, e) refl
  | inr other ↦ rw other refl
]

with_deps-any :
    (file : ℕ) (ds es : List Prereq) (files : Files)
    → any_prereq (is_missing (with_deps file ds files)) es ≡ any_prereq (is_missing files) es
with_deps-any file ds [] files = refl
with_deps-any file ds (d ∷ es) files =
    rw
      (
        with_deps-time file ds files d.file,
        with_deps-intermediate file ds files d.file,
        with_deps-any file ds es files,
      )
      refl

with_deps-TimesKnown :
    (file : ℕ) (ds es : List Prereq) (files : Files)
    → TimesKnown files es
    → TimesKnown (with_deps file ds files) es
with_deps-TimesKnown file ds [] files h = tt
with_deps-TimesKnown file ds (d ∷ es) files (k, h) =
    (rw (with_deps-time file ds files d.file) k, with_deps-TimesKnown file ds es files h)

-- Order-only prerequisites do not make a file be remade: where the times of the prerequisites are
-- known, and the file is not a double-colon entry, the decision is the same when all the
-- prerequisites that are order-only are taken from it.
pub must_remake-not_order_only :
    (opts : Options) (sys : System) (noexist : Bool) (this_mtime : ℕ) (must_make : Bool) (file : ℕ)
    (files : Files)
    → TimesKnown files (files file).deps
    → is_nil (files file).double_colon ≡ true
    → (must_remake opts sys noexist this_mtime must_make file
        (with_deps file (not_order_only (files file).deps) files)).0
      ≡ (must_remake opts sys noexist this_mtime must_make file files).0
must_remake-not_order_only opts sys noexist this_mtime must_make file files h single =
    let f = files file in
    let ds = not_order_only f.deps in
    let less : Files = with_deps file ds files in
    let is : less file ≡ record f { deps = ds } = rw (==_refl file) refl in
    let known : TimesKnown less (less file).deps =
      subst (λ (x : Target). TimesKnown less x.deps) (sym is)
        (with_deps-TimesKnown file ds ds files (not_order_only-TimesKnown files f.deps h)) in
    let (all, _) = must_remake-needs_remaking opts sys noexist this_mtime must_make file files h in
    let (some_, _) =
      must_remake-needs_remaking opts sys noexist this_mtime must_make file less known in
    some_
    ∙ rw
        (
          is,
          with_deps-any file ds ds files,
          not_order_only-any (is_missing files) (λ d e. ground arith) f.deps,
          not_order_only-any has_changed (λ d e. ground arith) f.deps,
          single,
        )
        refl
    ∙ sym all
