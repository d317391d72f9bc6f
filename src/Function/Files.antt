-- ===== src/Function/Files.antt =====
-- `func_notdir_suffix` and `func_basename_dir` on a POSIX system.
use make.Text.Emit.{emit, results, unwords, emit-unwords}
use make.Function.Lists.{results-map}
use make.Text.Words.{words}
use make.Text.{Text, is_dirsep, each_token, rounds, kill_last}
use make.Prelude.{
  ℕ, zero, suc, ◌+◌, ◌≤◌, ◌<◌, ◌≡◌, ◌⊎◌, inl, inr, refl, sym, ap, ◌∙◌, Bool, true, false, ◌&&◌,
  ◌||◌, not, Option, none, some, [], ◌∷◌, ◌++◌, length, get_elem?, get_elem?_bound, take, drop,
  take-append-drop, map, append-nil, if◌then◌else◌, ◌==◌, Bool-cases, arith,
}

-- `STOP_SET (c, stop)` with MAP_DOT in `stop` or not.
is_stop : Bool → ℕ → Bool
unfolding is_dirsep
is_stop dot c = is_dirsep c || (dot && c == b'.')

-- `while (p >= p2 && ! STOP_SET (*p, stop)) --p;` from `p = p2 + i - 1`; `none` is `p < p2`.
scan_back : Bool → Text → ℕ → Option ℕ
scan_back dot w zero = none
scan_back dot w (suc i) =
    let before = scan_back dot w i in
    elim (get_elem? w i) [ none ↦ before | some c ↦ if is_stop dot c then some i else before ]

byte_is : ℕ → Text → ℕ → Bool
byte_is c w p = elim (get_elem? w p) [ none ↦ false | some d ↦ d == c ]

-- What a round of `func_notdir_suffix` writes before its space; `none` if it writes nothing.
pub notdir_suffix : Bool → Text → Option Text
unfolding scan_back is_stop byte_is
notdir_suffix is_notdir w = elim (scan_back (not is_notdir) w (length w)) [
  | some p ↦
      if is_notdir
      then some (drop (p + 1) w)
      else if byte_is b'.' w p
      then some (drop p w)
      else none
  | none ↦ if is_notdir then some w else none
]

-- What a round of `func_basename_dir` writes before its space.
pub basename_dir : Bool → Text → Text
unfolding scan_back is_stop byte_is
basename_dir is_basename w = elim (scan_back is_basename w (length w)) [
  | some p ↦ if not is_basename then take (p + 1) w else if byte_is b'.' w p then take p w else w
  | none ↦ if not is_basename then b'.' ∷ b'/' ∷ [] else w
]

pub func_notdir_suffix : Bool → Text → Text → Text
unfolding notdir_suffix
func_notdir_suffix is_notdir o list =
    kill_last (each_token (rounds list) (emit (notdir_suffix is_notdir)) list (o, false))

pub func_basename_dir : Bool → Text → Text → Text
unfolding basename_dir
func_basename_dir is_basename o list =
    kill_last
      (each_token (rounds list) (emit (λ w. some (basename_dir is_basename w))) list (o, false))

-- `$(notdir list)` and `$(suffix list)` join the parts of the words that have one by single spaces.
notdir_suffix-words :
    (is_notdir : Bool) (o list : Text)
    → func_notdir_suffix is_notdir o list
      ≡ o ++ unwords (results (notdir_suffix is_notdir) (words list))
unfolding func_notdir_suffix
notdir_suffix-words b o list = emit-unwords (notdir_suffix b) _ o list (λ w s. refl)

-- `$(dir list)` and `$(basename list)` join the parts of the words by single spaces.
basename_dir-words :
    (is_basename : Bool) (o list : Text)
    → func_basename_dir is_basename o list
      ≡ o ++ unwords (map (basename_dir is_basename) (words list))
unfolding func_basename_dir
basename_dir-words b o list =
    emit-unwords (λ w. some (basename_dir b w)) _ o list (λ w s. refl)
    ∙ ap (λ ws. o ++ unwords ws) (results-map (basename_dir b) (words list))

-- Whether the text has a `/`.
abbrev pub has_slash : Text → Bool
has_slash [] = false
has_slash (c ∷ s) = is_dirsep c || has_slash s

abbrev pub written : Option Text → Text
written none = []
written (some v) = v

-- Where the scan stops, and that it has passed no place to stop.
Stops : Bool → Text → ℕ → Option ℕ → Type 0
Stops dot w i none = (j c : ℕ) → j < i → get_elem? w j ≡ some c → is_stop dot c ≡ false
Stops dot w i (some p) =
    (c : ℕ) × (get_elem? w p ≡ some c)
    × (is_stop dot c ≡ true)
    × ((j d : ℕ) → p < j → j < i → get_elem? w j ≡ some d → is_stop dot d ≡ false)

last_or_below : (j i : ℕ) → j < suc i → (j ≡ i) ⊎ (j < i)
last_or_below j i h = omega arith

scan_back-Stops : (dot : Bool) (w : Text) (i : ℕ) → Stops dot w i (scan_back dot w i)
unfolding scan_back Stops
scan_back-Stops dot w zero = λ j c h at. absurd (omega arith)
scan_back-Stops dot w (suc i) =
    go (get_elem? w i) refl (scan_back dot w i) (scan_back-Stops dot w i)
  where
    more :
        (r : Option ℕ)
        → ((c : ℕ) → get_elem? w i ≡ some c → is_stop dot c ≡ false)
        → Stops dot w i r
        → Stops dot w (suc i) r
    more none clear s = λ j c h at. elim (last_or_below j i h) [
      | inl e ↦ clear c (ap (get_elem? w) (sym e) ∙ at)
      | inr low ↦ s j c low at
    ]
    more (some p) clear (c, at, stop, past) = (
      c,
      at,
      stop,
      λ j d h h' at'. elim (last_or_below j i h') [
        | inl e ↦ clear d (ap (get_elem? w) (sym e) ∙ at')
        | inr low ↦ past j d h low at'
      ],
    )

    go :
        (x : Option ℕ)
        → get_elem? w i ≡ x
        → (r : Option ℕ) → Stops dot w i r
        → Stops dot w (suc i) (elim x [ none ↦ r | some c ↦ if is_stop dot c then some i else r ])
    go none e r s = more r (λ c at. cc) s
    go (some c) e r s = elim (Bool-cases (is_stop dot c)) [
      | inl stop ↦ rw stop (c, e, stop, λ j d h h' at. absurd (omega arith))
      | inr clear ↦ rw clear (more r (λ d at. let c=d : c ≡ d = cc in rw c=d at clear) s)
    ]

has_slash-get :
    (w : Text) (p c : ℕ) → get_elem? w p ≡ some c → is_dirsep c ≡ true → has_slash w ≡ true
has_slash-get [] p c at h = absurd (cc)
has_slash-get (d ∷ w) zero c at h = let d=c : d ≡ c = cc in rw (d=c, h)
has_slash-get (d ∷ w) (suc p) c at h = ground (arith, has_slash-get w p c at h)

no_slash-drop :
    (w : Text) (n : ℕ)
    → ((j c : ℕ) → n ≤ j → get_elem? w j ≡ some c → is_dirsep c ≡ false)
    → has_slash (drop n w) ≡ false
no_slash-drop [] zero h = refl
no_slash-drop [] (suc n) h = refl
no_slash-drop (d ∷ w) zero h =
    rw (h 0 d (omega arith) refl) (no_slash-drop w 0 (λ j c l at. h (suc j) c (omega arith) at))
no_slash-drop (d ∷ w) (suc n) h = no_slash-drop w n (λ j c l at. h (suc j) c (omega arith) at)

dirsep_of : (c : ℕ) (b : Bool) → is_stop false c ≡ b → is_dirsep c ≡ b
unfolding is_stop
dirsep_of c b h = ground arith

-- `$(dir w)$(notdir w)` is the word `w` again where it has a slash, and the second part has none;
-- for a word without a slash `dir` gives `./` and `notdir` the word.
dir-notdir :
    (w : Text)
    → ((has_slash w ≡ true)
        × (basename_dir false w ++ written (notdir_suffix true w) ≡ w)
        × (has_slash (written (notdir_suffix true w)) ≡ false))
      ⊎ ((has_slash w ≡ false)
          × (basename_dir false w ≡ b'.' ∷ b'/' ∷ [])
          × (notdir_suffix true w ≡ some w))
unfolding basename_dir notdir_suffix is_stop Stops
dir-notdir w = go (scan_back false w (length w)) refl (scan_back-Stops false w (length w))
  where
    Splits : Type 0
    Splits =
        ((has_slash w ≡ true)
          × (basename_dir false w ++ written (notdir_suffix true w) ≡ w)
          × (has_slash (written (notdir_suffix true w)) ≡ false))
        ⊎ ((has_slash w ≡ false)
            × (basename_dir false w ≡ b'.' ∷ b'/' ∷ [])
            × (notdir_suffix true w ≡ some w))

    go : (r : Option ℕ) → scan_back false w (length w) ≡ r → Stops false w (length w) r → Splits
    go none e s = inr (
      no_slash-drop w 0 (λ j c l at. dirsep_of c false (s j c (get_elem?_bound w j c at) at)),
      rw (e, basename_dir),
      rw (e, notdir_suffix),
    )
    go (some p) e (c, at, stop, past) = inl (
      has_slash-get w p c at (dirsep_of c true stop),
      rw (e, basename_dir, notdir_suffix) (take-append-drop (p + 1) w),
      rw (e, notdir_suffix)
          (no_slash-drop w (p + 1) (λ j d l at'.
            dirsep_of d false (past j d (omega arith) (get_elem?_bound w j d at') at'))),
    )

-- `$(basename w)$(suffix w)` is the word `w` again.
basename-suffix : (w : Text) → basename_dir true w ++ written (notdir_suffix false w) ≡ w
unfolding basename_dir notdir_suffix
basename-suffix w = go (scan_back true w (length w)) refl
  where
    go :
        (r : Option ℕ)
        → scan_back true w (length w) ≡ r
        → basename_dir true w ++ written (notdir_suffix false w) ≡ w
    go none e = rw (e, basename_dir, notdir_suffix) (append-nil w)
    go (some p) e = elim (Bool-cases (byte_is b'.' w p)) [
      | inl dot ↦ rw (e, dot, basename_dir, notdir_suffix) (take-append-drop p w)
      | inr other ↦ rw (e, other, basename_dir, notdir_suffix) (append-nil w)
    ]
