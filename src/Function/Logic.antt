-- ===== src/Function/Logic.antt =====
-- `func_if`, `func_or` and `func_and`. `expand` is `expand_argument`, with the state that an
-- expansion may change; an argument list ends where its NULL pointer stands.
use make.Text.{Text, is_space, next_token}
use make.Prelude.{
  ℕ, ◌≡◌, ◌⊎◌, inl, inr, refl, sym, ap, ◌∙◌, Option, none, some, List, [], ◌∷◌, ◌++◌, get_elem?,
  append-nil, subst, if◌then◌else◌,
}

-- `while (*endp >= *begpp && ISSPACE (**endpp)) (*endpp)--;`
unfoldable pub strip_end : Text → Text
strip_end [] = []
strip_end (c ∷ s) = keep c (strip_end s)
  where
    keep : ℕ → Text → Text
    keep c [] = if is_space c then [] else c ∷ []
    keep c (d ∷ r) = c ∷ d ∷ r

unfoldable pub strip_whitespace : Text → Text
unfolding strip_end
strip_whitespace t = strip_end (next_token t)

module _ {ℓ} {S : Type ℓ} (expand : S → Text → Text × S) where
  unfoldable pub expand_stripped : S → Text → Text × S
  expand_stripped s [] = ([], s)
  expand_stripped s (c ∷ t) = expand s (c ∷ t)

  -- A condition's text, empty where it is false; it is not expanded if it is blank.
  unfoldable pub value : S → Text → Text × S
  unfolding expand_stripped strip_whitespace
  value s condition = expand_stripped s (strip_whitespace condition)

  or_result : (S → Text × S) → Text → Text × S → Text × S
  or_result more o ([], s) = more s
  or_result more o (c ∷ t, s) = (o ++ c ∷ t, s)

  pub func_or : Text → List Text → S → Text × S
  unfolding or_result
  func_or o [] s = (o, s)
  func_or o (c ∷ cs) s = or_result (func_or o cs) o (value s c)

  and_result : (S → Text × S) → Text → Text × S → Text × S
  and_result more o ([], s) = (o, s)
  and_result more o (c ∷ t, s) = more s

  and_last : Text → Text × S → Text × S
  and_last o (t, s) = (o ++ t, s)

  -- The first condition, and the later ones.
  pub func_and : Text → Text → List Text → S → Text × S
  unfolding and_result and_last
  func_and o c [] s = and_last o (value s c)
  func_and o c (d ∷ cs) s = and_result (func_and o d cs) o (value s c)

  -- `argv += 1 + !result`
  unfoldable pub skipped : Text → ℕ
  skipped [] = 1
  skipped (c ∷ t) = 0

  unfoldable pub if_result : Text → Option Text → S → Text × S
  if_result o none s = (o, s)
  if_result o (some part) s = let r = expand s part in (o ++ r.0, r.1)

  unfoldable pub func_if : Text → Text → List Text → S → Text × S
  unfolding skipped if_result
  func_if o condition parts s =
      let r = value s condition in if_result o (get_elem? parts (skipped (r.0))) (r.1)

  -- From state `s` every condition is false, which leads to `s'`.
  pub AllFalse : S → List Text → S → Type ℓ
  AllFalse s [] s' = s ≡ s'
  AllFalse s (c ∷ cs) s' = ((value s c).0 ≡ []) × AllFalse ((value s c).1) cs s'

  -- From state `s` every condition is true, which leads to `s'`.
  pub AllTrue : S → List Text → S → Type ℓ
  AllTrue s [] s' = s ≡ s'
  AllTrue s (c ∷ cs) s' =
      ((d : ℕ) × (t : Text) × ((value s c).0 ≡ d ∷ t)) × AllTrue ((value s c).1) cs s'

  -- Every condition false, and nothing written; or the expansion of the first true one written.
  pub FirstTrue : Text → List Text → S → Text × S → Type ℓ
  FirstTrue o cs s out =
      ((s' : S) × AllFalse s cs s' × (out ≡ (o, s')))
      ⊎ ((xs : List Text) × (c : Text) × (zs : List Text) × (s' : S) × (d : ℕ) × (t : Text) × (cs
            ≡ xs ++ c ∷ zs)
          × AllFalse s xs s'
          × ((value s' c).0 ≡ d ∷ t)
          × (out ≡ (o ++ d ∷ t, (value s' c).1)))

  -- `$(or …)`: either every condition is false, and nothing is written; or the expansion of the first
  -- true one is written, and none of those after it is expanded.
  pub func_or-FirstTrue : (o : Text) (cs : List Text) (s : S) → FirstTrue o cs s (func_or o cs s)
  unfolding func_or AllFalse FirstTrue or_result
  func_or-FirstTrue o [] s = inl (s, refl, refl)
  func_or-FirstTrue o (c ∷ cs) s =
      go ((value s c).0) ((value s c).1) refl (func_or-FirstTrue o cs ((value s c).1))
    where
      later :
          {t : Text} {s₁ : S}
          → value s c ≡ (t, s₁)
          → (xs : List Text) (s' : S) → t ≡ []
          → AllFalse s₁ xs s'
          → AllFalse s (c ∷ xs) s'
      later e xs s' empty f =
          (ap (λ r. r.0) e ∙ empty, subst (λ x. AllFalse x xs s') (sym (ap (λ r. r.1) e)) f)

      go :
          (t : Text) (s₁ : S)
          → value s c ≡ (t, s₁)
          → FirstTrue o cs s₁ (func_or o cs s₁)
          → FirstTrue o (c ∷ cs) s (func_or o (c ∷ cs) s)
      go [] s₁ e (inl (s', f, run)) =
          inl (s', later e cs s' refl f, ap (or_result (func_or o cs) o) e ∙ run)
      go [] s₁ e (inr (xs, y, zs, s', d, t, split, f, v, run)) = inr (
        c ∷ xs,
        y,
        zs,
        s',
        d,
        t,
        ap (λ r. c ∷ r) split,
        later e xs s' refl f,
        v,
        ap (or_result (func_or o cs) o) e ∙ run,
      )
      go (d ∷ t) s₁ e rec = inr (
        [],
        c,
        cs,
        s,
        d,
        t,
        refl,
        refl,
        ap (λ r. r.0) e,
        ap (or_result (func_or o cs) o) e ∙ ap (λ x. (o ++ d ∷ t, x)) (sym (ap (λ r. r.1) e)),
      )

  -- Some condition false, and nothing written; or all true, and the last expansion written.
  pub LastTrue : Text → List Text → S → Text × S → Type ℓ
  LastTrue o cs s out =
      ((xs : List Text) × (f : Text) × (zs : List Text) × (s' : S) × (cs ≡ xs ++ f ∷ zs)
        × AllTrue s xs s'
        × ((value s' f).0 ≡ [])
        × (out ≡ (o, (value s' f).1)))
      ⊎ ((xs : List Text) × (e : Text) × (s' : S) × (d : ℕ) × (t : Text) × (cs ≡ xs ++ e ∷ [])
          × AllTrue s xs s'
          × ((value s' e).0 ≡ d ∷ t)
          × (out ≡ (o ++ d ∷ t, (value s' e).1)))

  -- `$(and …)`: either some condition is false, and nothing is written and none after the first such
  -- one is expanded; or all are true, and the expansion of the last one is written.
  func_and-LastTrue :
      (o c : Text) (cs : List Text) (s : S) → LastTrue o (c ∷ cs) s (func_and o c cs s)
  unfolding func_and AllTrue LastTrue and_result and_last
  func_and-LastTrue o c [] s = go ((value s c).0) ((value s c).1) refl
    where
      go : (t : Text) (s₁ : S) → value s c ≡ (t, s₁) → LastTrue o (c ∷ []) s (func_and o c [] s)
      go [] s₁ e = inl (
        [],
        c,
        [],
        s,
        refl,
        refl,
        ap (λ r. r.0) e,
        ap (and_last o) e
            ∙ ap (λ x. (o ++ [], x)) (sym (ap (λ r. r.1) e))
            ∙ ap (λ x. (x, (value s c).1)) (append-nil o),
      )
      go (d ∷ t) s₁ e = inr (
        [],
        c,
        s,
        d,
        t,
        refl,
        refl,
        ap (λ r. r.0) e,
        ap (and_last o) e ∙ ap (λ x. (o ++ d ∷ t, x)) (sym (ap (λ r. r.1) e)),
      )
  func_and-LastTrue o c (b ∷ cs) s =
      go ((value s c).0) ((value s c).1) refl (func_and-LastTrue o b cs ((value s c).1))
    where
      later :
          {s₁ : S} (d : ℕ) (t : Text)
          → value s c ≡ (d ∷ t, s₁)
          → (xs : List Text) (s' : S) → AllTrue s₁ xs s'
          → AllTrue s (c ∷ xs) s'
      later d t e xs s' f =
          ((d, t, ap (λ r. r.0) e), subst (λ x. AllTrue x xs s') (sym (ap (λ r. r.1) e)) f)

      go :
          (t : Text) (s₁ : S)
          → value s c ≡ (t, s₁)
          → LastTrue o (b ∷ cs) s₁ (func_and o b cs s₁)
          → LastTrue o (c ∷ b ∷ cs) s (func_and o c (b ∷ cs) s)
      go [] s₁ e rec = inl (
        [],
        c,
        b ∷ cs,
        s,
        refl,
        refl,
        ap (λ r. r.0) e,
        ap (and_result (func_and o b cs) o) e ∙ ap (λ x. (o, x)) (sym (ap (λ r. r.1) e)),
      )
      go (d ∷ t) s₁ e (inl (xs, f, zs, s', split, all, v, run)) = inl (
        c ∷ xs,
        f,
        zs,
        s',
        ap (λ r. c ∷ r) split,
        later d t e xs s' all,
        v,
        ap (and_result (func_and o b cs) o) e ∙ run,
      )
      go (d ∷ t) s₁ e (inr (xs, l, s', d', t', split, all, v, run)) = inr (
        c ∷ xs,
        l,
        s',
        d',
        t',
        ap (λ r. c ∷ r) split,
        later d t e xs s' all,
        v,
        ap (and_result (func_and o b cs) o) e ∙ run,
      )
