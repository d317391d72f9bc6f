-- ===== src/Rule/Install.antt =====
-- What `new_pattern_rule` does to the chain of pattern rules.
use make.Rule.Chain.{
  IsAbsent, IsDistinct, last_of, IsLinked, last_of-append, append-IsAbsent, last-ne, set_next-last,
  next_of-middle, IsDistinct-append, middle-IsAbsent,
}
use make.Rule.{
  Rule, Rules, duplicates, find_duplicate, set_next, next_of, points_to, freerule, append_rule,
  install, new_pattern_rule,
}
use make.Prelude.{
  ℕ, ◌≡◌, ◌⊎◌, inl, inr, refl, sym, ap, ◌∙◌, subst, Bool, true, false, Option, none, some, List, [],
  ◌∷◌, ◌++◌, append-nil, ◌==◌, ==_refl, if◌then◌else◌, ◌>>=◌, Returns, Bool-cases, arith,
}

last_some : (p : ℕ) (rs : List Rule) → (q : ℕ) × (last_of (some p) rs ≡ some q)
last_some p [] = (p, refl)
last_some p (r ∷ rs) = last_some r.address rs

-- A new rule goes to the end.
append_rule-last :
    (rule : Rule) (s : Rules)
    → IsLinked s
    → append_rule rule s
      ≡ some (record {
        pattern_rules = s.pattern_rules ++ rule ∷ [];
        last_pattern_rule = some rule.address;
      })
unfolding append_rule
append_rule-last rule s v = go s.pattern_rules refl
  where
    go :
        (l : List Rule)
        → s.pattern_rules ≡ l
        → append_rule rule s
          ≡ some (record {
            pattern_rules = s.pattern_rules ++ rule ∷ [];
            last_pattern_rule = some rule.address;
          })
    go [] e = rw (e, append_rule) refl
    go (r ∷ rs) e =
        let (q, last) = last_some r.address rs in
        let at_end : s.last_pattern_rule ≡ some q = v.last ∙ ap (last_of none) e ∙ last in
        let cut : set_next q (rule ∷ []) (r ∷ rs) ≡ r ∷ rs ++ rule ∷ [] =
          ap (set_next q (rule ∷ [])) (sym (append-nil (r ∷ rs)))
          ∙ set_next-last r rs [] (rule ∷ []) q (subst IsDistinct e v.distinct) last in
        rw (e, at_end, append_rule) (rw cut refl)

IsDistinct-end :
    (rule : Rule) (rs : List Rule)
    → IsDistinct rs
    → IsAbsent rule.address rs
    → IsDistinct (rs ++ rule ∷ [])
IsDistinct-end rule [] h k = (tt, tt)
IsDistinct-end rule (r ∷ rs) (n, h) (m, k) =
    (append-IsAbsent r.address rs (rule ∷ []) n (ground arith, tt), IsDistinct-end rule rs h k)

append_rule-IsLinked :
    (rule : Rule) (s : Rules) (rs : List Rule)
    → IsDistinct rs
    → IsAbsent rule.address rs
    → IsLinked (record { pattern_rules = rs ++ rule ∷ []; last_pattern_rule = some rule.address })
append_rule-IsLinked rule s rs h k = record {
  distinct = IsDistinct-end rule rs h k;
  last = sym (last_of-append none rs (rule ∷ []));
}

-- The last rule once `r` is gone.
last_without :
    (r : Rule) (d : Option ℕ) (ys : List Rule)
    → IsAbsent r.address ys
    → (if points_to (last_of (some r.address) ys) r.address then d else last_of (some r.address) ys)
      ≡ last_of d ys
last_without r d [] h = rw (==_refl r.address) refl
last_without r d (y ∷ ys) (n, h) =
    let (q, e) = last_some y.address ys in
    let other : (r.address == q) ≡ false = last-ne r.address y ys q (ground arith) h e in
    let other' : (q == r.address) ≡ false = ground arith in rw (e, other') refl

-- `freerule` on a rule of the chain and the rule before it.
freerule-middle :
    (s : Rules) (xs : List Rule) (r : Rule) (ys : List Rule)
    → IsLinked s
    → s.pattern_rules ≡ xs ++ r ∷ ys
    → freerule r.address (last_of none xs) s
      ≡ some (record { pattern_rules = xs ++ ys; last_pattern_rule = last_of none (xs ++ ys) })
unfolding freerule
freerule-middle s [] r ys v e =
    let (_, gone, _) = middle-IsAbsent r [] ys (subst IsDistinct e v.distinct) in
    let last = v.last ∙ ap (last_of none) e in
    rw (e, last, ==_refl r.address, next_of-middle r [] ys tt, freerule)
      (ap (λ l. some (record { pattern_rules = ys; last_pattern_rule = l }))
        (last_without r none ys gone))
freerule-middle s (x ∷ xs) r ys v e =
    let ((n, before), gone, kept) = middle-IsAbsent r (x ∷ xs) ys (subst IsDistinct e v.distinct) in
    let (q, prev) = last_some x.address xs in
    let last : s.last_pattern_rule ≡ last_of (some r.address) ys =
      v.last ∙ ap (last_of none) e ∙ last_of-append (some x.address) xs (r ∷ ys) in
    let first : (x.address == r.address) ≡ false = ground arith in
    let (late, _) = IsDistinct-append (x ∷ xs) (r ∷ ys) (subst IsDistinct e v.distinct) in
    let rest : next_of r.address (x ∷ xs ++ r ∷ ys) ≡ ys =
      next_of-middle r (x ∷ xs) ys (n, before) in
    let cut : set_next q ys (x ∷ xs ++ r ∷ ys) ≡ x ∷ xs ++ ys =
      set_next-last x xs (r ∷ ys) ys q late prev in
    let whole : last_of none (x ∷ xs ++ ys) ≡ last_of (some q) ys =
      last_of-append (some x.address) xs ys ∙ ap (λ d. last_of d ys) prev in
    rw (e, prev, first, rest, last, freerule)
      (rw (cut, whole)
        (ap (λ l. some (record { pattern_rules = x ∷ xs ++ ys; last_pattern_rule = l }))
          (last_without r (some q) ys gone)))

-- No rule of the list is a duplicate of the new one.
abbrev pub NoneSame : Rule → List Rule → Type 0
NoneSame rule [] = Unit
NoneSame rule (r ∷ rs) = (duplicates rule.targets rule.deps r ≡ false) × NoneSame rule rs

-- The first duplicate, between the rules before and after it.
abbrev pub FirstSame : Rule → List Rule → List Rule → Rule → List Rule → Type 0
FirstSame rule rules xs r ys =
    (rules ≡ xs ++ r ∷ ys) × NoneSame rule xs × (duplicates rule.targets rule.deps r ≡ true)

Search : Rule → Option ℕ → List Rule → Option (Rule × Option ℕ) → Type 0
Search rule d rules none = NoneSame rule rules
Search rule d rules (some (r, lastrule)) =
    (xs : List Rule) × (ys : List Rule) × FirstSame rule rules xs r ys × (lastrule ≡ last_of d xs)

find_duplicate-Search :
    (rule : Rule) (d : Option ℕ) (rules : List Rule)
    → Search rule d rules (find_duplicate rule d rules)
unfolding find_duplicate Search
find_duplicate-Search rule d [] = tt
find_duplicate-Search rule d (r ∷ rs) = elim (Bool-cases (duplicates rule.targets rule.deps r)) [
  | inl e ↦ rw (e, Search) ([], rs, (refl, tt, e), refl)
  | inr e ↦
      rw (e, Search)
        (later (find_duplicate rule (some r.address) rs) e
          (find_duplicate-Search rule (some r.address) rs))
]
  where
    later :
        (o : Option (Rule × Option ℕ))
        → duplicates rule.targets rule.deps r ≡ false
        → Search rule (some r.address) rs o
        → Search rule d (r ∷ rs) o
    later none e h = (e, h)
    later (some (r', lastrule)) e (xs, ys, (split, none_same, same), last) =
        (r ∷ xs, ys, (ap (λ l. r ∷ l) split, (e, none_same), same), last)

-- What `new_pattern_rule` is to leave, `new` being the rule with its flags cleared: it is put at
-- the end if no rule is its duplicate; else it takes the end and the first duplicate goes, or
-- nothing changes.
abbrev pub Installs : Rule → Bool → List Rule → Bool × Rules → Type 0
Installs new override rules (used, s) =
    (NoneSame new rules × (used ≡ true) × (s.pattern_rules ≡ rules ++ new ∷ []))
    ⊎ ((xs : List Rule) × (r : Rule) × (ys : List Rule) × FirstSame new rules xs r ys
        × (used ≡ override)
        × (s.pattern_rules ≡ (if override then (xs ++ ys) ++ new ∷ [] else rules)))

-- Freeing a rule that is not in the chain leaves the chain alone.
freerule_new :
    (rule : Rule) (s : Rules)
    → IsLinked s
    → IsAbsent rule.address s.pattern_rules
    → freerule rule.address none s ≡ some s
unfolding freerule
freerule_new rule s v fresh = go s.pattern_rules refl
  where
    go : (l : List Rule) → s.pattern_rules ≡ l → freerule rule.address none s ≡ some s
    go [] e = let last = v.last ∙ ap (last_of none) e in rw (e, last, freerule) refl
    go (r ∷ rs) e =
        let (q, end) = last_some r.address rs in
        let at_end : s.last_pattern_rule ≡ some q = v.last ∙ ap (last_of none) e ∙ end in
        let (n, h) = subst (IsAbsent rule.address) e fresh in
        let other : (q == rule.address) ≡ false =
          let ne : (rule.address == q) ≡ false = last-ne rule.address r rs q n h end in
          ground arith in
        rw (e, n, at_end, other, freerule) refl

-- On a well linked chain without the new rule, `new_pattern_rule` ends without a null dereference, on
-- a well linked chain: the rule is put at the end if no rule is its duplicate; if one is, the rule
-- replaces the first, at the end, or is dropped, as `override` says.
pub new_pattern_rule-Installs :
    (rule : Rule) (override : Bool) (s : Rules)
    → IsLinked s
    → IsAbsent rule.address s.pattern_rules
    → Returns (new_pattern_rule rule override s) λ r.
      IsLinked r.1
      × Installs (record rule { in_use = false; terminal = false }) override s.pattern_rules r
unfolding new_pattern_rule install Search
new_pattern_rule-Installs rule override s v fresh =
    go override (find_duplicate new none s.pattern_rules)
      (find_duplicate-Search new none s.pattern_rules)
  where
    new : Rule
    new = record rule { in_use = false; terminal = false }

    Done : Bool → Option (Rule × Option ℕ) → Type 0
    Done override o =
        Returns (install new override o s)
          λ r. IsLinked r.1 × Installs new override s.pattern_rules r

    go :
        (override : Bool) (o : Option (Rule × Option ℕ))
        → Search new none s.pattern_rules o
        → Done override o
    go override none h = (
      (
        true,
        record {
          pattern_rules = s.pattern_rules ++ new ∷ [];
          last_pattern_rule = some new.address;
        },
      ),
      rw (append_rule-last new s v, ◌>>=◌) refl,
      (append_rule-IsLinked new s s.pattern_rules v.distinct fresh, inl (h, refl, refl)),
    )
    go true (some (r, lastrule)) (xs, ys, (split, none_same, same), last) =
        let (before, after, kept) = middle-IsAbsent r xs ys (subst IsDistinct split v.distinct) in
        let t : Rules = record {
          pattern_rules = xs ++ ys;
          last_pattern_rule = last_of none (xs ++ ys);
        } in
        let linked_t : IsLinked t = record { distinct = kept; last = refl } in
        let absent : IsAbsent new.address (xs ++ ys) =
          without xs (subst (IsAbsent new.address) split fresh) in
        (
          (
            true,
            record { pattern_rules = (xs ++ ys) ++ new ∷ []; last_pattern_rule = some new.address },
          ),
          rw (last, freerule-middle s xs r ys v split, ◌>>=◌)
              (rw (append_rule-last new t linked_t, ◌>>=◌) refl),
          (
            append_rule-IsLinked new t (xs ++ ys) kept absent,
            inr (xs, r, ys, (split, none_same, same), refl, refl),
          ),
        )
      where
        without :
            (xs : List Rule) → IsAbsent new.address (xs ++ r ∷ ys) → IsAbsent new.address (xs ++ ys)
        without [] (n, h) = h
        without (x ∷ xs) (n, h) = (n, without xs h)
    go false (some (r, lastrule)) (xs, ys, found, last) = (
      (false, s),
      rw (freerule_new new s v fresh, ◌>>=◌) refl,
      (v, inr (xs, r, ys, found, refl, refl)),
    )
