-- ===== src/Variable/Restore.antt =====
-- What a scope that is pushed and popped restores.
use make.Variable.{Variable}
use make.Variable.Scopes.{SetList, Scopes, bump}
use make.Prelude.{
  at, at-other, ℕ, ◌≤◌, ◌<◌, ◌≡◌, refl, ap, ◌∙◌, Bool, true, false, ◌&&◌, some, List, ◌==◌, inl,
  inr, Bool-cases, arith,
}

-- The current list and the global one are in use, and the global one has no parent behind it.
pub record IsScoped (s : Scopes) : Type 0 where
  pub current : ℕ
  pub is_current : s.current_variable_set_list ≡ some current
  pub in_use : current < s.fresh
  pub set_in_use : (s.lists current).set < s.fresh
  pub top : (s.lists 0).next_is_parent ≡ false

-- The same current list and the same lists; the same sets, but for the set `own` and the `shared`
-- ones.
pub record Agrees (shared : ℕ → Bool) (own : ℕ) (s t : Scopes) : Type 0 where
  pub current : t.current_variable_set_list ≡ s.current_variable_set_list
  pub lists : (a : ℕ) → a < s.fresh → t.lists a ≡ s.lists a
  pub sets : (a : ℕ) → a < s.fresh → shared a ≡ false → (a == own) ≡ false → t.sets a ≡ s.sets a
  pub fresh : s.fresh ≤ t.fresh

-- All that is in use is the same, but for the `shared` sets.
pub record Restored (shared : ℕ → Bool) (s t : Scopes) : Type 0 where
  pub current : t.current_variable_set_list ≡ s.current_variable_set_list
  pub lists : (a : ℕ) → a < s.fresh → t.lists a ≡ s.lists a
  pub sets : (a : ℕ) → a < s.fresh → shared a ≡ false → t.sets a ≡ s.sets a
  pub fresh : s.fresh ≤ t.fresh

-- The sets that were in use in `s` are in `u` what they are in `t`.
abbrev pub Survives : Scopes → Scopes → Scopes → Type 0
Survives s t u = (a : ℕ) → a < s.fresh → u.sets a ≡ t.sets a

pub Agrees-trans :
    (shared : ℕ → Bool) (own : ℕ) (s t u : Scopes)
    → Agrees shared own s t
    → Agrees shared own t u
    → Agrees shared own s u
Agrees-trans shared own s t u h k = record {
  current = k.current ∙ h.current;
  lists = λ a lt. let le = h.fresh in k.lists a (omega arith) ∙ h.lists a lt;
  sets = λ a lt e other. let le = h.fresh in k.sets a (omega arith) e other ∙ h.sets a lt e other;
  fresh = let p = h.fresh in let q = k.fresh in omega arith;
}

pub Restored-trans :
    (shared : ℕ → Bool) (s t u : Scopes)
    → Restored shared s t
    → Restored shared t u
    → Restored shared s u
Restored-trans shared s t u h k = record {
  current = k.current ∙ h.current;
  lists = λ a lt. let le = h.fresh in k.lists a (omega arith) ∙ h.lists a lt;
  sets = λ a lt e. let le = h.fresh in k.sets a (omega arith) e ∙ h.sets a lt e;
  fresh = let p = h.fresh in let q = k.fresh in omega arith;
}

pub Restored-Agrees :
    (shared : ℕ → Bool) (own : ℕ) (s t : Scopes) → Restored shared s t → Agrees shared own s t
Restored-Agrees shared own s t h = record {
  current = h.current;
  lists = h.lists;
  sets = λ a lt e other. h.sets a lt e;
  fresh = h.fresh;
}

pub Agrees-IsScoped :
    (shared : ℕ → Bool) (own : ℕ) (s t : Scopes) → IsScoped s → Agrees shared own s t → IsScoped t
Agrees-IsScoped shared own s t v h =
    let bound = v.in_use in
    let set_bound = v.set_in_use in
    let le = h.fresh in
    record {
      current = v.current;
      is_current = h.current ∙ v.is_current;
      in_use = omega arith;
      set_in_use = rw (h.lists v.current bound) (omega arith);
      top = ap (λ (l : SetList). l.next_is_parent) (h.lists 0 (omega arith)) ∙ v.top;
    }

-- A set is assigned to.
pub assign-Agrees :
    (shared : ℕ → Bool) (own : ℕ) (s : Scopes) (set : List Variable) (change : Bool)
    → Agrees shared own s (bump change own (record s { sets = at own set s.sets }))
unfolding bump
assign-Agrees shared own s set change = elim (Bool-cases (change && (own == 0))) [
  | inl e ↦ rw e (record {
    current = refl;
    lists = λ a lt. refl;
    sets = λ a lt e other. at-other own a set s.sets other;
    fresh = omega arith;
  })
  | inr e ↦ rw e (record {
    current = refl;
    lists = λ a lt. refl;
    sets = λ a lt e other. at-other own a set s.sets other;
    fresh = omega arith;
  })
]

-- So nothing but a shared set is changed when one is assigned to.
pub Agrees-Restored :
    (shared : ℕ → Bool) (own : ℕ) (s t : Scopes)
    → shared own ≡ true
    → Agrees shared own s t
    → Restored shared s t
Agrees-Restored shared own s t allowed h = record {
  current = h.current;
  lists = h.lists;
  sets = λ a lt e. h.sets a lt e (elim (Bool-cases (a == own)) [
    | inl it ↦ let a=own : a ≡ own = ground arith in let same = ap shared a=own in absurd cc
    | inr other ↦ other
  ]);
  fresh = h.fresh;
}
