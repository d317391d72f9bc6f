-- ===== src/Variable/Pushed.antt =====
-- A scope that is pushed, on the global one or on another, and the pop that closes it.
use make.Variable.Scopes.{
  SetList, Scopes, create_new_variable_set, swap_global, push_new_variable_scope, pop_from,
  pop_variable_scope,
}
use make.Variable.Restore.{IsScoped, Agrees, Restored, Survives}
use make.Prelude.{
  at, at-other, at-here, ℕ, ◌+◌, ◌<◌, ◌≡◌, refl, sym, ap, ◌∙◌, subst, Bool, false, some, [], ◌==◌,
  ==_refl, ◌>>=◌, Returns, inl, inr, Bool-cases, arith,
}

abbrev local_node : ℕ → Scopes → SetList
local_node c s = record { next = some c; set = s.fresh; next_is_parent = false }

abbrev local_scope : ℕ → Scopes → Scopes
local_scope c s = record s {
  sets = at s.fresh [] s.sets;
  lists = at s.fresh (local_node c s) s.lists;
  current_variable_set_list = some s.fresh;
  fresh = s.fresh + 1;
}

-- The node that a scope pushed on the global one makes, and the global node.
abbrev behind : Scopes → SetList
behind s = record { next = (s.lists 0).next; set = (s.lists 0).set; next_is_parent = false }

abbrev before : Scopes → SetList
before s = record {
  next = some s.fresh;
  set = s.fresh;
  next_is_parent = (s.lists 0).next_is_parent;
}

abbrev global_scope : Scopes → Scopes
global_scope s = record s {
  sets = at s.fresh [] s.sets;
  lists = at 0 (before s) (at s.fresh (behind s) (at s.fresh (local_node 0 s) s.lists));
  current_variable_set_list = some 0;
  fresh = s.fresh + 1;
}

push-local :
    (s : Scopes) (c : ℕ)
    → s.current_variable_set_list ≡ some c
    → (c == 0) ≡ false
    → push_new_variable_scope s ≡ local_scope c s
unfolding push_new_variable_scope create_new_variable_set
push-local s c e n = rw (==_refl s.fresh, e, n) refl

push-global :
    (s : Scopes)
    → s.current_variable_set_list ≡ some 0
    → 0 < s.fresh
    → push_new_variable_scope s ≡ global_scope s
unfolding push_new_variable_scope create_new_variable_set swap_global
push-global s e lt =
    let nonzero : (0 == s.fresh) ≡ false = ground arith in rw (==_refl s.fresh, e, nonzero) refl

-- Popping a scope that was pushed on another one.
pop-local :
    (shared : ℕ → Bool) (s t : Scopes) (c : ℕ)
    → s.current_variable_set_list ≡ some c
    → 0 < s.fresh
    → Agrees shared s.fresh (local_scope c s) t
    → Returns (pop_variable_scope t) (λ u. Restored shared s u × Survives s t u)
unfolding pop_variable_scope pop_from
pop-local shared s t c e lt h =
    let node = local_node c s in
    let here : t.lists s.fresh ≡ node =
      h.lists s.fresh (omega arith) ∙ at-here s.fresh node s.lists in
    let nonzero : (s.fresh == 0) ≡ false = ground arith in
    (
      record t { sets = at s.fresh [] t.sets; current_variable_set_list = some c },
      rw (h.current, here, nonzero, here, ◌>>=◌) refl,
      (
        record {
          current = sym e;
          lists = λ a b.
              let other : (a == s.fresh) ≡ false = ground arith in
              h.lists a (omega arith) ∙ at-other s.fresh a node s.lists other;
          sets = λ a b no.
              let other : (a == s.fresh) ≡ false = ground arith in
              at-other s.fresh a [] t.sets other
              ∙ h.sets a (omega arith) no other
              ∙ at-other s.fresh a [] s.sets other;
          fresh = let le = h.fresh in omega arith;
        },
        λ a b. at-other s.fresh a [] t.sets (ground arith),
      ),
    )

behind-lists : (s : Scopes) → (s.lists 0).next_is_parent ≡ false → behind s ≡ s.lists 0
behind-lists s top =
    ap (λ (b : Bool). record { next = (s.lists 0).next; set = (s.lists 0).set; next_is_parent = b })
      (sym top)

-- Popping a scope that was pushed on the global one.
pop-global :
    (shared : ℕ → Bool) (s t : Scopes)
    → s.current_variable_set_list ≡ some 0
    → 0 < s.fresh
    → (s.lists 0).next_is_parent ≡ false
    → Agrees shared s.fresh (global_scope s) t
    → Returns (pop_variable_scope t) (λ u. Restored shared s u × Survives s t u)
unfolding pop_variable_scope pop_from
pop-global shared s t e lt top h =
    let here : t.lists 0 ≡ before s = h.lists 0 (omega arith) in
    let nonzero : (s.fresh == 0) ≡ false = ground arith in
    let pushed : (global_scope s).lists s.fresh ≡ behind s = rw (nonzero, ==_refl s.fresh) refl in
    let beyond : t.lists s.fresh ≡ behind s = h.lists s.fresh (omega arith) ∙ pushed in
    (
      record t { sets = at s.fresh [] t.sets; lists = at 0 (behind s) t.lists },
      rw (h.current, here, beyond, here, ◌>>=◌) refl,
      (
        record {
          current = h.current ∙ sym e;
          lists = λ a b. elim (Bool-cases (a == 0)) [
            | inl global ↦ let a=0 : a ≡ 0 = ground arith in rw a=0 (behind-lists s top)
            | inr other ↦
                let old : (a == s.fresh) ≡ false = ground arith in
                rw other (h.lists a (omega arith) ∙ rw (other, old) refl)
          ];
          sets = λ a b no.
              let other : (a == s.fresh) ≡ false = ground arith in
              at-other s.fresh a [] t.sets other
              ∙ h.sets a (omega arith) no other
              ∙ at-other s.fresh a [] s.sets other;
          fresh = let le = h.fresh in omega arith;
        },
        λ a b. at-other s.fresh a [] t.sets (ground arith),
      ),
    )

-- A scope to work in, which a pop closes so that all that was in use in `s` is restored.
pub record Opens (shared : ℕ → Bool) (s p : Scopes) : Type 0 where
  pub scoped : IsScoped p
  pub pops :
      (t : Scopes)
      → Agrees shared ((p.lists scoped.current).set) p t
      → Returns (pop_variable_scope t) (λ u. Restored shared s u × Survives s t u)

pub push-Opens :
    (shared : ℕ → Bool) (s : Scopes) → IsScoped s → Opens shared s (push_new_variable_scope s)
push-Opens shared s v = elim (Bool-cases (v.current == 0)) [
  | inl global ↦
      let c=0 : v.current ≡ 0 = ground arith in
      let e : s.current_variable_set_list ≡ some 0 = v.is_current ∙ ap some c=0 in
      let bound = v.in_use in
      let positive : 0 < s.fresh = omega arith in
      subst (Opens shared s) (sym (push-global s e positive)) (record {
        scoped = record {
          current = 0;
          is_current = refl;
          in_use = omega arith;
          set_in_use = omega arith;
          top = v.top;
        };
        pops = λ t h. pop-global shared s t e positive v.top h;
      })
  | inr other ↦
      let bound = v.in_use in
      subst (Opens shared s) (sym (push-local s v.current v.is_current other)) (record {
        scoped = record {
          current = s.fresh;
          is_current = refl;
          in_use = omega arith;
          set_in_use = rw (at-here s.fresh (local_node v.current s) s.lists) (omega arith);
          top =
              ap (λ (l : SetList). l.next_is_parent)
                (at-other s.fresh 0 (local_node v.current s) s.lists (ground arith))
              ∙ v.top;
        };
        pops = λ t h. pop-local shared s t v.current v.is_current (omega arith) (
            subst (λ own. Agrees shared own (local_scope v.current s) t)
              (ap (λ (l : SetList). l.set) (at-here s.fresh (local_node v.current s) s.lists)) h);
      })
]
