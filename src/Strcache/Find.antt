-- ===== src/Strcache/Find.antt =====
-- The hash table of strings while the memory grows.
use make.Strcache.Blocks.{AreBlocks, Grows}
use make.Strcache.{Pointer, Cache, string_at, is_string, find_string}
use make.Text.Equal.{streq-eq}
use make.Text.{Text, streq}
use make.Prelude.{
  ℕ, ◌<◌, ◌≡◌, refl, sym, ap, ◌∙◌, subst, true, false, Option, none, some, List, [], ◌∷◌, inl, inr,
  Bool-cases, arith,
}

-- The pointers in the hash table point to strings in memory that is in use.
abbrev pub AllStored : (ℕ → Text) → ℕ → List Pointer → Type 0
AllStored buffers fresh [] = Unit
AllStored buffers fresh (p ∷ ps) =
    ((p.block < fresh) × (r : Text) × (string_at buffers p ≡ some r)) × AllStored buffers fresh ps

pub record IsCache (s : Cache) : Type 0 where
  pub blocks : AreBlocks s.buffers s.fresh s.strcache
  pub stored : AllStored s.buffers s.fresh s.strings

-- The hash table has the string, at the place.
pub record Interned (str : Text) (p : Pointer) (s : Cache) : Type 0 where
  pub finds : find_string s.buffers str s.strings ≡ some p
  pub reads : string_at s.buffers p ≡ some str

module _ (s t : Cache) (g : Grows s t) where
  AllStored-grows :
      (ps : List Pointer) → AllStored s.buffers s.fresh ps → AllStored t.buffers t.fresh ps
  AllStored-grows [] h = tt
  AllStored-grows (p ∷ ps) ((lt, r, e), h) =
      let le = g.fresh in ((omega arith, r, g.kept p r lt e), AllStored-grows ps h)

  find_string-grows :
      (str : Text) (ps : List Pointer)
      → AllStored s.buffers s.fresh ps
      → find_string t.buffers str ps ≡ find_string s.buffers str ps
  unfolding find_string
  find_string-grows str [] h = refl
  find_string-grows str (p ∷ ps) ((lt, r, e), h) =
      let now = g.kept p r lt e in
      elim (Bool-cases (streq r str)) [
        | inl same ↦ rw (now, e, same) refl
        | inr other ↦ rw (now, e, other) (find_string-grows str ps h)
      ]

-- A place that is found is one where the string stands.
pub find_string-reads :
    (buffers : ℕ → Text) (str : Text) (ps : List Pointer) (p : Pointer)
    → find_string buffers str ps ≡ some p
    → string_at buffers p ≡ some str
unfolding find_string
find_string-reads buffers str [] p e = absurd cc
find_string-reads buffers str (q ∷ ps) p e =
    go (string_at buffers q) refl (find_string-reads buffers str ps p)
  where
    later :
        (find_string buffers str ps ≡ some p → string_at buffers p ≡ some str)
        → is_string str (string_at buffers q) ≡ false
        → string_at buffers p ≡ some str
    later rec other = let next : find_string buffers str ps ≡ some p = rw other at e in rec next

    go :
        (o : Option Text)
        → string_at buffers q ≡ o
        → (find_string buffers str ps ≡ some p → string_at buffers p ≡ some str)
        → string_at buffers p ≡ some str
    go none f rec = later rec (ap (is_string str) f)
    go (some r) f rec = elim (Bool-cases (streq r str)) [
      | inl same ↦
          let hit : is_string str (string_at buffers q) ≡ true = ap (is_string str) f ∙ same in
          let here : some q ≡ some p = rw hit at e in
          let q=p : q ≡ p = cc in
          subst (λ x. string_at buffers x ≡ some str) q=p (f ∙ ap some (streq-eq r str same))
      | inr other ↦ later rec (ap (is_string str) f ∙ other)
    ]

-- A place that is found is in use.
find_string_in_use :
    (buffers : ℕ → Text) (fresh : ℕ) (str : Text) (ps : List Pointer) (p : Pointer)
    → AllStored buffers fresh ps
    → find_string buffers str ps ≡ some p
    → p.block < fresh
unfolding find_string
find_string_in_use buffers fresh str [] p h e = absurd cc
find_string_in_use buffers fresh str (q ∷ ps) p ((lt, r, f), h) e =
    elim (Bool-cases (is_string str (string_at buffers q))) [
      | inl hit ↦
          let here : some q ≡ some p = rw hit at e in
          let q=p : q ≡ p = cc in subst (λ (x : Pointer). x.block < fresh) q=p lt
      | inr other ↦
          let next : find_string buffers str ps ≡ some p = rw other at e in
          find_string_in_use buffers fresh str ps p h next
    ]

pub grown :
    (s t : Cache) (a : Text) (q : Pointer)
    → IsCache s
    → Grows s t
    → t.strings ≡ s.strings
    → Interned a q s
    → Interned a q t
grown s t a q v g same h = record {
  finds =
      ap (find_string t.buffers a) same ∙ find_string-grows s t g a s.strings v.stored ∙ h.finds;
  reads = g.kept q a (find_string_in_use s.buffers s.fresh a s.strings q v.stored h.finds) h.reads;
}

pub stored-same :
    (s t : Cache)
    → IsCache s
    → Grows s t
    → t.strings ≡ s.strings
    → AllStored t.buffers t.fresh t.strings
stored-same s t v g same =
    subst (AllStored t.buffers t.fresh) (sym same) (AllStored-grows s t g s.strings v.stored)
