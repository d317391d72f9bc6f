-- ===== src/Hash/Scan.antt =====
-- `hash_find_slot` on a table that has an empty slot: it ends, and what it finds.
use native.Mathlib.Nat.{mod-lt}
use make.Bits.{pow_pos}
use make.Hash.Chain.{IsVacant, Chain, here, next, Chain-inv, index_mod, u32_mod, step_mod}
use make.Hash.{KeyFuncs, Slot, empty, deleted, item, first, HashTable, u32, u64, increment, probe}
use make.Prelude.{
  ℕ, zero, suc, ◌+◌, ◌-◌, ◌*◌, ◌%◌, ◌^◌, ◌≤◌, ◌<◌, ◌≡◌, ◌≢◌, ◌⊎◌, inl, inr, refl, sym, ap, ◌∙◌,
  bit_and, true, false, ◌||◌, Option, none, some, List, length, get_elem?, get_elem?_total,
  Bool-cases, Returns, subst, arith,
}

module _ {ℓ} {A : Type ℓ} ⦃fns : KeyFuncs A⦄ where
  abbrev pub IsHit : List (Slot A) → A → ℕ → Type ℓ
  IsHit vec key r = (y : A) × (get_elem? vec r ≡ some (item y)) × (fns.compare key y ≡ true)

  -- Where an unsuccessful search lands, given the deleted slot that it has met.
  abbrev pub Lands : List (Slot A) → ℕ → ℕ → Option ℕ → ℕ → ℕ → Type ℓ
  Lands vec n s none i r = Chain vec n s r i × IsVacant vec r
  Lands vec n s (some d) i r = Unit × (r ≡ d)

  -- No item that the walk reaches has the key.
  abbrev pub IsAbsent : List (Slot A) → ℕ → ℕ → A → ℕ → Type ℓ
  IsAbsent vec n s key i =
      (j : ℕ) (y : A)
      → get_elem? vec j ≡ some (item y)
      → fns.compare key y ≡ true
      → Chain vec n s j i
      → ⊥

  abbrev pub Outcome : List (Slot A) → ℕ → ℕ → A → Option ℕ → ℕ → ℕ → Type ℓ
  Outcome vec n s key d i r = IsHit vec key r ⊎ (Lands vec n s d i r × IsAbsent vec n s key i)

  module _ (vec : List (Slot A)) (n s : ℕ) (key : A) (i : ℕ) where
    ends_empty : (d : Option ℕ) → get_elem? vec i ≡ some empty → Outcome vec n s key d i (first d i)
    ends_empty d e = inr (lands d, absent)
      where
        lands : (d : Option ℕ) → Lands vec n s d i (first d i)
        lands none = (here, inl e)
        lands (some x) = (tt, refl)

        absent : IsAbsent vec n s key i
        absent j y at same c = elim (Chain-inv c) [
          | inl j=i ↦ cc (ap (get_elem? vec) j=i)
          | inr (used, _) ↦ used e
        ]

    passes_deleted :
        (d : Option ℕ) (r : ℕ)
        → get_elem? vec i ≡ some deleted
        → Outcome vec n s key (some (first d i)) ((i + s) % n) r
        → Outcome vec n s key d i r
    passes_deleted d r e (inl hit) = inl hit
    passes_deleted d r e (inr (landed, absent)) = inr (lands d landed.1, absent')
      where
        used : get_elem? vec i ≢ some empty
        used e' = cc

        lands : (d : Option ℕ) → r ≡ first d i → Lands vec n s d i r
        lands none e' = subst (λ m. Lands vec n s none i m) (sym e') (here, inr e)
        lands (some x) e' = (tt, e')

        absent' : IsAbsent vec n s key i
        absent' j y at same c = elim (Chain-inv c) [
          | inl j=i ↦ cc (ap (get_elem? vec) j=i)
          | inr (_, c') ↦ absent j y at same c'
        ]

    passes_item :
        (d : Option ℕ) (r : ℕ) (x : A)
        → get_elem? vec i ≡ some (item x)
        → fns.compare key x ≡ false
        → Outcome vec n s key d ((i + s) % n) r
        → Outcome vec n s key d i r
    passes_item d r x e other (inl hit) = inl hit
    passes_item d r x e other (inr (landed, absent)) = inr (lands d landed, absent')
      where
        lands : (d : Option ℕ) → Lands vec n s d ((i + s) % n) r → Lands vec n s d i r
        lands none l = (next (λ e'. cc) l.0, l.1)
        lands (some x) l = l

        absent' : IsAbsent vec n s key i
        absent' j y at same c = elim (Chain-inv c) [
          | inl j=i ↦ cc (ap (get_elem? vec) j=i)
          | inr (_, c') ↦ absent j y at same c'
        ]

  -- The walk from hash `h` over a table of `2 ^ k` slots, with an empty slot after `m` steps.
  module _ (t : HashTable A) (key : A) (k s : ℕ) (small : k ≤ 32) (wide : t.size ≡ 2 ^ k)
      (long : length t.vec ≡ 2 ^ k) where
    abbrev Answer : Option ℕ → ℕ → ℕ × ℕ → Type ℓ
    Answer d i r = Outcome t.vec (2 ^ k) s key d i r.0

    index_of : (h : ℕ) → bit_and h (u64 (t.size + 2 ^ 64 - 1)) ≡ h % 2 ^ k
    index_of h = rw wide (index_mod k small h)

    -- One round, given the rounds after it.
    round :
        (fuel h h₂ : ℕ) (d : Option ℕ) (c : ℕ) (x : Slot A)
        → increment key h₂ ≡ s
        → get_elem? t.vec (h % 2 ^ k) ≡ some x
        → (x ≢ empty
            → (d' : Option ℕ) (c' : ℕ)
            → Returns
                (probe fuel t key (u32 (h % 2 ^ k + s)) s d' c')
                (Answer d' ((h % 2 ^ k + s) % 2 ^ k)))
        → Returns (probe (suc fuel) t key h h₂ d c) (Answer d (h % 2 ^ k))
    unfolding probe
    round fuel h h₂ d c empty e at later = (
      (first d (h % 2 ^ k), c),
      rw (index_of h, at, probe) (rw (index_of h)),
      ends_empty t.vec (2 ^ k) s key (h % 2 ^ k) d at,
    )
    round fuel h h₂ d c deleted e at later =
        let (r, run, out) = later (λ q. cc) (some (first d (h % 2 ^ k))) c in
        (
          r,
          rw (index_of h, at, probe) (rw (index_of h, e) run),
          passes_deleted t.vec (2 ^ k) s key (h % 2 ^ k) d r.0 at out,
        )
    round fuel h h₂ d c (item y) e at later =
        elim (Bool-cases (fns.same key y || fns.compare key y)) [
          | inl hit ↦ (
            (h % 2 ^ k, c),
            rw (index_of h, at, hit, probe) (rw (index_of h)),
            inl (y, at, matches hit),
          )
          | inr miss ↦
              let (r, run, out) = later (λ q. cc) d (u64 (c + 1)) in
              (
                r,
                rw (index_of h, at, miss, probe) (rw (index_of h, e) run),
                passes_item t.vec (2 ^ k) s key (h % 2 ^ k) d r.0 y at (ground arith) out,
              )
        ]
      where
        matches : (fns.same key y || fns.compare key y) ≡ true → fns.compare key y ≡ true
        matches hit = elim (Bool-cases (fns.same key y)) [
          | inl q ↦
              subst (λ z. fns.compare key z ≡ true) (fns.same_eq key y q) (fns.compare_refl key)
          | inr q ↦ ground arith
        ]

    pub probe-Ends :
        (fuel h h₂ : ℕ) (d : Option ℕ) (c m : ℕ)
        → increment key h₂ ≡ s
        → increment key s ≡ s
        → m < fuel
        → get_elem? t.vec ((h + m * s) % 2 ^ k) ≡ some empty
        → Returns (probe fuel t key h h₂ d c) (Answer d (h % 2 ^ k))
    probe-Ends zero h h₂ d c m e stable below hole = absurd (omega arith)
    probe-Ends (suc fuel) h h₂ d c zero e stable below hole =
        let at : get_elem? t.vec (h % 2 ^ k) ≡ some empty =
          ap (λ x. get_elem? t.vec (x % 2 ^ k)) (omega arith) ∙ hole in
        round fuel h h₂ d c empty e at (λ q. absurd (q refl))
    probe-Ends (suc fuel) h h₂ d c (suc m) e stable below hole =
        let (x, at) = get_elem?_total t.vec (h % 2 ^ k) (rw long (mod-lt h (pow_pos k))) in
        round fuel h h₂ d c x e at λ used d' c'. rw (u32_mod k small (h % 2 ^ k + s)) at (
          probe-Ends fuel (u32 (h % 2 ^ k + s)) s d' c' m stable stable (omega arith)
            (ap (get_elem? t.vec) (step_mod k small h s m) ∙ hole))
