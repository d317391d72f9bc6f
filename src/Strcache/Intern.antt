-- ===== src/Strcache/Intern.antt =====
-- Interning: equal strings have one place in the cache, and different strings have different ones.
use make.Strcache.Read.{NoNul, c_string_end}
use make.Strcache.Blocks.{AreBlocks-NotAmong, AreBlocks-at, Grows, Adds}
use make.Strcache.Add.{add_string-Adds}
use make.Strcache.{
  Pointer, Cache, string_at, find_string, add_string, add_hugestring, add_slot, add_hash,
  strcache_add,
}
use make.Hash.{u64}
use make.Text.Equal.{streq-eq, streq_refl}
use make.Text.{Text, streq}
use make.Prelude.{
  at-here, ◌+◌, ◌≤◌, ◌≡◌, ◌↔◌, refl, sym, ap, ◌∙◌, true, false, Option, none, some, [], ◌∷◌, ◌++◌,
  ltb, ◌==◌, length, inl, inr, Bool-cases, arith,
}
use make.Strcache.Find.{IsCache, Interned, find_string-reads, grown, stored-same}

-- What an addition does to the cache.
pub record Interns (str : Text) (s : Cache) (p : Pointer) (t : Cache) : Type 0 where
  pub cache : IsCache t
  pub reads : string_at t.buffers p ≡ some str
  pub interned : length str ≤ 65534 → Interned str p t
  pub keeps : (a : Text) (q : Pointer) → Interned a q s → Interned a q t

hugestring-Interns :
    (str : Text) (s : Cache)
    → IsCache s
    → NoNul str
    → ltb 65534 (length str) ≡ true
    → Interns str s (add_hugestring str s).0 (add_hugestring str s).1
unfolding add_hugestring string_at
hugestring-Interns str s v h large =
    let t = (add_hugestring str s).1 in
    let apart = AreBlocks-NotAmong s.buffers s.fresh s.strcache v.blocks in
    let g : Grows s t = record {
      fresh = omega arith;
      kept = λ p r lt e. let other : (p.block == s.fresh) ≡ false = ground arith in rw other e;
    } in
    record {
      cache = record {
        blocks =
            AreBlocks-at s.buffers s.fresh s.fresh (str ++ 0 ∷ []) (s.fresh + 1) s.strcache
              (omega arith) apart v.blocks;
        stored = stored-same s t v g refl;
      };
      reads = rw (at-here s.fresh (str ++ 0 ∷ []) s.buffers) (c_string_end str h);
      interned = λ le. absurd (ground arith);
      keeps = λ a q k. grown s t a q v g refl k;
    }

slot-Interns :
    (str : Text) (s : Cache) (r : Option Pointer)
    → IsCache s
    → NoNul str
    → length str ≤ 65534
    → find_string s.buffers str s.strings ≡ r
    → Interns str s (add_slot str r s).0 (add_slot str r s).1
unfolding add_slot find_string
slot-Interns str s (some key) v h le e =
    let here = find_string-reads s.buffers str s.strings key e in
    record {
      cache = v;
      reads = here;
      interned = λ le. record { finds = e; reads = here };
      keeps = λ a q k. k;
    }
slot-Interns str s none v h le e = record {
  cache = record {
    blocks = a.blocks;
    stored = ((a.in_use, str, a.reads), stored-same s t v a.grows a.same);
  };
  reads = a.reads;
  interned = λ le. record { finds = rw (a.reads, streq_refl str) refl; reads = a.reads };
  keeps = λ b q k. elim (Bool-cases (streq str b)) [
    | inl same ↦
        let b=str : str ≡ b = streq-eq str b same in
        let missing : find_string s.buffers b s.strings ≡ none =
          ap (λ x. find_string s.buffers x s.strings) (sym b=str) ∙ e in
        let finds = k.finds in absurd cc
    | inr other ↦
        let old = grown s t b q v a.grows a.same k in
        record { finds = rw (a.reads, other) old.finds; reads = old.reads }
  ];
}
  where
    t : Cache
    t = (add_string str s).1

    a : Adds str s (add_string str s).0 (add_string str s).1
    a = add_string-Adds str s h le v.blocks

strcache_add-Interns :
    (str : Text) (s : Cache)
    → IsCache s
    → NoNul str
    → Interns str s (strcache_add str s).0 (strcache_add str s).1
unfolding strcache_add add_hash
strcache_add-Interns str s v h = elim (Bool-cases (ltb 65534 (length str))) [
  | inl large ↦ rw large (hugestring-Interns str s v h large)
  | inr small ↦
      let t = record s { total_adds = u64 (s.total_adds + 1) } in
      let w : IsCache t = record { blocks = v.blocks; stored = v.stored } in
      let r = slot-Interns str t (find_string s.buffers str s.strings) w h (ground arith) refl in
      rw small (record {
        cache = r.cache;
        reads = r.reads;
        interned = r.interned;
        keeps = λ a q k. r.keeps a q (record { finds = k.finds; reads = k.reads });
      })
]

-- Strings are added one after the other.
pub data Uses : Cache → Cache → Type 0 where
  unused : (s : Cache) → Uses s s
  uses : (s t : Cache) (str : Text) → NoNul str → Uses s t → Uses s (strcache_add str t).1

-- What stays through any number of additions.
Uses-keeps :
    (s t : Cache)
    → IsCache s
    → Uses s t
    → IsCache t × ((a : Text) (q : Pointer) → Interned a q s → Interned a q t)
Uses-keeps _ _ v (unused s) = (v, λ a q k. k)
Uses-keeps _ _ v (uses s t str h b) =
    let (w, keep) = Uses-keeps s t v b in
    let r = strcache_add-Interns str t w h in (r.cache, λ a q k. r.keeps a q (keep a q k))

-- In a cache in order, two strings without NUL that are not too large for it, added with any other
-- additions between them, get the same pointer exactly when they are equal, and after that both
-- pointers point to the strings that were added.
pub strcache_add_unique :
    (s t : Cache) (a b : Text)
    → IsCache s
    → NoNul a
    → NoNul b
    → length a ≤ 65534
    → length b ≤ 65534
    → Uses (strcache_add a s).1 t
    → (((strcache_add a s).0 ≡ (strcache_add b t).0) ↔ (a ≡ b))
      × (string_at (strcache_add b t).1.buffers (strcache_add a s).0 ≡ some a)
      × (string_at (strcache_add b t).1.buffers (strcache_add b t).0 ≡ some b)
strcache_add_unique s t a b v ha hb la lb between =
    let first = strcache_add-Interns a s v ha in
    let (w, keep) = Uses-keeps (strcache_add a s).1 t first.cache between in
    let second = strcache_add-Interns b t w hb in
    let p = (strcache_add a s).0 in
    let q = (strcache_add b t).0 in
    let u = (strcache_add b t).1 in
    let at_p : Interned a p u = second.keeps a p (keep a p (first.interned la)) in
    let at_q : Interned b q u = second.interned lb in
    (
      (
        (λ e.
            let same : some a ≡ some b = sym at_p.reads ∙ ap (string_at u.buffers) e ∙ at_q.reads in
            cc),
        λ e.
            let same : some p ≡ some q =
              sym at_p.finds ∙ ap (λ x. find_string u.buffers x u.strings) e ∙ at_q.finds in
            cc,
      ),
      at_p.reads,
      at_q.reads,
    )
