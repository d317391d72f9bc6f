-- ===== src/Strcache/Add.antt =====
-- `add_string`: the string is written where the result points, and what was there stays.
use make.Strcache.Read.{NoNul, c_string-drop, c_string-written, take-length}
use make.Strcache.Blocks.{
  IsBlock, NotAmong, AreBlocks, Found, find_space-Found, AreBlocks-middle, AreBlocks-put,
  AreBlocks-NotAmong, AreBlocks-at, Grows, Adds,
}
use make.Strcache.{
  Block, Pointer, Cache, u16, bufsize, c_string, string_at, new_cache, copy_string, find_space,
  add_large, add_to, add_found, add_string,
}
use make.Hash.{u64}
use make.Text.{Text}
use make.Prelude.{
  at-here, ℕ, ◌+◌, ◌/◌, ◌≤◌, ◌≡◌, refl, sym, ap, ◌∙◌, subst, false, ◌&&◌, Option, none, some, List,
  [], ◌∷◌, ◌++◌, ltb, ◌==◌, length, length-append, take, drop, inl, inr, Bool-cases, arith,
}

module _ (sp : Block) (str : Text) (s : Cache) where
  appended :
      IsBlock s.buffers s.fresh sp
      → take sp.end (s.buffers sp.address) ++ (str ++ 0 ∷ [])
        ≡ s.buffers sp.address ++ (str ++ 0 ∷ [])
  appended b =
      ap (λ t. t ++ (str ++ 0 ∷ []))
        (ap (λ n. take n (s.buffers sp.address)) b.written ∙ take-length (s.buffers sp.address))

  copy-IsBlock :
      IsBlock s.buffers s.fresh sp
      → length str + 1 ≤ sp.bytesfree
      → IsBlock (copy_string sp str s).2.buffers s.fresh (copy_string sp str s).1
  unfolding copy_string
  copy-IsBlock b le =
      let e = appended b in
      let w = b.written in
      let r = b.room in
      record {
        in_use = b.in_use;
        written =
            rw
              (
                at-here sp.address (take sp.end (s.buffers sp.address) ++ (str ++ 0 ∷ []))
                    s.buffers,
                e,
              )
              (omega (
                arith,
                length-append (s.buffers sp.address) (str ++ 0 ∷ []),
                length-append str (0 ∷ []),
              ));
        room = omega arith;
      }

  copy-reads :
      IsBlock s.buffers s.fresh sp
      → NoNul str
      → string_at (copy_string sp str s).2.buffers (copy_string sp str s).0 ≡ some str
  unfolding copy_string string_at
  copy-reads b h =
      let e = appended b in
      rw
        (
          at-here sp.address (take sp.end (s.buffers sp.address) ++ (str ++ 0 ∷ [])) s.buffers,
          e,
          b.written,
        )
        (c_string-written (s.buffers sp.address) str h)

  copy-Grows : IsBlock s.buffers s.fresh sp → Grows s (copy_string sp str s).2
  unfolding copy_string string_at
  copy-Grows b = record {
    fresh = omega arith;
    kept = λ p r lt e. elim (Bool-cases (p.block == sp.address)) [
      | inl same ↦
          let here : p.block ≡ sp.address = ground arith in
          let old : c_string (drop p.offset (s.buffers sp.address)) ≡ some r =
            ap (λ a. c_string (drop p.offset (s.buffers a))) (sym here) ∙ e in
          rw (same, appended b)
            (c_string-drop p.offset (s.buffers sp.address) (str ++ 0 ∷ []) r old)
      | inr other ↦ rw other e
    ];
  }

new_cache-Grows : (buflen : ℕ) (s : Cache) → Grows s (new_cache buflen s).1
unfolding new_cache string_at
new_cache-Grows buflen s = record {
  fresh = omega arith;
  kept = λ p r lt e. let other : (p.block == s.fresh) ≡ false = ground arith in rw other e;
}

new_cache-IsBlock :
    (buflen : ℕ) (s : Cache)
    → buflen ≤ 65535
    → IsBlock (new_cache buflen s).1.buffers (new_cache buflen s).1.fresh (new_cache buflen s).0
unfolding new_cache
new_cache-IsBlock buflen s le = record {
  in_use = omega arith;
  written = rw (at-here s.fresh [] s.buffers) refl;
  room = omega arith;
}

Grows-trans : (s t u : Cache) → Grows s t → Grows t u → Grows s u
Grows-trans s t u h k = record {
  fresh = let a = h.fresh in let b = k.fresh in omega arith;
  kept = λ p r lt e. let le = h.fresh in k.kept p r (omega arith) (h.kept p r lt e);
}

-- The block that the string goes into stands between others.
add_to-Adds :
    (str : Text) (before : List Block) (sp : Block) (after : List Block) (s : Cache)
    → NoNul str
    → length str + 1 ≤ sp.bytesfree
    → IsBlock s.buffers s.fresh sp
    → NotAmong sp.address (before ++ after)
    → AreBlocks s.buffers s.fresh (before ++ after)
    → Adds str s (add_to str before sp after s).0 (add_to str before sp after s).1
unfolding add_to copy_string
add_to-Adds str before sp after s h le b apart rest =
    elim (Bool-cases
      (ltb 20 t.total_strings && ltb sp'.bytesfree (t.total_size / t.total_strings + 1))) [
        | inl full ↦ rw full (result (before ++ after) (sp' ∷ t.fullcache) others)
        | inr roomy ↦ rw roomy (
            result (before ++ sp' ∷ after) t.fullcache (
              AreBlocks-put t.buffers t.fresh before sp' after (copy-IsBlock sp str s b le) apart
                others))
      ]
  where
    p : Pointer
    p = (copy_string sp str s).0

    t : Cache
    t = (copy_string sp str s).2

    sp' : Block
    sp' = (copy_string sp str s).1

    others : AreBlocks t.buffers t.fresh (before ++ after)
    others =
        AreBlocks-at s.buffers s.fresh sp.address
          (take sp.end (s.buffers sp.address) ++ (str ++ 0 ∷ [])) s.fresh (before ++ after)
          (omega arith) apart rest

    result :
        (l f : List Block)
        → AreBlocks t.buffers t.fresh l
        → Adds str s p (record t { strcache = l; fullcache = f })
    result l f ok =
        let g = copy-Grows sp str s b in
        record {
          grows = record { fresh = g.fresh; kept = g.kept };
          blocks = ok;
          in_use = b.in_use;
          reads = copy-reads sp str s b h;
          same = refl;
        }

add_large-Adds :
    (str : Text) (s : Cache)
    → NoNul str
    → length str ≤ 65534
    → AreBlocks s.buffers s.fresh s.strcache
    → Adds str s (add_large str s).0 (add_large str s).1
unfolding add_large copy_string new_cache
add_large-Adds str s h le ok =
    let buflen = u16 (length str + 1) in
    let new = (new_cache buflen s).0 in
    let t = (new_cache buflen s).1 in
    let b = new_cache-IsBlock buflen s (omega arith) in
    let g =
      Grows-trans s t (copy_string new str t).2 (new_cache-Grows buflen s)
        (copy-Grows new str t b) in
    let apart = AreBlocks-NotAmong s.buffers s.fresh s.strcache ok in
    let before =
      AreBlocks-at s.buffers s.fresh s.fresh [] (s.fresh + 1) s.strcache (omega arith) apart ok in
    record {
      grows = record { fresh = g.fresh; kept = g.kept };
      blocks =
          AreBlocks-at t.buffers t.fresh s.fresh (take 0 (t.buffers s.fresh) ++ (str ++ 0 ∷ []))
            t.fresh s.strcache (omega arith) apart before;
      in_use = b.in_use;
      reads = copy-reads new str t b h;
      same = refl;
    }

Adds-from :
    (str : Text) (s t : Cache) (r : Pointer × Cache)
    → Grows s t
    → t.strings ≡ s.strings
    → Adds str t r.0 r.1
    → Adds str s r.0 r.1
Adds-from str s t r g e a = record {
  grows = Grows-trans s t r.1 g a.grows;
  blocks = a.blocks;
  in_use = a.in_use;
  reads = a.reads;
  same = a.same ∙ e;
}

add_found-Adds :
    (str : Text) (sz : ℕ) (r : Option (List Block × Block × List Block)) (s : Cache)
    → NoNul str
    → length str + 1 ≤ sz
    → sz ≤ bufsize
    → Found sz s.strcache r
    → AreBlocks s.buffers s.fresh s.strcache
    → Adds str s (add_found str r s).0 (add_found str r s).1
unfolding add_found Found new_cache
add_found-Adds str sz none s h fits le found ok =
    let new = (new_cache bufsize s).0 in
    let t = (new_cache bufsize s).1 in
    let apart = AreBlocks-NotAmong s.buffers s.fresh s.strcache ok in
    let others =
      AreBlocks-at s.buffers s.fresh s.fresh [] (s.fresh + 1) s.strcache (omega arith) apart ok in
    Adds-from str s t (add_to str [] new t.strcache t) (new_cache-Grows bufsize s) refl (
      add_to-Adds str [] new t.strcache t h (omega arith)
        (new_cache-IsBlock bufsize s (omega arith)) apart others)
add_found-Adds str sz (some (before, sp, after)) s h fits le (e, lt) ok =
    let (is, apart, rest) =
      AreBlocks-middle s.buffers s.fresh before sp after
        (subst (AreBlocks s.buffers s.fresh) e ok) in
    add_to-Adds str before sp after s h (omega arith) is apart rest

-- A string that fits a buffer's length is added.
pub add_string-Adds :
    (str : Text) (s : Cache)
    → NoNul str
    → length str ≤ 65534
    → AreBlocks s.buffers s.fresh s.strcache
    → Adds str s (add_string str s).0 (add_string str s).1
unfolding add_string
add_string-Adds str s h le ok = elim (Bool-cases (ltb bufsize (u16 (length str + 1)))) [
  | inl large ↦ rw large (counted (add_large str t) (add_large-Adds str t h le ok))
  | inr fits ↦ rw fits (
      counted (add_found str (find_space (u16 (length str + 1)) s.strcache) t) (
        add_found-Adds str (u16 (length str + 1)) (find_space (u16 (length str + 1)) s.strcache) t h
          (omega arith) (ground arith) (find_space-Found (u16 (length str + 1)) s.strcache) ok))
]
  where
    t : Cache
    t = record s {
      total_strings = u64 (s.total_strings + 1);
      total_size = u64 (s.total_size + u16 (length str + 1));
    }

    counted : (r : Pointer × Cache) → Adds str t r.0 r.1 → Adds str s r.0 r.1
    counted r a = Adds-from str s t r (record { fresh = omega arith; kept = λ p x lt e. e }) refl a
