-- ===== src/Strcache/Blocks.antt =====
-- The blocks with free space: their bookkeeping is right, and no two of them share memory.
use make.Strcache.{Block, Pointer, Cache, string_at, find_space}
use make.Text.{Text}
use make.Prelude.{
  at, at-other, ℕ, ◌+◌, ◌≤◌, ◌<◌, ◌≡◌, refl, sym, ap, ◌∙◌, false, Option, none, some, List, [], ◌∷◌,
  ◌++◌, ltb, ◌==◌, ◌>>=◌, length, inl, inr, Bool-cases, arith,
}

-- A block in use: `end` bytes are written, and `end` and `bytesfree` stay in their type.
pub record IsBlock (buffers : ℕ → Text) (fresh : ℕ) (b : Block) : Type 0 where
  pub in_use : b.address < fresh
  pub written : b.end ≡ length (buffers b.address)
  pub room : b.end + b.bytesfree ≤ 65535

abbrev pub NotAmong : ℕ → List Block → Type 0
NotAmong a [] = Unit
NotAmong a (b ∷ bs) = ((b.address == a) ≡ false) × NotAmong a bs

abbrev pub AreBlocks : (ℕ → Text) → ℕ → List Block → Type 0
AreBlocks buffers fresh [] = Unit
AreBlocks buffers fresh (b ∷ bs) =
    IsBlock buffers fresh b × NotAmong b.address bs × AreBlocks buffers fresh bs

unfoldable pub Found : ℕ → List Block → Option (List Block × Block × List Block) → Type 0
Found sz bs none = Unit
Found sz bs (some (before, sp, after)) = (bs ≡ before ++ sp ∷ after) × (sz < sp.bytesfree)

pub find_space-Found : (sz : ℕ) (bs : List Block) → Found sz bs (find_space sz bs)
unfolding find_space Found
find_space-Found sz [] = tt
find_space-Found sz (b ∷ bs) = elim (Bool-cases (ltb sz b.bytesfree)) [
  | inl fits ↦ rw fits (refl, ground arith)
  | inr full ↦ rw full (go (find_space sz bs) (find_space-Found sz bs))
]
  where
    go :
        (r : Option (List Block × Block × List Block))
        → Found sz bs r
        → Found sz (b ∷ bs) (r >>= λ (before, sp, after). some (b ∷ before, sp, after))
    go none h = tt
    go (some (before, sp, after)) (e, lt) = (ap (λ l. b ∷ l) e, lt)

flip : (a b : ℕ) → (a == b) ≡ false → (b == a) ≡ false
flip a b h = ground arith

NotAmong-middle :
    (a : ℕ) (before : List Block) (sp : Block) (after : List Block)
    → NotAmong a (before ++ sp ∷ after)
    → ((sp.address == a) ≡ false) × NotAmong a (before ++ after)
NotAmong-middle a [] sp after h = h
NotAmong-middle a (b ∷ before) sp after (n, h) =
    let (m, k) = NotAmong-middle a before sp after h in (m, (n, k))

NotAmong-put :
    (a : ℕ) (before : List Block) (sp : Block) (after : List Block)
    → (sp.address == a) ≡ false
    → NotAmong a (before ++ after)
    → NotAmong a (before ++ sp ∷ after)
NotAmong-put a [] sp after n h = (n, h)
NotAmong-put a (b ∷ before) sp after n (m, h) = (m, NotAmong-put a before sp after n h)

module _ (buffers : ℕ → Text) (fresh : ℕ) where
  pub AreBlocks-middle :
      (before : List Block) (sp : Block) (after : List Block)
      → AreBlocks buffers fresh (before ++ sp ∷ after)
      → IsBlock buffers fresh sp
        × NotAmong sp.address (before ++ after)
        × AreBlocks buffers fresh (before ++ after)
  AreBlocks-middle [] sp after h = h
  AreBlocks-middle (b ∷ before) sp after (k, n, h) =
      let (other, apart) = NotAmong-middle b.address before sp after n in
      let (is, among, rest) = AreBlocks-middle before sp after h in
      (is, (flip sp.address b.address other, among), (k, apart, rest))

  pub AreBlocks-put :
      (before : List Block) (sp : Block) (after : List Block)
      → IsBlock buffers fresh sp
      → NotAmong sp.address (before ++ after)
      → AreBlocks buffers fresh (before ++ after)
      → AreBlocks buffers fresh (before ++ sp ∷ after)
  AreBlocks-put [] sp after is n h = (is, n, h)
  AreBlocks-put (b ∷ before) sp after is (m, n) (k, apart, h) = (
    k,
    NotAmong-put b.address before sp after (flip b.address sp.address m) apart,
    AreBlocks-put before sp after is n h,
  )

  pub AreBlocks-NotAmong : (bs : List Block) → AreBlocks buffers fresh bs → NotAmong fresh bs
  AreBlocks-NotAmong [] h = tt
  AreBlocks-NotAmong (b ∷ bs) (k, n, h) =
      let lt = k.in_use in (ground arith, AreBlocks-NotAmong bs h)

  -- Memory that no block of the list owns is written.
  pub AreBlocks-at :
      (a : ℕ) (t : Text) (more : ℕ) (bs : List Block)
      → fresh ≤ more
      → NotAmong a bs
      → AreBlocks buffers fresh bs
      → AreBlocks (at a t buffers) more bs
  AreBlocks-at a t more [] le n h = tt
  AreBlocks-at a t more (b ∷ bs) le (m, n) (k, apart, h) =
      let lt = k.in_use in
      (
        record {
          in_use = omega arith;
          written = k.written ∙ ap length (sym (at-other a b.address t buffers m));
          room = k.room;
        },
        apart,
        AreBlocks-at a t more bs le n h,
      )

-- Strings in memory that was in use stay.
pub record Grows (s t : Cache) : Type 0 where
  pub fresh : s.fresh ≤ t.fresh
  pub kept :
      (p : Pointer) (r : Text)
      → p.block < s.fresh
      → string_at s.buffers p ≡ some r
      → string_at t.buffers p ≡ some r

-- The string stands at the place, and the blocks are right.
pub record Adds (str : Text) (s : Cache) (p : Pointer) (t : Cache) : Type 0 where
  pub grows : Grows s t
  pub blocks : AreBlocks t.buffers t.fresh t.strcache
  pub in_use : p.block < t.fresh
  pub reads : string_at t.buffers p ≡ some str
  pub same : t.strings ≡ s.strings
