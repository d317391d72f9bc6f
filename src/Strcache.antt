-- ===== src/Strcache.antt =====
-- src/strcache.c: the cache of strings. `buffers` is the memory behind the blocks, by address, as
-- far as it is written; a pointer into the cache is a `Pointer`. The hash table `strings` stands as
-- the list of the pointers in it, which are compared by the strings that they point to.
pub mod Read
pub mod Blocks
pub mod Add
pub mod Find
pub mod Intern
use make.Hash.{u64}
use make.Text.{Text, streq}
use make.Prelude.{
  at, ℕ, zero, suc, ◌+◌, ◌-◌, ◌*◌, ◌/◌, ◌%◌, ◌^◌, Bool, true, false, ◌&&◌, ◌||◌, Option, none, some,
  List, [], ◌∷◌, ◌++◌, ltb, leb, ◌==◌, if◌then◌else◌, ◌>>=◌, length, take, drop,
}

-- `sc_buflen_t`
abbrev pub u16 : ℕ → ℕ
u16 x = x % 2 ^ 16

-- `struct strcache`
pub record Block : Type 0 where
  pub address : ℕ
  pub end : ℕ
  pub bytesfree : ℕ
  pub count : ℕ

pub record Pointer : Type 0 where
  pub block : ℕ
  pub offset : ℕ

-- Addresses from `fresh` on are not in use.
pub record Cache : Type 0 where
  pub buffers : ℕ → Text
  pub strcache : List Block
  pub fullcache : List Block
  pub hugestrings : List ℕ
  pub strings : List Pointer
  pub fresh : ℕ
  pub total_buffers : ℕ
  pub total_strings : ℕ
  pub total_size : ℕ
  pub total_adds : ℕ

-- BUFSIZE where `size_t` has 8 bytes and the members before `buffer` have 14.
abbrev pub bufsize : ℕ
bufsize = 8192 - 2 * 8 - 14

-- The C string that starts the memory; `none` where no NUL ends it.
unfoldable pub c_string : Text → Option Text
c_string [] = none
c_string (c ∷ t) = let rest = c_string t >>= λ r. some (c ∷ r) in if c == 0 then some [] else rest

unfoldable pub string_at : (ℕ → Text) → Pointer → Option Text
unfolding c_string
string_at buffers p = c_string (drop p.offset (buffers p.block))

-- The new block; `head` gets it in front.
unfoldable pub new_cache : ℕ → Cache → Block × Cache
new_cache buflen s = (
  record { address = s.fresh; end = 0; bytesfree = buflen; count = 0 },
  record s {
    buffers = at s.fresh [] s.buffers;
    fresh = s.fresh + 1;
    total_buffers = u64 (s.total_buffers + 1);
  },
)

-- The block after the copy; `len` counts the NUL.
abbrev pub filled : ℕ → Block → Block
filled len sp = record sp {
  end = u16 (sp.end + len);
  bytesfree = u16 (sp.bytesfree + 2 ^ 16 - len);
  count = u16 (sp.count + 1);
}

unfoldable pub copy_string : Block → Text → Cache → Pointer × Block × Cache
copy_string sp str s = (
  record { block = sp.address; offset = sp.end },
  filled (length str + 1) sp,
  record s {
    buffers = at sp.address (take sp.end (s.buffers sp.address) ++ (str ++ 0 ∷ [])) s.buffers;
  },
)

-- The first block with enough free space, between those before and after it.
unfoldable pub find_space : ℕ → List Block → Option (List Block × Block × List Block)
find_space sz [] = none
find_space sz (b ∷ bs) =
    let later = find_space sz bs >>= λ (before, sp, after). some (b ∷ before, sp, after) in
    if ltb sz b.bytesfree then some ([], b, bs) else later

-- A string too large for a buffer.
unfoldable pub add_large : Text → Cache → Pointer × Cache
unfolding new_cache copy_string
add_large str s =
    let (new, t) = new_cache (u16 (length str + 1)) s in
    let (res, sp, u) = copy_string new str t in (res, record u { fullcache = sp ∷ u.fullcache })

-- The string is copied into the block `sp`, and the block goes to the full list or stays where it
-- was.
unfoldable pub add_to : Text → List Block → Block → List Block → Cache → Pointer × Cache
unfolding copy_string
add_to str before sp after s =
    let (res, sp', t) = copy_string sp str s in
    let full = ltb 20 t.total_strings && ltb sp'.bytesfree (t.total_size / t.total_strings + 1) in
    (
      res,
      (if full
          then record t { strcache = before ++ after; fullcache = sp' ∷ t.fullcache }
          else record t { strcache = before ++ sp' ∷ after }),
    )

unfoldable pub add_found : Text → Option (List Block × Block × List Block) → Cache → Pointer × Cache
unfolding new_cache add_to
add_found str none s = let (new, t) = new_cache bufsize s in add_to str [] new t.strcache t
add_found str (some (before, sp, after)) s = add_to str before sp after s

unfoldable pub add_string : Text → Cache → Pointer × Cache
unfolding add_large add_found
add_string str s =
    let sz = u16 (length str + 1) in
    let t = record s {
      total_strings = u64 (s.total_strings + 1);
      total_size = u64 (s.total_size + sz);
    } in
    if ltb bufsize sz then add_large str t else add_found str (find_space sz t.strcache) t

unfoldable pub add_hugestring : Text → Cache → Pointer × Cache
add_hugestring str s = (
  record { block = s.fresh; offset = 0 },
  record s {
    buffers = at s.fresh (str ++ 0 ∷ []) s.buffers;
    hugestrings = s.fresh ∷ s.hugestrings;
    fresh = s.fresh + 1;
  },
)

abbrev pub is_string : Text → Option Text → Bool
is_string str none = false
is_string str (some t) = streq t str

-- `hash_find_slot` on `strings`.
unfoldable pub find_string : (ℕ → Text) → Text → List Pointer → Option Pointer
unfolding string_at
find_string buffers str [] = none
find_string buffers str (p ∷ ps) =
    let later = find_string buffers str ps in
    if is_string str (string_at buffers p) then some p else later

unfoldable pub add_slot : Text → Option Pointer → Cache → Pointer × Cache
unfolding add_string
add_slot str (some key) s = (key, s)
add_slot str none s =
    let (key, t) = add_string str s in (key, record t { strings = key ∷ t.strings })

unfoldable pub add_hash : Text → Cache → Pointer × Cache
unfolding add_hugestring find_string add_slot
add_hash str s =
    let t = record s { total_adds = u64 (s.total_adds + 1) } in
    if ltb (2 ^ 16 - 1 - 1) (length str)
    then add_hugestring str s
    else add_slot str (find_string s.buffers str s.strings) t

unfoldable pub strcache_add : Text → Cache → Pointer × Cache
unfolding add_hash
strcache_add str s = add_hash str s

unfoldable pub in_blocks : Pointer → List Block → Bool
in_blocks p [] = false
in_blocks p (b ∷ bs) = (p.block == b.address && ltb p.offset b.end) || in_blocks p bs

unfoldable pub in_huge : Pointer → List ℕ → Bool
in_huge p [] = false
in_huge p (h ∷ hs) = (p.block == h && p.offset == 0) || in_huge p hs

unfoldable pub strcache_iscached : Pointer → Cache → Bool
unfolding in_blocks in_huge
strcache_iscached p s =
    in_blocks p s.strcache || (in_blocks p s.fullcache || in_huge p s.hugestrings)

-- `strcache_init`
abbrev pub strcache_init : Cache
strcache_init = record {
  buffers = λ a. [];
  strcache = [];
  fullcache = [];
  hugestrings = [];
  strings = [];
  fresh = 0;
  total_buffers = 0;
  total_strings = 0;
  total_size = 0;
  total_adds = 0;
}
