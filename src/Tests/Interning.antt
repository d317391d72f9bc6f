-- ===== src/Tests/Interning.antt =====
-- Strings added to an empty cache.
use make.Strcache.Find.{IsCache}
use make.Strcache.Intern.{unused, uses, strcache_add_unique}
use make.Strcache.{
  Cache, string_at, c_string, strcache_add, strcache_init, strcache_iscached, add_hash, add_slot,
  add_string, add_large, add_found, add_to, add_hugestring, find_string, find_space, new_cache,
  copy_string, in_blocks, in_huge,
}
use make.Text.{codes}
use make.Prelude.{◌≡◌, ◌↔◌, refl, true, some, arith}

abbrev once : Cache
once = (strcache_add (codes "foo.c") strcache_init).1

abbrev twice : Cache
twice = (strcache_add (codes "bar.c") once).1

second_place : (strcache_add (codes "bar.c") once).0 ≡ record { block = 0; offset = 6 }
unfolding strcache_add add_hash add_slot add_string add_large add_found add_to add_hugestring
    find_string find_space new_cache copy_string string_at c_string
second_place = refl

cached : strcache_iscached (record { block = 0; offset = 6 }) twice ≡ true
unfolding strcache_add add_hash add_slot add_string add_large add_found add_to add_hugestring
    find_string find_space new_cache copy_string string_at c_string strcache_iscached in_blocks
    in_huge
cached = refl

init-IsCache : IsCache strcache_init
init-IsCache = record { blocks = tt; stored = tt }

strcache_add_unique_example :
    (((strcache_add (codes "foo.c") strcache_init).0 ≡ (strcache_add (codes "foo.c") twice).0)
      ↔ (codes "foo.c" ≡ codes "foo.c"))
    × (string_at
          (strcache_add (codes "foo.c") twice).1.buffers
          (strcache_add (codes "foo.c") strcache_init).0
        ≡ some (codes "foo.c"))
    × (string_at
          (strcache_add (codes "foo.c") twice).1.buffers
          (strcache_add (codes "foo.c") twice).0
        ≡ some (codes "foo.c"))
strcache_add_unique_example =
    strcache_add_unique strcache_init twice (codes "foo.c") (codes "foo.c") init-IsCache
      (refl, (refl, (refl, (refl, (refl, tt))))) (refl, (refl, (refl, (refl, (refl, tt)))))
      (omega arith) (omega arith)
      (uses once once (codes "bar.c") (refl, (refl, (refl, (refl, (refl, tt))))) (unused once))
