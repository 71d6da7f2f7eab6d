-- ===== src/FileCache/Tests.antt =====
-- A cache of two files with a cap of 100 bytes; the key of a URL is the URL here.
use open_eo_ru_stac.Prelude.{◌≡◌, ◌<◌, ◌⊎◌, refl, String, some, [], ◌∷◌, ok}
use open_eo_ru_stac.FileCache.{FileCache, evict_if_needed, insert, destination}
use open_eo_ru_stac.FileCache.Eviction.{Keeps, evict_if_needed-Keeps}
use open_eo_ru_stac.FileCache.Insertion.{Inserted, insert-Inserted}

abbrev cache : FileCache
cache = record {
  root = "/cache";
  max_bytes = 100;
  index =
      ("a", record { path = "/cache/a"; size_bytes = 70; last_access = 5 })
      ∷ ("b", record { path = "/cache/b"; size_bytes = 60; last_access = 3 })
      ∷ [];
  hits = 0;
  misses = 0;
  removed = [];
}

abbrev key_for : String → String
key_for url = url

evict_if_needed-Keeps_example :
    (d : FileCache) × (evict_if_needed cache ≡ some d)
    × (d.hits ≡ cache.hits)
    × (d.misses ≡ cache.misses)
    × (d.max_bytes ≡ cache.max_bytes)
    × ((cache.max_bytes ≡ 0) × (d ≡ cache)
        ⊎ (0 < cache.max_bytes) × Keeps cache.max_bytes cache.index d.index)
evict_if_needed-Keeps_example = evict_if_needed-Keeps cache

oldest_first :
    evict_if_needed cache
    ≡ some (record cache {
      index = ("a", record { path = "/cache/a"; size_bytes = 70; last_access = 5 }) ∷ [];
      removed = "/cache/b" ∷ [];
    })
unfolding evict_if_needed
oldest_first = refl

insert-Inserted_example :
    (d : FileCache) × (insert key_for 9 "c" (ok tt) (ok 40) cache
      ≡ (ok (destination key_for "c" cache), some d))
    × Inserted key_for 9 "c" 40 cache d
insert-Inserted_example = insert-Inserted key_for 9 "c" 40 cache
