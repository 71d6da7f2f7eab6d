-- ===== src/FileCache.antt =====
-- crates/orbit-cache/src/lib.rs: `FileCache`, behind its lock. The digest that makes a key of a URL
-- and the file system are arguments: what copying and measuring a file gave. Sums of sizes and the
-- counts of hits and misses of the cache itself stay below 2^64.
pub mod Eviction
pub mod Insertion
mod Tests
use Prim.Native.String.{◌++◌ as ◌<>◌}
use open_eo_ru_stac.Prelude.{
  ℕ, zero, suc, ◌+◌, ◌%◌, ◌^◌, Bool, String, Option, none, some, List, [], ◌∷◌, ◌++◌, length, leb,
  ltb, ◌==◌, str_eq, if◌then◌else◌, Result, ok, err, ◌>>=◌,
}

-- The counters wrap around at 2^64.
pub record Stats : Type 0 where
  pub hits : ℕ
  pub misses : ℕ
  pub bytes_in : ℕ
  pub bytes_out : ℕ

unfoldable pub new : Stats
new = record { hits = 0; misses = 0; bytes_in = 0; bytes_out = 0 }

unfoldable pub record_hit : ℕ → Stats → Stats
record_hit n s = record s { hits = (s.hits + 1) % 2 ^ 64; bytes_out = (s.bytes_out + n) % 2 ^ 64 }

unfoldable pub record_miss : ℕ → Stats → Stats
record_miss n s = record s {
  misses = (s.misses + 1) % 2 ^ 64;
  bytes_in = (s.bytes_in + n) % 2 ^ 64;
}

pub record CacheEntry : Type 0 where
  pub path : String
  pub size_bytes : ℕ
  pub last_access : ℕ

abbrev pub Index : Type 0
Index = List (String × CacheEntry)

-- `removed` lists the paths of the files that were deleted.
pub record FileCache : Type 0 where
  pub root : String
  pub max_bytes : ℕ
  pub index : Index
  pub hits : ℕ
  pub misses : ℕ
  pub removed : List String

pub record CacheSnapshot : Type 0 where
  pub entries : ℕ
  pub total_bytes : ℕ
  pub hits : ℕ
  pub misses : ℕ

abbrev pub total_size : Index → ℕ
total_size [] = 0
total_size ((key, e) ∷ index) = e.size_bytes + total_size index

unfoldable pub snapshot : FileCache → CacheSnapshot
snapshot c = record {
  entries = length c.index;
  total_bytes = total_size c.index;
  hits = c.hits;
  misses = c.misses;
}

abbrev pub paths : Index → List String
paths [] = []
paths ((key, e) ∷ index) = e.path ∷ paths index

unfoldable pub clear : FileCache → FileCache
clear c = record c { index = []; removed = c.removed ++ paths c.index }

unfoldable pub lookup : String → Index → Option CacheEntry
lookup key [] = none
lookup key ((k, e) ∷ index) = if str_eq k key then some e else lookup key index

unfoldable pub put : String → CacheEntry → Index → Index
put key e [] = (key, e) ∷ []
put key e ((k, old) ∷ index) =
    let rest = put key e index in if str_eq k key then (k, e) ∷ index else (k, old) ∷ rest

-- `min_by_key` on the time of the last access, the first of several, and the removal of its key:
-- keys are distinct.
abbrev pub choose_older :
    String × CacheEntry
    → Index
    → Option ((String × CacheEntry) × Index)
    → Option ((String × CacheEntry) × Index)
choose_older x index none = some (x, index)
choose_older x index (some (y, rest)) =
    if ltb y.1.last_access x.1.last_access then some (y, x ∷ rest) else some (x, index)

unfoldable pub take_oldest : Index → Option ((String × CacheEntry) × Index)
take_oldest [] = none
take_oldest (x ∷ index) = choose_older x index (take_oldest index)

-- The loop; `none` is the loop out of fuel.
abbrev pub evicted :
    (Index → List String → Option (Index × List String))
    → Index
    → List String
    → Option ((String × CacheEntry) × Index)
    → Option (Index × List String)
evicted again index removed none = some (index, removed)
evicted again index removed (some (x, rest)) = again rest (removed ++ x.1.path ∷ [])

unfoldable pub evict_loop : ℕ → ℕ → Index → List String → Option (Index × List String)
unfolding take_oldest
evict_loop zero max_bytes index removed = none
evict_loop (suc fuel) max_bytes index removed =
    let again = evict_loop fuel max_bytes in
    if leb (total_size index) max_bytes
    then some (index, removed)
    else evicted again index removed (take_oldest index)

abbrev pub with_index : FileCache → Option (Index × List String) → Option FileCache
with_index c none = none
with_index c (some (index, removed)) = some (record c { index = index; removed = removed })

unfoldable pub evict_if_needed : FileCache → Option FileCache
unfolding evict_loop
evict_if_needed c =
    if c.max_bytes == 0
    then some c
    else with_index c (evict_loop (length c.index + 1) c.max_bytes c.index c.removed)

module _ (key_for : String → String) where
  abbrev pub found : ℕ → String → FileCache → Option CacheEntry → Option String × FileCache
  found now key c none = (none, record c { misses = c.misses + 1 })
  found now key c (some e) = (
    some e.path,
    record c { index = put key (record e { last_access = now }) c.index; hits = c.hits + 1 },
  )

  unfoldable pub get : ℕ → String → FileCache → Option String × FileCache
  unfolding lookup put
  get now url c = let key = key_for url in found now key c (lookup key c.index)

  abbrev pub destination : String → FileCache → String
  destination url c = c.root <> "/" <> key_for url

  -- Behind the copy and the measuring of its size.
  unfoldable pub admit : ℕ → String → ℕ → FileCache → Option FileCache
  unfolding put evict_if_needed
  admit now url size c =
      let entry : CacheEntry = record {
        path = destination url c;
        size_bytes = size;
        last_access = now;
      } in
      evict_if_needed (record c { index = put (key_for url) entry c.index })

  -- The two calls of the file system that may fail, and what `insert` returns and leaves.
  abbrev pub measured :
      ℕ → String → Result ℕ String → FileCache → Result String String × Option FileCache
  measured now url (err e) c = (err e, some c)
  measured now url (ok size) c = (ok (destination url c), admit now url size c)

  unfoldable pub insert :
      ℕ
      → String
      → Result (Unit {0}) String
      → Result ℕ String
      → FileCache
      → Result String String × Option FileCache
  unfolding admit
  insert now url (err e) size c = (err e, some c)
  insert now url (ok _) size c = measured now url size c
