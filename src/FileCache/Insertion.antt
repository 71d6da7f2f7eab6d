-- ===== src/FileCache/Insertion.antt =====
-- What an insertion leaves, and what a lookup behind it finds.
use open_eo_ru_stac.Prelude.{
  ℕ, ◌≤◌, ◌<◌, ◌≡◌, inl, inr, ◌∙◌, ap, String, Option, none, some, [], ◌∷◌, ok, str_eq, str_eq_iff,
  if◌then◌else◌, IsIn, arith,
}
use open_eo_ru_stac.FileCache.{
  CacheEntry, Index, FileCache, total_size, lookup, put, get, insert, admit, destination,
}
use open_eo_ru_stac.FileCache.Eviction.{evict_if_needed-Keeps, size_le_total, Keeps}

lookup-put :
    (key j : String) (e : CacheEntry) (index : Index)
    → lookup j (put key e index) ≡ (if str_eq key j then some e else lookup j index)
unfolding lookup put
lookup-put key j e [] = ground arith
lookup-put key j e ((k, old) ∷ index) =
    ground (arith, lookup-put key j e index, str_eq_iff k key, str_eq_iff key j, str_eq_iff k j)

module _ (key_for : String → String) where
  -- What `insert` leaves of the cache `c` behind a copied file of `size` bytes.
  pub record Inserted (now : ℕ) (url : String) (size : ℕ) (c d : FileCache) : Type 0 where
    pub unlimited :
        c.max_bytes ≡ 0
        → (later : ℕ) (other : String)
        → (get key_for later other d).0 ≡ (
            if str_eq (key_for url) (key_for other)
            then some (destination key_for url c)
            else (get key_for later other c).0)
    pub bounded : 0 < c.max_bytes → total_size d.index ≤ c.max_bytes
    pub none_larger :
        0 < c.max_bytes → (x : String × CacheEntry) → IsIn x d.index → x.1.size_bytes ≤ c.max_bytes

  path_of : Option CacheEntry → Option String
  path_of none = none
  path_of (some e) = some e.path

  get-path_of :
      (now : ℕ) (url : String) (c : FileCache)
      → (get key_for now url c).0 ≡ path_of (lookup (key_for url) c.index)
  unfolding get path_of
  get-path_of now url c = ground arith

  abbrev entry : ℕ → String → ℕ → FileCache → CacheEntry
  entry now url size c = record {
    path = destination key_for url c;
    size_bytes = size;
    last_access = now;
  }

  abbrev staged : ℕ → String → ℕ → FileCache → FileCache
  staged now url size c = record c { index = put (key_for url) (entry now url size c) c.index }

  staged-get :
      (now : ℕ) (url : String) (size : ℕ) (c : FileCache) (later : ℕ) (other : String)
      → (get key_for later other (staged now url size c)).0 ≡ (
          if str_eq (key_for url) (key_for other)
          then some (destination key_for url c)
          else (get key_for later other c).0)
  unfolding path_of
  staged-get now url size c later other =
      rw
        (
          get-path_of later other (staged now url size c),
          get-path_of later other c,
          lookup-put (key_for url) (key_for other) (entry now url size c) c.index,
        )
        (ground arith)

  uncapped :
      (now : ℕ) (url : String) (size : ℕ) (c d : FileCache)
      → c.max_bytes ≡ 0
      → d ≡ staged now url size c
      → Inserted now url size c d
  uncapped now url size c d zero_cap same = record {
    unlimited = λ z later other.
        ap (λ x. (get key_for later other x).0) same ∙ staged-get now url size c later other;
    bounded = λ pos. absurd (omega arith);
    none_larger = λ pos x at. absurd (omega arith);
  }

  capped :
      (now : ℕ) (url : String) (size : ℕ) (c d : FileCache) (before : Index)
      → 0 < c.max_bytes
      → Keeps c.max_bytes before d.index
      → Inserted now url size c d
  capped now url size c d before positive keeps = record {
    unlimited = λ z later other. absurd (omega arith);
    bounded = λ pos. keeps.fits;
    none_larger = λ pos x at. omega (arith, size_le_total x d.index at, keeps.fits);
  }

  -- `insert` of a file that was copied and measured returns the path of the copy. Without a cap a
  -- lookup of a URL with the same key then finds that path, and every other lookup finds what it
  -- found before. With a cap the sizes of the entries sum up to at most the cap, so that no entry is
  -- larger, the new one not either: a file above the cap is deleted although its path was returned.
  pub insert-Inserted :
      (now : ℕ) (url : String) (size : ℕ) (c : FileCache)
      → (d : FileCache) × (insert key_for now url (ok tt) (ok size) c
          ≡ (ok (destination key_for url c), some d))
        × Inserted now url size c d
  unfolding insert admit
  insert-Inserted now url size c =
      let (d, ends, hits, misses, cap, cases) = evict_if_needed-Keeps (staged now url size c) in
      (
        d,
        ap (λ o. (ok (destination key_for url c), o)) ends,
        elim cases [
          | inl (zero_cap, same) ↦ uncapped now url size c d zero_cap same
          | inr (positive, keeps) ↦ capped now url size c d _ positive keeps
        ],
      )
