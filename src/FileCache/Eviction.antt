-- ===== src/FileCache/Eviction.antt =====
-- What eviction leaves.
use open_eo_ru_stac.Prelude.{
  ℕ, zero, suc, ◌+◌, ◌≤◌, ◌<◌, ◌≡◌, ◌⊎◌, inl, inr, refl, ◌∙◌, ap, Bool-cases, some, List, [], ◌∷◌,
  ◌++◌, length, leb, leb→le, ltb, ltb→lt, ge_of_ltb, ◌==◌, IsIn, arith, String,
}
use open_eo_ru_stac.FileCache.{
  CacheEntry, Index, FileCache, total_size, take_oldest, choose_older, evict_loop, evicted,
  evict_if_needed, with_index,
}

abbrev Slot : Type 0
Slot = String × CacheEntry

-- `x` is the oldest slot of `before`, and `rest` are the others.
pub record Splits (x : Slot) (rest before : Index) : Type 0 where
  pub taken : IsIn x before
  pub others : (y : Slot) → IsIn y rest → IsIn y before
  pub all : (y : Slot) → IsIn y before → (y ≡ x) ⊎ IsIn y rest
  pub oldest : (y : Slot) → IsIn y before → x.1.last_access ≤ y.1.last_access
  pub size : length before ≡ suc (length rest)

-- The slots that stay fit, and no slot that went was used later than one that stays.
pub record Keeps (max_bytes : ℕ) (before behind : Index) : Type 0 where
  pub fits : total_size behind ≤ max_bytes
  pub kept : (y : Slot) → IsIn y behind → IsIn y before
  pub lru :
      (y z : Slot)
      → IsIn y before
      → IsIn z behind
      → IsIn y behind ⊎ (y.1.last_access ≤ z.1.last_access)

abbrev access : Slot → ℕ
access x = x.1.last_access

alone : (s : Slot) → Splits s [] (s ∷ [])
alone s = record {
  taken = inl refl;
  others = λ y h. absurd h;
  all = λ y h. h;
  oldest = λ y h. elim h [ inl e ↦ omega (arith, ap access e) | inr none_else ↦ absurd none_else ];
  size = refl;
}

passed_over :
    (s x : Slot) (rest index : Index)
    → access x < access s
    → Splits x rest index
    → Splits x (s ∷ rest) (s ∷ index)
passed_over s x rest index lt h = record {
  taken = inr h.taken;
  others = λ y at. elim at [ inl e ↦ inl e | inr later ↦ inr (h.others y later) ];
  all = λ y at. elim at [
    | inl e ↦ inr (inl e)
    | inr later ↦ elim (h.all y later) [ inl e ↦ inl e | inr r ↦ inr (inr r) ]
  ];
  oldest =
      λ y at. elim at [ inl e ↦ omega (arith, ap access e, lt) | inr later ↦ h.oldest y later ];
  size = ap suc h.size;
}

taken_first :
    (s x : Slot) (rest index : Index)
    → access s ≤ access x
    → Splits x rest index
    → Splits s index (s ∷ index)
taken_first s x rest index le h = record {
  taken = inl refl;
  others = λ y at. inr at;
  all = λ y at. at;
  oldest = λ y at. elim at [
    | inl e ↦ omega (arith, ap access e)
    | inr later ↦ omega (arith, h.oldest y later, le)
  ];
  size = refl;
}

take_oldest-Splits :
    (s : Slot) (index : Index)
    → (x : Slot) × (rest : Index) × (take_oldest (s ∷ index) ≡ some (x, rest))
      × Splits x rest (s ∷ index)
unfolding take_oldest
take_oldest-Splits s [] = (s, [], refl, alone s)
take_oldest-Splits s (t ∷ index) =
    let (x, rest, eq, splits) = take_oldest-Splits t index in
    let choice = ap (choose_older s (t ∷ index)) eq in
    elim (Bool-cases (ltb (access x) (access s))) [
      | inl older ↦ (
        x,
        s ∷ rest,
        choice ∙ (rw older refl),
        passed_over s x rest (t ∷ index) (ltb→lt (access x) (access s) older) splits,
      )
      | inr newer ↦ (
        s,
        t ∷ index,
        choice ∙ (rw newer refl),
        taken_first s x rest (t ∷ index) (ge_of_ltb (access x) (access s) newer) splits,
      )
    ]

-- One slot less, and then the rest of the loop.
Keeps-Splits :
    (max_bytes : ℕ) (x : Slot) (rest before behind : Index)
    → Splits x rest before
    → Keeps max_bytes rest behind
    → Keeps max_bytes before behind
Keeps-Splits max_bytes x rest before behind h k = record {
  fits = k.fits;
  kept = λ y at. h.others y (k.kept y at);
  lru = λ y z at stays. elim (h.all y at) [
    | inl e ↦ inr (omega (arith, ap access e, h.oldest z (h.others z (k.kept z stays))))
    | inr later ↦ k.lru y z later stays
  ];
}

unchanged :
    (max_bytes : ℕ) (index : Index) → total_size index ≤ max_bytes → Keeps max_bytes index index
unchanged max_bytes index le = record { fits = le; kept = λ y at. at; lru = λ y z at stays. inl at }

evict_loop-Keeps :
    (fuel max_bytes : ℕ) (index : Index) (removed : List String)
    → length index < fuel
    → (behind : Index) × (gone : List String) × (evict_loop fuel max_bytes index removed
        ≡ some (behind, gone))
      × Keeps max_bytes index behind
unfolding evict_loop
evict_loop-Keeps zero max_bytes index removed enough = absurd (omega arith)
evict_loop-Keeps (suc fuel) max_bytes [] removed enough =
    ([], removed, ground arith, unchanged max_bytes [] (omega arith))
evict_loop-Keeps (suc fuel) max_bytes (s ∷ index) removed enough =
    elim (Bool-cases (leb (total_size (s ∷ index)) max_bytes)) [
      | inl fits ↦ (
        s ∷ index,
        removed,
        rw fits refl,
        unchanged max_bytes (s ∷ index) (leb→le (total_size (s ∷ index)) max_bytes fits),
      )
      | inr over ↦
          let (x, rest, eq, splits) = take_oldest-Splits s index in
          let (behind, gone, loops, keeps) =
            evict_loop-Keeps fuel max_bytes rest (removed ++ x.1.path ∷ [])
              (omega (arith, splits.size, enough)) in
          (
            behind,
            gone,
            (rw over (ap (evicted (evict_loop fuel max_bytes) (s ∷ index) removed) eq)) ∙ loops,
            Keeps-Splits max_bytes x rest (s ∷ index) behind splits keeps,
          )
    ]

-- `evict_if_needed` ends within one round for each entry. It changes the index and the deleted
-- files only, and nothing where there is no cap; where there is one, the entries that stay fit it,
-- and none that went was used later than one that stays.
pub evict_if_needed-Keeps :
    (c : FileCache)
    → (d : FileCache) × (evict_if_needed c ≡ some d)
      × (d.hits ≡ c.hits)
      × (d.misses ≡ c.misses)
      × (d.max_bytes ≡ c.max_bytes)
      × ((c.max_bytes ≡ 0) × (d ≡ c) ⊎ (0 < c.max_bytes) × Keeps c.max_bytes c.index d.index)
unfolding evict_if_needed
evict_if_needed-Keeps c = elim (Bool-cases (c.max_bytes == 0)) [
  | inl unlimited ↦ (c, rw unlimited refl, refl, refl, refl, inl (ground (arith, unlimited), refl))
  | inr capped ↦
      let (behind, gone, loops, keeps) =
        evict_loop-Keeps (length c.index + 1) c.max_bytes c.index c.removed (omega arith) in
      (
        record c { index = behind; removed = gone },
        rw capped (ap (with_index c) loops),
        refl,
        refl,
        refl,
        inr (ground (arith, capped), keeps),
      )
]

pub size_le_total : (x : Slot) (index : Index) → IsIn x index → x.1.size_bytes ≤ total_size index
size_le_total x [] h = absurd h
size_le_total x (y ∷ index) (inl e) = omega (arith, ap (λ z. z.1.size_bytes) e)
size_le_total x (y ∷ index) (inr h) = omega (arith, size_le_total x index h)
