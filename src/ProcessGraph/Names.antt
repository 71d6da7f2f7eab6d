-- ===== src/ProcessGraph/Names.antt =====
-- From an order of indices to the ids of its nodes.
use open_eo_ru_stac.Prelude.{
  ℕ, zero, suc, ◌<◌, ◌≡◌, refl, ap, String, some, List, [], ◌∷◌, ◌⊎◌, inl, inr, IsIn, arith, length,
  str_eq_iff, sym, ◌∙◌, subst, Distinct,
}
use open_eo_ru_stac.ProcessGraph.{idx, by_index, ids_of}

-- `a` stands before `b`.
abbrev pub Precedes : {A : Type 0} → A → A → List A → Type 0
Precedes a b [] = ⊥
Precedes a b (x ∷ xs) = ((a ≡ x) × IsIn b xs) ⊎ Precedes a b xs

module _ (ids : List String) where
  -- `names` are the ids of the indices, one by one.
  abbrev pub Named : List ℕ → List String → Type 0
  Named [] [] = Unit
  Named [] (id ∷ names) = ⊥
  Named (n ∷ ns) [] = ⊥
  Named (n ∷ ns) (id ∷ names) = (by_index ids n ≡ some id) × Named ns names

  pub length-Named : (ns : List ℕ) (names : List String) → Named ns names → length names ≡ length ns
  length-Named [] [] h = refl
  length-Named [] (id ∷ names) h = absurd h
  length-Named (n ∷ ns) [] h = absurd h
  length-Named (n ∷ ns) (id ∷ names) (here, rest) = ap suc (length-Named ns names rest)

  pub IsIn-Named :
      (n : ℕ) (id : String) (ns : List ℕ) (names : List String)
      → by_index ids n ≡ some id
      → Named ns names
      → IsIn n ns
      → IsIn id names
  IsIn-Named n id [] names h known i = absurd i
  IsIn-Named n id (m ∷ ns) [] h known i = absurd known
  IsIn-Named n id (m ∷ ns) (name ∷ names) h (here, rest) (inl e) = inl (cc)
  IsIn-Named n id (m ∷ ns) (name ∷ names) h (here, rest) (inr i) =
      inr (IsIn-Named n id ns names h rest i)

  pub Precedes-Named :
      (n m : ℕ) (id later : String) (ns : List ℕ) (names : List String)
      → by_index ids n ≡ some id
      → by_index ids m ≡ some later
      → Named ns names
      → Precedes n m ns
      → Precedes id later names
  Precedes-Named n m id later [] names h k known p = absurd p
  Precedes-Named n m id later (x ∷ ns) [] h k known p = absurd known
  Precedes-Named n m id later (x ∷ ns) (name ∷ names) h k (here, rest) (inl (e, i)) =
      inl (cc, IsIn-Named m later ns names k rest i)
  Precedes-Named n m id later (x ∷ ns) (name ∷ names) h k (here, rest) (inr p) =
      inr (Precedes-Named n m id later ns names h k rest p)

  by_index-known :
      (js : List String) (n : ℕ) → n < length js → (id : String) × (by_index js n ≡ some id)
  unfolding by_index
  by_index-known [] n lt = absurd (omega arith)
  by_index-known (id ∷ js) zero lt = (id, refl)
  by_index-known (id ∷ js) (suc n) lt = by_index-known js n (omega arith)

  pub ids_of-Named :
      (ns : List ℕ)
      → ((n : ℕ) → IsIn n ns → n < length ids)
      → (names : List String) × (ids_of ids ns ≡ some names) × Named ns names
  unfolding ids_of
  ids_of-Named [] within = ([], refl, tt)
  ids_of-Named (n ∷ ns) within =
      let (id, here) = by_index-known ids n (within n (inl refl)) in
      let (names, eq, rest) = ids_of-Named ns (λ m i. within m (inr i)) in
      (id ∷ names, rw (here, eq) refl, (here, rest))

IsIn_of_by_index :
    (ids : List String) (n : ℕ) (id : String) → by_index ids n ≡ some id → IsIn id ids
unfolding by_index
IsIn_of_by_index [] n id h = cc
IsIn_of_by_index (j ∷ ids) zero id h = inl (cc)
IsIn_of_by_index (j ∷ ids) (suc n) id h = inr (IsIn_of_by_index ids n id h)

by_index_unique :
    (ids : List String) (n m : ℕ) (id : String)
    → Distinct ids
    → by_index ids n ≡ some id
    → by_index ids m ≡ some id
    → n ≡ m
unfolding by_index
by_index_unique [] n m id d h k = cc
by_index_unique (j ∷ ids) zero zero id d h k = refl
by_index_unique (j ∷ ids) zero (suc m) id (new, d) h k =
    let same : id ≡ j = cc in
    absurd (new (subst (λ x. IsIn x ids) same (IsIn_of_by_index ids m id k)))
by_index_unique (j ∷ ids) (suc n) zero id (new, d) h k =
    let same : id ≡ j = cc in
    absurd (new (subst (λ x. IsIn x ids) same (IsIn_of_by_index ids n id h)))
by_index_unique (j ∷ ids) (suc n) (suc m) id (new, d) h k =
    ap suc (by_index_unique ids n m id d h k)

module _ (ids : List String) where
  pub index_of_Named :
      (id : String) (ns : List ℕ) (names : List String)
      → Named ids ns names
      → IsIn id names
      → (n : ℕ) × IsIn n ns × (by_index ids n ≡ some id)
  index_of_Named id [] [] named at = absurd at
  index_of_Named id [] (name ∷ names) named at = absurd named
  index_of_Named id (n ∷ ns) [] named at = absurd named
  index_of_Named id (n ∷ ns) (name ∷ names) (here, rest) (inl e) =
      (n, inl refl, here ∙ ap some (sym e))
  index_of_Named id (n ∷ ns) (name ∷ names) (here, rest) (inr at) =
      let (m, i, eq) = index_of_Named id ns names rest at in (m, inr i, eq)

  pub Distinct-Named :
      (ns : List ℕ) (names : List String)
      → Distinct ids
      → Distinct ns
      → Named ids ns names
      → Distinct names
  Distinct-Named [] [] d dn named = tt
  Distinct-Named [] (name ∷ names) d dn named = absurd named
  Distinct-Named (n ∷ ns) [] d dn named = absurd named
  Distinct-Named (n ∷ ns) (name ∷ names) d (new, dn) (here, rest) = (
    λ at.
        let (m, i, eq) = index_of_Named name ns names rest at in
        new (subst (λ x. IsIn x ns) (by_index_unique ids m n name d eq here) i),
    Distinct-Named ns names d dn rest,
  )

pub by_index-idx :
    (ids : List String) (id : String) (i : ℕ) → idx ids id ≡ some i → by_index ids i ≡ some id
unfolding idx by_index
by_index-idx [] id i h = cc
by_index-idx (j ∷ js) id zero h = ground (arith, str_eq_iff j id)
by_index-idx (j ∷ js) id (suc n) h = by_index-idx js id n (ground arith)
