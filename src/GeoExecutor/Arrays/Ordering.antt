-- ===== src/GeoExecutor/Arrays/Ordering.antt =====
-- What `order` and `sort` give.
use open_eo_ru_stac.Prelude.{
  ℕ, zero, suc, ◌+◌, ◌≡◌, refl, sym, ap, ◌∙◌, subst, inl, inr, Option, none, some, List, [], ◌∷◌,
  get_elem?, map, IsIn, Distinct, map-IsIn, arith,
}
use open_eo_ru_stac.Json.{Value}
use open_eo_ru_stac.GeoExecutor.Arrays.{
  ArrayOps, finite, valid_entry, nodata_entry, valid_from, nodata_from,
}

module _ {F : Type 0} (ops : ArrayOps F) where
  -- The element at `i` is a finite number, or none.
  abbrev pub HasNumber : List Value → ℕ → F → Type 0
  HasNumber vs i f = (v : Value) × (get_elem? vs i ≡ some v) × (finite ops v ≡ some f)

  abbrev pub HasNoNumber : List Value → ℕ → Type 0
  HasNoNumber vs i = (v : Value) × (get_elem? vs i ≡ some v) × (finite ops v ≡ none)

  shifted_number :
      (k : ℕ) (vs : List Value) (e : ℕ × F)
      → (j : ℕ) × (e.0 ≡ suc k + j) × HasNumber vs j e.1
      → (v : Value) → (j : ℕ) × (e.0 ≡ k + j) × HasNumber (v ∷ vs) j e.1
  shifted_number k vs e (j, eq, h) v = (suc j, omega arith, h)

  pub valid_from-HasNumber :
      (k : ℕ) (vs : List Value) (e : ℕ × F)
      → IsIn e (valid_from ops k vs)
      → (j : ℕ) × (e.0 ≡ k + j) × HasNumber vs j e.1
  valid_from-HasNumber k [] e h = absurd h
  valid_from-HasNumber k (v ∷ vs) e h =
      choose (valid_from-HasNumber (suc k) vs e) (finite ops v) refl h
    where
      choose :
          (IsIn e (valid_from ops (suc k) vs) → (j : ℕ) × (e.0 ≡ suc k + j) × HasNumber vs j e.1)
          → (o : Option F) → finite ops v ≡ o
          → IsIn e (valid_entry ops k o (valid_from ops (suc k) vs))
          → (j : ℕ) × (e.0 ≡ k + j) × HasNumber (v ∷ vs) j e.1
      choose ih none eq at = shifted_number k vs e (ih at) v
      choose ih (some f) eq (inl same) =
          let index : e.0 ≡ k = ap (λ z. z.0) same in
          let value : f ≡ e.1 = sym (ap (λ z. z.1) same) in
          (0, omega arith, (v, refl, eq ∙ ap some value))
      choose ih (some f) eq (inr at) = shifted_number k vs e (ih at) v

  pub HasNumber-valid_from :
      (k j : ℕ) (vs : List Value) (f : F)
      → HasNumber vs j f
      → (e : ℕ × F) × IsIn e (valid_from ops k vs) × (e.0 ≡ k + j) × (e.1 ≡ f)
  HasNumber-valid_from k j [] f (v, at, eq) = cc
  HasNumber-valid_from k zero (w ∷ vs) f (v, at, eq) =
      let same : finite ops w ≡ some f = ap (finite ops) (cc) ∙ eq in
      subst
        (λ o.
          (e : ℕ × F) × IsIn e (valid_entry ops k o (valid_from ops (suc k) vs))
          × (e.0 ≡ k + 0)
          × (e.1 ≡ f))
        (sym same) ((k, f), inl refl, omega arith, refl)
  HasNumber-valid_from k (suc j) (w ∷ vs) f (v, at, eq) =
      let (e, found, index, value) = HasNumber-valid_from (suc k) j vs f (v, at, eq) in
      (e, later (finite ops w) e found, omega arith, value)
    where
      later :
          (o : Option F) (e : ℕ × F)
          → IsIn e (valid_from ops (suc k) vs)
          → IsIn e (valid_entry ops k o (valid_from ops (suc k) vs))
      later none e found = found
      later (some g) e found = inr found

  pub nodata_from-HasNoNumber :
      (k : ℕ) (vs : List Value) (i : ℕ)
      → IsIn i (nodata_from ops k vs)
      → (j : ℕ) × (i ≡ k + j) × HasNoNumber vs j
  nodata_from-HasNoNumber k [] i h = absurd h
  nodata_from-HasNoNumber k (v ∷ vs) i h =
      choose (nodata_from-HasNoNumber (suc k) vs i) (finite ops v) refl h
    where
      choose :
          (IsIn i (nodata_from ops (suc k) vs) → (j : ℕ) × (i ≡ suc k + j) × HasNoNumber vs j)
          → (o : Option F) → finite ops v ≡ o
          → IsIn i (nodata_entry ops k o (nodata_from ops (suc k) vs))
          → (j : ℕ) × (i ≡ k + j) × HasNoNumber (v ∷ vs) j
      choose ih (some f) eq at = let (j, e, h) = ih at in (suc j, omega arith, h)
      choose ih none eq (inl same) = (0, omega arith, (v, refl, eq))
      choose ih none eq (inr at) = let (j, e, h) = ih at in (suc j, omega arith, h)

  pub HasNoNumber-nodata_from :
      (k j : ℕ) (vs : List Value) → HasNoNumber vs j → IsIn (k + j) (nodata_from ops k vs)
  HasNoNumber-nodata_from k j [] (v, at, eq) = cc
  HasNoNumber-nodata_from k zero (w ∷ vs) (v, at, eq) =
      let same : finite ops w ≡ none = ap (finite ops) (cc) ∙ eq in
      subst (λ o. IsIn (k + 0) (nodata_entry ops k o (nodata_from ops (suc k) vs))) (sym same)
        (inl (omega arith))
  HasNoNumber-nodata_from k (suc j) (w ∷ vs) h =
      let ih : IsIn (suc k + j) (nodata_from ops (suc k) vs) =
        HasNoNumber-nodata_from (suc k) j vs h in
      let index : suc k + j ≡ k + suc j = omega arith in
      later (finite ops w) (subst (λ i. IsIn i (nodata_from ops (suc k) vs)) index ih)
    where
      later :
          (o : Option F)
          → IsIn (k + suc j) (nodata_from ops (suc k) vs)
          → IsIn (k + suc j) (nodata_entry ops k o (nodata_from ops (suc k) vs))
      later none found = inr found
      later (some g) found = found

  pub valid_from-Distinct :
      (k : ℕ) (vs : List Value) → Distinct (map (λ e. e.0) (valid_from ops k vs))
  valid_from-Distinct k [] = tt
  valid_from-Distinct k (v ∷ vs) = choose (valid_from-Distinct (suc k) vs) (finite ops v)
    where
      beyond : IsIn k (map (λ e. e.0) (valid_from ops (suc k) vs)) → ⊥
      beyond at =
          let (e, found, same) = map-IsIn (λ z. z.0) k (valid_from ops (suc k) vs) at in
          let (j, index, h) = valid_from-HasNumber (suc k) vs e found in omega arith

      choose :
          Distinct (map (λ e. e.0) (valid_from ops (suc k) vs))
          → (o : Option F)
          → Distinct (map (λ e. e.0) (valid_entry ops k o (valid_from ops (suc k) vs)))
      choose ih none = ih
      choose ih (some f) = (beyond, ih)

  pub nodata_from-Distinct : (k : ℕ) (vs : List Value) → Distinct (nodata_from ops k vs)
  nodata_from-Distinct k [] = tt
  nodata_from-Distinct k (v ∷ vs) = choose (nodata_from-Distinct (suc k) vs) (finite ops v)
    where
      beyond : IsIn k (nodata_from ops (suc k) vs) → ⊥
      beyond at = let (j, index, h) = nodata_from-HasNoNumber (suc k) vs k at in omega arith

      choose :
          Distinct (nodata_from ops (suc k) vs)
          → (o : Option F) → Distinct (nodata_entry ops k o (nodata_from ops (suc k) vs))
      choose ih none = (beyond, ih)
      choose ih (some f) = ih
