-- ===== src/GeoExecutor/Arrays/Finite.antt =====
-- Which elements of an array are finite numbers.
use open_eo_ru_stac.Prelude.{
  ℕ, ◌≡◌, refl, sym, ap, ◌∙◌, subst, inl, inr, true, false, Bool-cases, none, some, List,
  if◌then◌else◌, get_elem?,
}
use open_eo_ru_stac.Json.{Value, Number, null, number, bool, string, array, object}
use open_eo_ru_stac.GeoExecutor.Arrays.{ArrayOps, finite}
use open_eo_ru_stac.GeoExecutor.Arrays.Ordering.{HasNumber, HasNoNumber}

module _ {F : Type 0} (ops : ArrayOps F) where
  -- The element at `i` is a number whose f64 is `f`, and finite; and it is no such number.
  abbrev pub IsNumberAt : List Value → ℕ → F → Type 0
  IsNumberAt vs i f =
      (n : Number) × (get_elem? vs i ≡ some (number n))
      × (ops.as_f64 n ≡ f)
      × (ops.is_finite f ≡ true)

  abbrev pub IsOtherAt : List Value → ℕ → Type 0
  IsOtherAt vs i =
      (v : Value) × (get_elem? vs i ≡ some v)
      × ((n : Number) → v ≡ number n → ops.is_finite (ops.as_f64 n) ≡ false)

  finite-some :
      (v : Value) (f : F)
      → finite ops v ≡ some f
      → (n : Number) × (v ≡ number n) × (ops.as_f64 n ≡ f) × (ops.is_finite f ≡ true)
  finite-some null f h = cc
  finite-some (bool b) f h = cc
  finite-some (string s) f h = cc
  finite-some (array vs) f h = cc
  finite-some (object fs) f h = cc
  finite-some (number n) f h = elim (Bool-cases (ops.is_finite (ops.as_f64 n))) [
    | inl yes_ ↦
        let given : some (ops.as_f64 n) ≡ some f =
          ap (λ b. if b then some (ops.as_f64 n) else none) (sym yes_) ∙ h in
        let same : ops.as_f64 n ≡ f = cc in
        (n, refl, same, subst (λ g. ops.is_finite g ≡ true) same yes_)
    | inr no_ ↦
        let given : none ≡ some f =
          ap (λ b. if b then some (ops.as_f64 n) else none) (sym no_) ∙ h in
        cc
  ]

  finite-none :
      (v : Value) (n : Number)
      → finite ops v ≡ none
      → v ≡ number n
      → ops.is_finite (ops.as_f64 n) ≡ false
  finite-none v n h is = elim (Bool-cases (ops.is_finite (ops.as_f64 n))) [
    | inl yes_ ↦
        let given : some (ops.as_f64 n) ≡ none =
          ap (λ b. if b then some (ops.as_f64 n) else none) (sym yes_)
          ∙ ap (finite ops) (sym is)
          ∙ h in
        cc
    | inr no_ ↦ no_
  ]

  pub HasNumber-IsNumberAt :
      (vs : List Value) (i : ℕ) (f : F) → HasNumber ops vs i f → IsNumberAt vs i f
  HasNumber-IsNumberAt vs i f (v, at, eq) =
      let (n, is, same, fin) = finite-some v f eq in (n, at ∙ ap some is, same, fin)

  pub IsNumberAt-HasNumber :
      (vs : List Value) (i : ℕ) (f : F) → IsNumberAt vs i f → HasNumber ops vs i f
  IsNumberAt-HasNumber vs i f (n, at, same, fin) = (
    number n,
    at,
    ap (λ b. if b then some (ops.as_f64 n) else none)
          (subst (λ g. ops.is_finite g ≡ true) (sym same) fin)
        ∙ ap some same,
  )

  pub HasNoNumber-IsOtherAt : (vs : List Value) (i : ℕ) → HasNoNumber ops vs i → IsOtherAt vs i
  HasNoNumber-IsOtherAt vs i (v, at, eq) = (v, at, λ n is. finite-none v n eq is)

  no_number :
      (v : Value)
      → ((n : Number) → v ≡ number n → ops.is_finite (ops.as_f64 n) ≡ false)
      → finite ops v ≡ none
  no_number null h = refl
  no_number (bool b) h = refl
  no_number (string s) h = refl
  no_number (array vs) h = refl
  no_number (object fs) h = refl
  no_number (number n) h = ap (λ b. if b then some (ops.as_f64 n) else none) (h n refl)

  pub IsOtherAt-HasNoNumber : (vs : List Value) (i : ℕ) → IsOtherAt vs i → HasNoNumber ops vs i
  IsOtherAt-HasNoNumber vs i (v, at, h) = (v, at, no_number v h)
