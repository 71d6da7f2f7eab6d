-- ===== src/Prelude/Sorting.antt =====
-- A stable sort by a Boolean order, as `sort_by` and `sort_unstable` give it for distinct keys, and
-- the order of texts.
use Prim.Native.Nat.{ℕ, zero, suc}
use mathlib.Core.Path.{◌≡◌, refl, ap, subst, sym, ◌∙◌}
use mathlib.Core.Logic.{◌⊎◌, inl, inr}
use mathlib.Core.Bool.{Bool, true, false}
use mathlib.Core.List.{List, [], ◌∷◌, map}
use native.Mathlib.Omega.{arith}
use open_eo_ru_stac.Prelude.Tests.{if◌then◌else◌, ltb, ◌==◌}
use open_eo_ru_stac.Prelude.Lists.{length, take, IsIn, Distinct, map-IsIn, IsIn-map}

module _ {A : Type 0} (le : A → A → Bool) where
  unfoldable pub insert_by : A → List A → List A
  insert_by x [] = x ∷ []
  insert_by x (y ∷ ys) = let rest = insert_by x ys in if le x y then x ∷ y ∷ ys else y ∷ rest

  unfoldable pub sort_by : List A → List A
  unfolding insert_by
  sort_by [] = []
  sort_by (x ∷ xs) = insert_by x (sort_by xs)

  abbrev pub IsSorted : List A → Type 0
  IsSorted [] = Unit
  IsSorted (x ∷ xs) = ((y : A) → IsIn y xs → le x y ≡ true) × IsSorted xs

  insert_by-IsIn : (x z : A) (xs : List A) → IsIn z (insert_by x xs) → (z ≡ x) ⊎ IsIn z xs
  unfolding insert_by
  insert_by-IsIn x z [] (inl e) = inl e
  insert_by-IsIn x z [] (inr h) = absurd h
  insert_by-IsIn x z (y ∷ ys) h = choose (insert_by-IsIn x z ys) (le x y) h
    where
      choose :
          (IsIn z (insert_by x ys) → (z ≡ x) ⊎ IsIn z ys)
          → (b : Bool) → IsIn z (if b then x ∷ y ∷ ys else y ∷ insert_by x ys)
          → (z ≡ x) ⊎ IsIn z (y ∷ ys)
      choose ih true (inl e) = inl e
      choose ih true (inr later) = inr later
      choose ih false (inl e) = inr (inl e)
      choose ih false (inr later) = elim (ih later) [ inl e ↦ inl e | inr at ↦ inr (inr at) ]

  IsIn-insert_by : (x z : A) (xs : List A) → (z ≡ x) ⊎ IsIn z xs → IsIn z (insert_by x xs)
  unfolding insert_by
  IsIn-insert_by x z [] (inl e) = inl e
  IsIn-insert_by x z [] (inr h) = absurd h
  IsIn-insert_by x z (y ∷ ys) h = choose (IsIn-insert_by x z ys) (le x y) h
    where
      choose :
          ((z ≡ x) ⊎ IsIn z ys → IsIn z (insert_by x ys))
          → (b : Bool) → (z ≡ x) ⊎ IsIn z (y ∷ ys)
          → IsIn z (if b then x ∷ y ∷ ys else y ∷ insert_by x ys)
      choose ih true h = h
      choose ih false (inl e) = inr (ih (inl e))
      choose ih false (inr (inl e)) = inl e
      choose ih false (inr (inr at)) = inr (ih (inr at))

  pub sort_by-IsIn : (z : A) (xs : List A) → IsIn z (sort_by xs) → IsIn z xs
  unfolding sort_by
  sort_by-IsIn z [] h = absurd h
  sort_by-IsIn z (x ∷ xs) h = elim (insert_by-IsIn x z (sort_by xs) h) [
    | inl e ↦ inl e
    | inr at ↦ inr (sort_by-IsIn z xs at)
  ]

  pub IsIn-sort_by : (z : A) (xs : List A) → IsIn z xs → IsIn z (sort_by xs)
  unfolding sort_by
  IsIn-sort_by z [] h = absurd h
  IsIn-sort_by z (x ∷ xs) (inl e) = IsIn-insert_by x z (sort_by xs) (inl e)
  IsIn-sort_by z (x ∷ xs) (inr at) = IsIn-insert_by x z (sort_by xs) (inr (IsIn-sort_by z xs at))

  -- An order of the values that satisfy `P`, such as the numbers that are finite.
  module _ (P : A → Type 0) (total : (a b : A) → P a → P b → le a b ≡ false → le b a ≡ true)
      (transitive : (a b c : A)
        → P a
        → P b
        → P c
        → le a b ≡ true
        → le b c ≡ true
        → le a c ≡ true) where
    insert_by-IsSorted :
        (x : A) (xs : List A)
        → P x
        → ((z : A) → IsIn z xs → P z)
        → IsSorted xs
        → IsSorted (insert_by x xs)
    unfolding insert_by
    insert_by-IsSorted x [] px ps s = ((λ y h. absurd h), tt)
    insert_by-IsSorted x (y ∷ ys) px ps (first, s) =
        choose (insert_by-IsSorted x ys px (λ z at. ps z (inr at)) s) (le x y) refl
      where
        choose :
            IsSorted (insert_by x ys)
            → (b : Bool) → le x y ≡ b
            → IsSorted (if b then x ∷ y ∷ ys else y ∷ insert_by x ys)
        choose ih true h = ((λ z at. below z at), (first, s))
          where
            below : (z : A) → IsIn z (y ∷ ys) → le x z ≡ true
            below z (inl e) = subst (λ w. le x w ≡ true) (sym e) h
            below z (inr at) = transitive x y z px (ps y (inl refl)) (ps z (inr at)) h (first z at)
        choose ih false h = ((λ z at. below z (insert_by-IsIn x z ys at)), ih)
          where
            below : (z : A) → (z ≡ x) ⊎ IsIn z ys → le y z ≡ true
            below z (inl e) = subst (λ w. le y w ≡ true) (sym e) (total x y px (ps y (inl refl)) h)
            below z (inr at) = first z at

    pub sort_by-IsSorted : (xs : List A) → ((z : A) → IsIn z xs → P z) → IsSorted (sort_by xs)
    unfolding sort_by
    sort_by-IsSorted [] ps = tt
    sort_by-IsSorted (x ∷ xs) ps =
        insert_by-IsSorted x (sort_by xs) (ps x (inl refl))
          (λ z at. ps z (inr (sort_by-IsIn z xs at))) (sort_by-IsSorted xs (λ z at. ps z (inr at)))

  -- The images of the elements by `g` stay apart.
  Distinct-insert_by :
      {B : Type 0} (g : A → B) (x : A) (xs : List A)
      → (IsIn (g x) (map g xs) → ⊥)
      → Distinct (map g xs)
      → Distinct (map g (insert_by x xs))
  unfolding insert_by
  Distinct-insert_by g x [] new d = ((λ h. h), tt)
  Distinct-insert_by g x (y ∷ ys) new (apart, d) =
      choose (Distinct-insert_by g x ys (λ at. new (inr at)) d) (le x y)
    where
      kept : (a : A) → (a ≡ x) ⊎ IsIn a ys → g y ≡ g a → ⊥
      kept a (inl e) same = new (inl (sym (same ∙ ap g e)))
      kept a (inr at) same = apart (subst (λ b. IsIn b (map g ys)) (sym same) (IsIn-map g a ys at))

      choose :
          Distinct (map g (insert_by x ys))
          → (b : Bool) → Distinct (map g (if b then x ∷ y ∷ ys else y ∷ insert_by x ys))
      choose ih true = (new, (apart, d))
      choose ih false = (
        λ at.
            let (a, found, e) = map-IsIn g (g y) (insert_by x ys) at in
            kept a (insert_by-IsIn x a ys found) e,
        ih,
      )

  pub Distinct-sort_by :
      {B : Type 0} (g : A → B) (xs : List A) → Distinct (map g xs) → Distinct (map g (sort_by xs))
  unfolding sort_by
  Distinct-sort_by g [] d = tt
  Distinct-sort_by g (x ∷ xs) (new, d) =
      Distinct-insert_by g x (sort_by xs)
        (λ at.
          let (a, found, e) = map-IsIn g (g x) (sort_by xs) at in
          new (subst (λ b. IsIn b (map g xs)) (sym e) (IsIn-map g a xs (sort_by-IsIn a xs found))))
        (Distinct-sort_by g xs d)

  pub take-IsIn : (n : ℕ) (z : A) (xs : List A) → IsIn z (take n xs) → IsIn z xs
  take-IsIn zero z xs h = absurd h
  take-IsIn (suc n) z [] h = absurd h
  take-IsIn (suc n) z (x ∷ xs) (inl e) = inl e
  take-IsIn (suc n) z (x ∷ xs) (inr at) = inr (take-IsIn n z xs at)

  pub take-IsSorted : (n : ℕ) (xs : List A) → IsSorted xs → IsSorted (take n xs)
  take-IsSorted zero xs s = tt
  take-IsSorted (suc n) [] s = tt
  take-IsSorted (suc n) (x ∷ xs) (first, s) =
      ((λ y at. first y (take-IsIn n y xs at)), take-IsSorted n xs s)

  -- What is cut off comes behind all that is kept, of which there are as many as were asked for.
  pub take-nearest :
      (n : ℕ) (z : A) (xs : List A)
      → IsSorted xs
      → IsIn z xs
      → IsIn z (take n xs)
        ⊎ ((length (take n xs) ≡ n) × ((y : A) → IsIn y (take n xs) → le y z ≡ true))
  take-nearest zero z xs s h = inr (refl, λ y at. absurd at)
  take-nearest (suc n) z [] s h = absurd h
  take-nearest (suc n) z (x ∷ xs) (first, s) (inl e) = inl (inl e)
  take-nearest (suc n) z (x ∷ xs) (first, s) (inr at) = elim (take-nearest n z xs s at) [
    | inl kept ↦ inl (inr kept)
    | inr (full, behind) ↦ inr (
      ap suc full,
      λ y h. elim h [
        | inl e ↦ subst (λ w. le w z ≡ true) (sym e) (first z at)
        | inr later ↦ behind y later
      ],
    )
  ]

-- `str::cmp` is not `Greater`: the bytes of UTF-8 are ordered as the characters are.
unfoldable pub le_codes : List ℕ → List ℕ → Bool
le_codes [] b = true
le_codes (x ∷ a) [] = false
le_codes (x ∷ a) (y ∷ b) =
    let rest = le_codes a b in if ltb x y then true else if x == y then rest else false

pub le_codes_total : (a b : List ℕ) → le_codes a b ≡ false → le_codes b a ≡ true
unfolding le_codes
le_codes_total [] b h = cc
le_codes_total (x ∷ a) [] h = refl
le_codes_total (x ∷ a) (y ∷ b) h = ground (arith, le_codes_total a b)

pub le_codes_trans :
    (a b c : List ℕ) → le_codes a b ≡ true → le_codes b c ≡ true → le_codes a c ≡ true
unfolding le_codes
le_codes_trans [] b c h k = refl
le_codes_trans (x ∷ a) [] c h k = cc
le_codes_trans (x ∷ a) (y ∷ b) [] h k = cc
le_codes_trans (x ∷ a) (y ∷ b) (z ∷ c) h k = ground (arith, le_codes_trans a b c)

-- A sort by a key sorts the keys.
module _ {A B : Type 0} (g : A → B) (le : B → B → Bool) where
  map-insert_by :
      (x : A) (xs : List A)
      → map g (insert_by (λ a b. le (g a) (g b)) x xs) ≡ insert_by le (g x) (map g xs)
  unfolding insert_by
  map-insert_by x [] = refl
  map-insert_by x (y ∷ ys) = choose (map-insert_by x ys) (le (g x) (g y))
    where
      choose :
          map g (insert_by (λ a b. le (g a) (g b)) x ys) ≡ insert_by le (g x) (map g ys)
          → (b : Bool)
          → map g (if b then x ∷ y ∷ ys else y ∷ insert_by (λ a b. le (g a) (g b)) x ys)
            ≡ (if b then g x ∷ g y ∷ map g ys else g y ∷ insert_by le (g x) (map g ys))
      choose ih true = refl
      choose ih false = ap (λ t. g y ∷ t) ih

  pub map-sort_by :
      (xs : List A) → map g (sort_by (λ a b. le (g a) (g b)) xs) ≡ sort_by le (map g xs)
  unfolding sort_by
  map-sort_by [] = refl
  map-sort_by (x ∷ xs) =
      map-insert_by x (sort_by (λ a b. le (g a) (g b)) xs)
      ∙ ap (insert_by le (g x)) (map-sort_by xs)
