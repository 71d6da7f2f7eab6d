-- ===== src/Prelude/Pigeonhole.antt =====
-- A list without duplicates is no longer than a list that has all its elements.
use Prim.Native.Nat.{suc, ◌≤◌}
use mathlib.Core.Path.{◌≡◌, refl, ap, sym, ◌∙◌, subst}
use mathlib.Core.Logic.{inl, inr}
use mathlib.Core.List.{List, [], ◌∷◌}
use native.Mathlib.Omega.{arith}
use open_eo_ru_stac.Prelude.Lists.{length, IsIn, Distinct}

module _ {A : Type 0} where
  without : (x : A) (ys : List A) → IsIn x ys → List A
  without x [] h = absurd h
  without x (y ∷ ys) (inl e) = ys
  without x (y ∷ ys) (inr at) = y ∷ without x ys at

  length-without : (x : A) (ys : List A) (h : IsIn x ys) → suc (length (without x ys h)) ≡ length ys
  unfolding without
  length-without x [] h = absurd h
  length-without x (y ∷ ys) (inl e) = refl
  length-without x (y ∷ ys) (inr at) = ap suc (length-without x ys at)

  without-IsIn :
      (x z : A) (ys : List A) (h : IsIn x ys) → (z ≡ x → ⊥) → IsIn z ys → IsIn z (without x ys h)
  unfolding without
  without-IsIn x z [] h apart at = absurd h
  without-IsIn x z (y ∷ ys) (inl e) apart (inl f) = absurd (apart (f ∙ sym e))
  without-IsIn x z (y ∷ ys) (inl e) apart (inr at) = at
  without-IsIn x z (y ∷ ys) (inr h) apart (inl f) = inl f
  without-IsIn x z (y ∷ ys) (inr h) apart (inr at) = inr (without-IsIn x z ys h apart at)

  pub length-le_of_subset :
      (xs ys : List A) → Distinct xs → ((z : A) → IsIn z xs → IsIn z ys) → length xs ≤ length ys
  length-le_of_subset [] ys d sub = omega arith
  length-le_of_subset (x ∷ xs) ys (new, d) sub =
      let at : IsIn x ys = sub x (inl refl) in
      let ih : length xs ≤ length (without x ys at) =
        length-le_of_subset xs (without x ys at) d
          (λ z h. without-IsIn x z ys at (λ e. new (moved z h e)) (sub z (inr h))) in
      omega (arith, ih, length-without x ys at)
    where
      moved : (z : A) → IsIn z xs → z ≡ x → IsIn x xs
      moved z h e = subst (λ w. IsIn w xs) e h
