-- ===== src/GeoExecutor/Spelling/Alignment.antt =====
-- What an edit distance is: the least number of edits of an alignment.
use mathlib.Core.List.{reverse, reverse_aux, reverse-reverse}
use open_eo_ru_stac.Prelude.{
  ℕ, suc, ◌+◌, ◌≤◌, ◌⊎◌, ◌≡◌, refl, sym, subst, min, List, [], ◌∷◌, length, ◌==◌, arith, Bool-cases,
  inl, inr, ==_iff,
}
use open_eo_ru_stac.GeoExecutor.Spelling.{cost}

-- `Edits a b n`: `n` insertions, deletions and replacements turn `a` into `b`, from left to right.
pub data Edits : List ℕ → List ℕ → ℕ → Type 0 where
  done : Edits [] [] 0
  keep : {a b : List ℕ} {n : ℕ} (x : ℕ) → Edits a b n → Edits (x ∷ a) (x ∷ b) n
  replace : {a b : List ℕ} {n : ℕ} (x y : ℕ) → Edits a b n → Edits (x ∷ a) (y ∷ b) (suc n)
  delete : {a b : List ℕ} {n : ℕ} (x : ℕ) → Edits a b n → Edits (x ∷ a) b (suc n)
  insert : {a b : List ℕ} {n : ℕ} (y : ℕ) → Edits a b n → Edits a (y ∷ b) (suc n)

-- The recursive distance.
unfoldable pub distance : List ℕ → List ℕ → ℕ
distance [] b = length b
distance (x ∷ a) [] = suc (length a)
distance (x ∷ a) (y ∷ b) =
    min (min (distance a (y ∷ b) + 1) (distance (x ∷ a) b + 1)) (distance a b + cost x y)

pub distance-nil : (a : List ℕ) → distance a [] ≡ length a
unfolding distance
distance-nil [] = refl
distance-nil (x ∷ a) = refl

inserted : (b : List ℕ) → Edits [] b (length b)
inserted [] = done
inserted (y ∷ b) = insert y (inserted b)

deleted : (a : List ℕ) → Edits a [] (length a)
deleted [] = done
deleted (x ∷ a) = delete x (deleted a)

substituted : {a b : List ℕ} {n : ℕ} (x y : ℕ) → Edits a b n → Edits (x ∷ a) (y ∷ b) (n + cost x y)
substituted {a} {b} {n} x y e = elim (Bool-cases (x == y)) [
  | inl same ↦
      let k : n + cost x y ≡ n = ground arith in
      let xy : x ≡ y = (==_iff x y).0 same in
      subst (λ c. Edits (x ∷ a) (y ∷ b) c) (sym k)
        (subst (λ z. Edits (x ∷ a) (z ∷ b) n) xy (keep x e))
  | inr other ↦
      let k : n + cost x y ≡ suc n = ground arith in
      subst (λ c. Edits (x ∷ a) (y ∷ b) c) (sym k) (replace x y e)
]

-- Of three alignments the shortest.
shortest :
    {a b : List ℕ} (k l m : ℕ)
    → Edits a b k
    → Edits a b l
    → Edits a b m
    → Edits a b (min (min k l) m)
shortest {a} {b} k l m p q r = choose (cases k l m)
  where
    cases : (k l m : ℕ) → (min (min k l) m ≡ k) ⊎ (min (min k l) m ≡ l) ⊎ (min (min k l) m ≡ m)
    cases k l m = ground arith

    choose :
        (min (min k l) m ≡ k) ⊎ (min (min k l) m ≡ l) ⊎ (min (min k l) m ≡ m)
        → Edits a b (min (min k l) m)
    choose (inl e) = subst (λ c. Edits a b c) (sym e) p
    choose (inr (inl e)) = subst (λ c. Edits a b c) (sym e) q
    choose (inr (inr e)) = subst (λ c. Edits a b c) (sym e) r

-- The recursive distance is reached.
pub distance-Edits : (a b : List ℕ) → Edits a b (distance a b)
unfolding distance
distance-Edits [] b = inserted b
distance-Edits (x ∷ a) [] = deleted (x ∷ a)
distance-Edits (x ∷ a) (y ∷ b) =
    shortest (distance a (y ∷ b) + 1) (distance (x ∷ a) b + 1) (distance a b + cost x y)
      (subst (λ c. Edits (x ∷ a) (y ∷ b) c) (omega arith) (delete x (distance-Edits a (y ∷ b))))
      (subst (λ c. Edits (x ∷ a) (y ∷ b) c) (omega arith) (insert y (distance-Edits (x ∷ a) b)))
      (substituted x y (distance-Edits a b))

-- No alignment has fewer edits.
pub distance-le : {a b : List ℕ} {n : ℕ} → Edits a b n → distance a b ≤ n
unfolding distance
distance-le done = omega arith
distance-le (keep x e) = ground (arith, distance-le e)
distance-le (replace x y e) = ground (arith, distance-le e)
distance-le {b = []} (delete {a} x e) = omega (arith, distance-le e, distance-nil a)
distance-le {b = y ∷ b} (delete x e) = omega (arith, distance-le e)
distance-le {a = []} (insert y e) = omega (arith, distance-le e)
distance-le {a = x ∷ a} (insert y e) = omega (arith, distance-le e)

-- Alignments of the reversed texts.
Edits-reverse_aux :
    {a b c d : List ℕ} {n m : ℕ}
    → Edits a b n
    → Edits c d m
    → Edits (reverse_aux a c) (reverse_aux b d) (n + m)
Edits-reverse_aux {c} {d} done f = subst (λ k. Edits c d k) (omega arith) f
Edits-reverse_aux (keep x e) f = Edits-reverse_aux e (keep x f)
Edits-reverse_aux {a} {b} {c} {d} (replace x y e) f =
    subst (λ k. Edits (reverse_aux a c) (reverse_aux b d) k) (omega arith)
      (Edits-reverse_aux e (replace x y f))
Edits-reverse_aux {a} {b} {c} {d} (delete x e) f =
    subst (λ k. Edits (reverse_aux a c) (reverse_aux b d) k) (omega arith)
      (Edits-reverse_aux e (delete x f))
Edits-reverse_aux {a} {b} {c} {d} (insert y e) f =
    subst (λ k. Edits (reverse_aux a c) (reverse_aux b d) k) (omega arith)
      (Edits-reverse_aux e (insert y f))

pub Edits-reverse : {a b : List ℕ} {n : ℕ} → Edits a b n → Edits (reverse a) (reverse b) n
Edits-reverse {a} {b} {n} e =
    subst (λ k. Edits (reverse a) (reverse b) k) (omega arith) (Edits-reverse_aux e done)

-- The distance is the same from the end.
pub distance-reverse : (a b : List ℕ) → distance (reverse a) (reverse b) ≡ distance a b
distance-reverse a b =
    let forth = distance-le (Edits-reverse (distance-Edits a b)) in
    let back = distance-le (Edits-reverse (distance-Edits (reverse a) (reverse b))) in
    let back' : distance a b ≤ distance (reverse a) (reverse b) =
      subst (λ x. distance x b ≤ distance (reverse a) (reverse b)) (reverse-reverse a)
        (subst (λ y. distance (reverse (reverse a)) y ≤ distance (reverse a) (reverse b))
          (reverse-reverse b) back) in
    omega (arith, forth, back')
