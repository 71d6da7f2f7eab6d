-- ===== src/GeoExecutor/Spelling/Rows.antt =====
-- The two rows of `levenshtein` hold the recursive distance of the prefixes read so far. A prefix is
-- taken in reverse, as the loops extend it.
use mathlib.Core.List.{reverse, reverse_aux, append_assoc}
use open_eo_ru_stac.Prelude.{
  ℕ, suc, ◌+◌, ◌≤◌, ◌≡◌, refl, sym, ap, ◌∙◌, subst, some, List, [], ◌∷◌, ◌++◌, length, get_elem?,
  set, replicate, length-replicate, length-append, ltb, arith, true,
}
use open_eo_ru_stac.GeoExecutor.Spelling.{store, fill_row, fill_rows, counted, levenshtein}
use open_eo_ru_stac.GeoExecutor.Spelling.Alignment.{
  Edits, distance, distance-Edits, distance-le, distance-reverse,
}

-- The row of `ra`, from the column that `rb` ends at on.
row_rest : List ℕ → List ℕ → List ℕ → List ℕ
row_rest ra rb [] = []
row_rest ra rb (y ∷ b) = distance ra (y ∷ rb) ∷ row_rest ra (y ∷ rb) b

abbrev row : List ℕ → List ℕ → List ℕ → List ℕ
row ra rb b = distance ra rb ∷ row_rest ra rb b

get_elem?-length :
    (xs : List ℕ) (y : ℕ) (ys : List ℕ) → get_elem? (xs ++ y ∷ ys) (length xs) ≡ some y
get_elem?-length [] y ys = refl
get_elem?-length (x ∷ xs) y ys = get_elem?-length xs y ys

get_elem?-suc-length :
    (xs : List ℕ) (x y : ℕ) (ys : List ℕ) → get_elem? (xs ++ x ∷ y ∷ ys) (suc (length xs)) ≡ some y
get_elem?-suc-length [] x y ys = refl
get_elem?-suc-length (z ∷ xs) x y ys = get_elem?-suc-length xs x y ys

store-suc-length :
    (xs : List ℕ) (x y : ℕ) (ys : List ℕ) (v : ℕ)
    → store (xs ++ x ∷ y ∷ ys) (suc (length xs)) v ≡ some (xs ++ x ∷ v ∷ ys)
store-suc-length xs x y ys v =
    let inside : ltb (suc (length xs)) (length (xs ++ x ∷ y ∷ ys)) ≡ true =
      ground (arith, length-append xs (x ∷ y ∷ ys)) in
    rw inside (ap some (written xs))
  where
    written : (xs : List ℕ) → set (xs ++ x ∷ y ∷ ys) (suc (length xs)) v ≡ xs ++ x ∷ v ∷ ys
    written [] = refl
    written (z ∷ xs) = ap (λ t. z ∷ t) (written xs)

length-row_rest : (ra rb b : List ℕ) → length (row_rest ra rb b) ≡ length b
unfolding row_rest
length-row_rest ra rb [] = refl
length-row_rest ra rb (y ∷ b) = ap suc (length-row_rest ra (y ∷ rb) b)

-- A column that is done moves from the rest of a row to what stands before it.
moved : (xs : List ℕ) (x : ℕ) (ys : List ℕ) → (xs ++ x ∷ []) ++ ys ≡ xs ++ x ∷ ys
moved xs x ys = append_assoc xs (x ∷ []) ys

length-moved : (xs : List ℕ) (x j : ℕ) → length xs ≡ j → length (xs ++ x ∷ []) ≡ suc j
length-moved xs x j h = omega (arith, length-append xs (x ∷ []))

-- The inner loop fills the row of `ca ∷ ra` from the row of `ra`.
fill_row-row :
    (ca : ℕ) (ra rb b before past ahead : List ℕ) (j : ℕ)
    → length before ≡ j
    → length past ≡ j
    → length ahead ≡ length b
    → fill_row ca (before ++ row ra rb b) j b (past ++ distance (ca ∷ ra) rb ∷ ahead)
      ≡ some (past ++ row (ca ∷ ra) rb b)
unfolding fill_row row_rest distance
fill_row-row ca ra rb [] before past [] j hb hp ha = refl
fill_row-row ca ra rb [] before past (z ∷ ahead) j hb hp ha = absurd (omega arith)
fill_row-row ca ra rb (y ∷ b) before past [] j hb hp ha = absurd (omega arith)
fill_row-row ca ra rb (y ∷ b) before past (z ∷ ahead) j hb hp ha =
    let prev : List ℕ = before ++ row ra rb (y ∷ b) in
    let curr : List ℕ = past ++ distance (ca ∷ ra) rb ∷ z ∷ ahead in
    let above : get_elem? prev (suc j) ≡ some (distance ra (y ∷ rb)) =
      subst (λ k. get_elem? prev (suc k) ≡ some (distance ra (y ∷ rb))) hb
        (get_elem?-suc-length before _ _ _) in
    let left : get_elem? curr j ≡ some (distance (ca ∷ ra) rb) =
      subst (λ k. get_elem? curr k ≡ some (distance (ca ∷ ra) rb)) hp (get_elem?-length past _ _) in
    let diagonal : get_elem? prev j ≡ some (distance ra rb) =
      subst (λ k. get_elem? prev k ≡ some (distance ra rb)) hb (get_elem?-length before _ _) in
    let written : (v : ℕ)
        → store curr (suc j) v ≡ some (past ++ distance (ca ∷ ra) rb ∷ v ∷ ahead) =
      λ v.
        subst (λ k. store curr (suc k) v ≡ some (past ++ distance (ca ∷ ra) rb ∷ v ∷ ahead)) hp
          (store-suc-length past _ _ _ v) in
    rw (above, left, diagonal, written)
      (ap
          (λ p.
            fill_row ca p (suc j) b
              (past ++ distance (ca ∷ ra) rb ∷ distance (ca ∷ ra) (y ∷ rb) ∷ ahead))
          (sym (moved before (distance ra rb) _))
        ∙ ap (λ c. fill_row ca ((before ++ distance ra rb ∷ []) ++ row ra (y ∷ rb) b) (suc j) b c)
            (sym (moved past (distance (ca ∷ ra) rb) (distance (ca ∷ ra) (y ∷ rb) ∷ ahead)))
        ∙ fill_row-row ca ra (y ∷ rb) b (before ++ distance ra rb ∷ [])
            (past ++ distance (ca ∷ ra) rb ∷ []) ahead (suc j) (length-moved before _ j hb)
            (length-moved past _ j hp) (omega arith)
        ∙ ap some (moved past (distance (ca ∷ ra) rb) _))

fill_rows-row :
    (b a ra curr : List ℕ) (i : ℕ)
    → length ra ≡ i
    → length curr ≡ suc (length b)
    → fill_rows b i a (row ra [] b) curr ≡ some (row (reverse_aux a ra) [] b)
unfolding fill_rows distance row_rest
fill_rows-row b [] ra curr i hi hc = refl
fill_rows-row b (ca ∷ a) ra [] i hi hc = absurd (omega arith)
fill_rows-row b (ca ∷ a) ra (z ∷ ahead) i hi hc =
    let first : i + 1 ≡ distance (ca ∷ ra) [] = omega arith in
    let filled = fill_row-row ca ra [] b [] [] ahead 0 refl refl (omega arith) in
    let inside : ltb 0 (length (z ∷ ahead)) ≡ true = ground arith in
    rw (inside, first, filled)
      (fill_rows-row b a (ca ∷ ra) (row ra [] b) (suc i) (ap suc hi)
        (ap suc (length-row_rest ra [] b)))

first_row : (rb b : List ℕ) → counted (length rb) (suc (length b)) ≡ row [] rb b
unfolding distance row_rest
first_row rb [] = refl
first_row rb (y ∷ b) = ap (λ t. length rb ∷ t) (first_row (y ∷ rb) b)

last_of_row :
    (ra rb b : List ℕ) → get_elem? (row ra rb b) (length b) ≡ some (distance ra (reverse_aux b rb))
unfolding row_rest
last_of_row ra rb [] = refl
last_of_row ra rb (y ∷ b) = last_of_row ra (y ∷ rb) b

pub levenshtein-eq-distance : (a b : List ℕ) → levenshtein a b ≡ some (distance a b)
unfolding levenshtein
levenshtein-eq-distance [] b = unfold distance in refl
levenshtein-eq-distance (ca ∷ a) [] = unfold distance in refl
levenshtein-eq-distance (ca ∷ a) (cb ∷ b) =
    let width : ℕ = length (cb ∷ b) in
    let rows : fill_rows (cb ∷ b) 0 (ca ∷ a) (counted 0 (suc width)) (replicate (suc width) 0)
        ≡ some (row (reverse (ca ∷ a)) [] (cb ∷ b)) =
      subst
        (λ p.
          fill_rows (cb ∷ b) 0 (ca ∷ a) p (replicate (suc width) 0)
          ≡ some (row (reverse (ca ∷ a)) [] (cb ∷ b)))
        (sym (first_row [] (cb ∷ b)))
        (fill_rows-row (cb ∷ b) (ca ∷ a) [] (replicate (suc width) 0) 0 refl
          (length-replicate (suc width) 0)) in
    rw rows
      (last_of_row (reverse (ca ∷ a)) [] (cb ∷ b) ∙ ap some (distance-reverse (ca ∷ a) (cb ∷ b)))

-- `levenshtein` stays within its rows, and its result is the least number of insertions, deletions
-- and replacements of characters that turn the one name into the other: that many do, and no fewer.
pub levenshtein-Least :
    (a b : List ℕ)
    → (d : ℕ) × (levenshtein a b ≡ some d) × Edits a b d × ((n : ℕ) → Edits a b n → d ≤ n)
levenshtein-Least a b =
    (distance a b, levenshtein-eq-distance a b, distance-Edits a b, λ n e. distance-le e)
