-- ===== src/GeoExecutor/Suggestions.antt =====
-- Which names `suggest` gives.
use open_eo_ru_stac.Prelude.{
  ℕ, ◌/◌, max, ◌≤◌, ◌<◌, ◌≡◌, refl, sym, ap, ◌∙◌, subst, ◌⊎◌, inl, inr, true, false, Bool-cases,
  String, some, List, [], ◌∷◌, length, map, take, length-take, length-map, leb, leb→le,
  if◌then◌else◌, IsIn, arith,
}
use open_eo_ru_stac.Prelude.Sorting.{
  sort_by, IsSorted, sort_by-IsIn, IsIn-sort_by, sort_by-IsSorted, take-IsIn, take-IsSorted,
  take-nearest, le_codes, le_codes_total, le_codes_trans,
}
use open_eo_ru_stac.FileStore.{codes}
use open_eo_ru_stac.FileStore.Utf8.{encode}
use open_eo_ru_stac.GeoExecutor.Spelling.Alignment.{distance}
use open_eo_ru_stac.GeoExecutor.Spelling.Rows.{levenshtein-eq-distance}
use open_eo_ru_stac.GeoExecutor.Registry.{
  ProcessRegistry, keys, le_scored, threshold, scored, closest, suggest,
}

le_scored_total : (a b : ℕ × String) → le_scored a b ≡ false → le_scored b a ≡ true
le_scored_total (d, p) (e, q) h = ground (arith, le_codes_total (codes p) (codes q))

le_scored_trans :
    (a b c : ℕ × String) → le_scored a b ≡ true → le_scored b c ≡ true → le_scored a c ≡ true
le_scored_trans (d, p) (e, q) (f, r) h k =
    ground (arith, le_codes_trans (codes p) (codes q) (codes r))

abbrev names_of : List (ℕ × String) → List String
names_of xs = map (λ e. e.1) xs

names_of-IsIn :
    (p : String) (xs : List (ℕ × String))
    → IsIn p (names_of xs)
    → (e : ℕ × String) × IsIn e xs × (e.1 ≡ p)
names_of-IsIn p [] h = absurd h
names_of-IsIn p (x ∷ xs) (inl eq) = (x, inl refl, sym eq)
names_of-IsIn p (x ∷ xs) (inr at) = let (e, found, eq) = names_of-IsIn p xs at in (e, inr found, eq)

IsIn-names_of : (e : ℕ × String) (xs : List (ℕ × String)) → IsIn e xs → IsIn e.1 (names_of xs)
IsIn-names_of e [] h = absurd h
IsIn-names_of e (x ∷ xs) (inl eq) = inl (ap (λ z. z.1) eq)
IsIn-names_of e (x ∷ xs) (inr at) = inr (IsIn-names_of e xs at)

module _ (name : String) where
  -- The distance of a registered name.
  abbrev pub away : String → ℕ
  away p = distance (codes name) (codes p)

  -- Nearer, or as near and not behind in the alphabet.
  abbrev pub Before : String → String → Type 0
  Before p q = (away p < away q) ⊎ ((away p ≡ away q) × (le_codes (codes p) (codes q) ≡ true))

  -- A third of the name's bytes in UTF-8, and 2 at least.
  abbrev pub reach : ℕ
  reach = max 2 (length (encode (codes name)) / 3)

  -- Each comes before those behind it.
  abbrev pub InOrder : List String → Type 0
  InOrder [] = Unit
  InOrder (p ∷ ps) = ((q : String) → IsIn q ps → Before p q) × InOrder ps

  abbrev tagged : String → ℕ × String
  tagged p = (away p, p)

  module _ {H : Type 0} (limit : ℕ) where
    -- The scored names are the tagged names within the limit.
    record Scores (r : ProcessRegistry H) (xs : List (ℕ × String)) : Type 0 where
      sound :
          (e : ℕ × String) → IsIn e xs → (e ≡ tagged e.1) × IsIn e.1 (keys r) × (away e.1 ≤ limit)
      complete : (p : String) → IsIn p (keys r) → away p ≤ limit → IsIn (tagged p) xs

    Scores-kept :
        (n : String) (h : H) (r : ProcessRegistry H) (xs : List (ℕ × String))
        → away n ≤ limit
        → Scores r xs
        → Scores ((n, h) ∷ r) (tagged n ∷ xs)
    Scores-kept n h r xs near s = record {
      sound = λ e at. elim at [
        | inl eq ↦
            let same : e.1 ≡ n = ap (λ x. x.1) eq in
            (eq ∙ ap tagged (sym same), inl same, subst (λ x. away x ≤ limit) (sym same) near)
        | inr later ↦ let (eq, k, l) = s.sound e later in (eq, inr k, l)
      ];
      complete = λ p at le. elim at [
        | inl eq ↦ inl (ap tagged eq)
        | inr later ↦ inr (s.complete p later le)
      ];
    }

    Scores-dropped :
        (n : String) (h : H) (r : ProcessRegistry H) (xs : List (ℕ × String))
        → limit < away n
        → Scores r xs
        → Scores ((n, h) ∷ r) xs
    Scores-dropped n h r xs far s = record {
      sound = λ e at. let (eq, k, l) = s.sound e at in (eq, inr k, l);
      complete = λ p at le. elim at [
        | inl eq ↦ absurd (clash (subst (λ x. away x ≤ limit) eq le))
        | inr later ↦ s.complete p later le
      ];
    }
      where
        clash : away n ≤ limit → ⊥
        clash le = omega arith

    scored-Scores :
        (r : ProcessRegistry H)
        → (xs : List (ℕ × String)) × (scored limit name r ≡ some xs) × Scores r xs
    unfolding scored
    scored-Scores [] =
        ([], refl, record { sound = λ e at. absurd at; complete = λ p at le. absurd at })
    scored-Scores ((n, h) ∷ r) =
        let (xs, eq, s) = scored-Scores r in
        let computed : scored limit name ((n, h) ∷ r)
            ≡ some (if leb (away n) limit then tagged n ∷ xs else xs) =
          rw (levenshtein-eq-distance (codes name) (codes n), eq) refl in
        elim (Bool-cases (leb (away n) limit)) [
          | inl near ↦ (
            tagged n ∷ xs,
            computed ∙ ap (λ b. some (if b then tagged n ∷ xs else xs)) near,
            Scores-kept n h r xs (leb→le (away n) limit near) s,
          )
          | inr far ↦ (
            xs,
            computed ∙ ap (λ b. some (if b then tagged n ∷ xs else xs)) far,
            Scores-dropped n h r xs (ground arith) s,
          )
        ]

  abbrev Tagged : List (ℕ × String) → Type 0
  Tagged xs = (e : ℕ × String) → IsIn e xs → e ≡ tagged e.1

  nearer : (p q : String) → le_scored (tagged p) (tagged q) ≡ true → Before p q
  nearer p q h = ground arith

  le_of_tagged :
      (e f : ℕ × String) → e ≡ tagged e.1 → f ≡ tagged f.1 → le_scored e f ≡ true → Before e.1 f.1
  le_of_tagged e f he hf h =
      nearer e.1 f.1
        (subst (λ x. le_scored (tagged e.1) x ≡ true) hf (subst (λ x. le_scored x f ≡ true) he h))

  names_of-IsSorted :
      (xs : List (ℕ × String)) → Tagged xs → IsSorted le_scored xs → InOrder (names_of xs)
  names_of-IsSorted [] tag s = tt
  names_of-IsSorted (x ∷ xs) tag (first, s) = (
    λ p at.
        let (e, found, eq) = names_of-IsIn p xs at in
        subst (λ q. Before x.1 q) eq
          (le_of_tagged x e (tag x (inl refl)) (tag e (inr found)) (first e found)),
    names_of-IsSorted xs (λ e at. tag e (inr at)) s,
  )

  module _ {H : Type 0} where
    -- The names are registered and within the threshold, the nearest first and those at one distance
    -- by name; what else is within the threshold comes behind them all, and was left out because they
    -- are as many as were asked for.
    pub record Suggests (max_hints : ℕ) (r : ProcessRegistry H) (names : List String) : Type 0 where
      pub few : length names ≤ max_hints
      pub near : (p : String) → IsIn p names → IsIn p (keys r) × (away p ≤ reach)
      pub sorted : InOrder names
      pub nearest :
          (p : String)
          → IsIn p (keys r)
          → away p ≤ reach
          → IsIn p names ⊎ ((length names ≡ max_hints) × ((q : String) → IsIn q names → Before q p))

    closest-Suggests :
        (max_hints : ℕ) (r : ProcessRegistry H) (xs : List (ℕ × String))
        → Scores reach r xs
        → Suggests max_hints r (names_of (take max_hints (sort_by le_scored xs)))
    closest-Suggests max_hints r xs s =
        let ys : List (ℕ × String) = sort_by le_scored xs in
        let sorted : IsSorted le_scored ys =
          sort_by-IsSorted le_scored (λ e. Unit {0}) (λ a b _ _. le_scored_total a b)
            (λ a b c _ _ _. le_scored_trans a b c) xs (λ e at. tt) in
        let from : (e : ℕ × String) → IsIn e (take max_hints ys) → IsIn e xs =
          λ e at. sort_by-IsIn le_scored e xs (take-IsIn le_scored max_hints e ys at) in
        let tag : Tagged (take max_hints ys) = λ e at. (s.sound e (from e at)).0 in
        record {
          few = omega (
            arith,
            length-map (take max_hints ys) (λ (e : ℕ × String). e.1),
            length-take max_hints ys,
          );
          near = λ p at.
              let (e, found, eq) = names_of-IsIn p (take max_hints ys) at in
              let (t, k, l) = s.sound e (from e found) in
              (subst (λ q. IsIn q (keys r)) eq k, subst (λ q. away q ≤ reach) eq l);
          sorted =
              names_of-IsSorted (take max_hints ys) tag
                (take-IsSorted le_scored max_hints ys sorted);
          nearest = λ p at le.
              elim (take-nearest le_scored max_hints (tagged p) ys sorted
                (IsIn-sort_by le_scored (tagged p) xs (s.complete p at le))) [
                  | inl kept ↦ inl (IsIn-names_of (tagged p) (take max_hints ys) kept)
                  | inr (full, behind) ↦ inr (
                    length-map (take max_hints ys) (λ e. e.1) ∙ full,
                    λ q listed.
                        let (e, found, eq) = names_of-IsIn q (take max_hints ys) listed in
                        subst (λ z. Before z p) eq
                          (le_of_tagged e (tagged p) (tag e found) refl (behind e found)),
                  )
                ];
        }

    -- `suggest` does not panic. It gives at most `max_hints` names, which are registered and within
    -- a third of the name's bytes, or 2 where that is less, the nearest first and those at one distance by name; where it leaves out a name
    -- within the threshold, it gives as many as were asked for, and none of them comes behind that name.
    pub suggest-Suggests :
        (max_hints : ℕ) (r : ProcessRegistry H)
        → (names : List String) × (suggest name max_hints r ≡ some names)
          × Suggests max_hints r names
    unfolding suggest
    suggest-Suggests max_hints r =
        let (xs, eq, s) = scored-Scores (threshold name) r in
        let limit : threshold name ≡ reach = omega arith in
        (
          names_of (take max_hints (sort_by le_scored xs)),
          ap (closest max_hints) eq,
          closest-Suggests max_hints r xs (subst (λ t. Scores t r xs) limit s),
        )
