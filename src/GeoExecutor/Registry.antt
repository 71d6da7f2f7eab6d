-- ===== src/GeoExecutor/Registry.antt =====
-- geo_executor/registry.rs: `ProcessRegistry`, for handlers of any type. The hash map is the list of
-- its entries, in the order in which the map walks them.
use open_eo_ru_stac.Prelude.{
  ℕ, ◌/◌, max, Bool, true, false, String, Option, none, some, List, [], ◌∷◌, length, map, take,
  str_eq, ltb, leb, ◌==◌, if◌then◌else◌,
}
use open_eo_ru_stac.Prelude.Sorting.{sort_by, le_codes}
use open_eo_ru_stac.FileStore.{codes}
use open_eo_ru_stac.FileStore.Utf8.{encode}
use open_eo_ru_stac.GeoExecutor.Spelling.{levenshtein}

abbrev pub ProcessRegistry : Type 0 → Type 0
ProcessRegistry H = List (String × H)

abbrev pub le_name : String → String → Bool
le_name a b = le_codes (codes a) (codes b)

-- The order of the scored names: by distance, then by name.
abbrev pub le_scored : ℕ × String → ℕ × String → Bool
le_scored (d, p) (e, q) = if ltb d e then true else if d == e then le_name p q else false

-- `name.len()` counts bytes.
abbrev pub threshold : String → ℕ
threshold name = max (length (encode (codes name)) / 3) 2

abbrev pub scored_with :
    ℕ → String → Option ℕ → Option (List (ℕ × String)) → Option (List (ℕ × String))
scored_with limit p (some d) (some rest) = some (if leb d limit then (d, p) ∷ rest else rest)
scored_with limit p _ _ = none

abbrev pub closest : ℕ → Option (List (ℕ × String)) → Option (List String)
closest max_hints none = none
closest max_hints (some names) = some (map (λ e. e.1) (take max_hints (sort_by le_scored names)))

module _ {H : Type 0} where
  unfoldable pub register : String → H → ProcessRegistry H → ProcessRegistry H
  register name handler [] = (name, handler) ∷ []
  register name handler ((n, h) ∷ r) =
      let rest = register name handler r in
      if str_eq n name then (n, handler) ∷ r else (n, h) ∷ rest

  unfoldable pub get : String → ProcessRegistry H → Option H
  get name [] = none
  get name ((n, h) ∷ r) = if str_eq n name then some h else get name r

  abbrev pub is_some : Option H → Bool
  is_some none = false
  is_some (some h) = true

  unfoldable pub contains : String → ProcessRegistry H → Bool
  unfolding get
  contains name r = is_some (get name r)

  abbrev pub keys : ProcessRegistry H → List String
  keys r = map (λ e. e.0) r

  unfoldable pub registered_processes : ProcessRegistry H → List String
  unfolding sort_by le_codes codes
  registered_processes r = sort_by le_name (keys r)

  -- The names within the threshold, with their distances; `none` where `levenshtein` panics.
  unfoldable pub scored : ℕ → String → ProcessRegistry H → Option (List (ℕ × String))
  unfolding levenshtein codes
  scored limit name [] = some []
  scored limit name ((n, h) ∷ r) =
      scored_with limit n (levenshtein (codes name) (codes n)) (scored limit name r)

  unfoldable pub suggest : String → ℕ → ProcessRegistry H → Option (List String)
  unfolding scored sort_by le_codes codes encode
  suggest name max_hints r = closest max_hints (scored (threshold name) name r)
