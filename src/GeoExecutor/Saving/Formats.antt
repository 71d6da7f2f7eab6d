-- ===== src/GeoExecutor/Saving/Formats.antt =====
-- What `OutputFormat::parse` reads in a text.
use open_eo_ru_stac.FileStore.{codes}
use open_eo_ru_stac.Prelude.{
  ℕ, ◌||◌, arith, subst, IsIn, ◌≡◌, ◌≢◌, refl, sym, ap, ◌∙◌, inl, inr, Bool, true, false,
  Bool-cases, String, List, [], ◌∷◌, map, if◌then◌else◌,
}
use open_eo_ru_stac.GeoExecutor.Saving.{
  OutputFormat, upper, same_codes, is_named, gtiff, cog, json_text, png, net_cdf, parse,
}

-- The names of the formats.
abbrev pub known_names : List (String × OutputFormat)
known_names =
    ("GTIFF", gtiff)
    ∷ ("TIFF", gtiff)
    ∷ ("GEOTIFF", gtiff)
    ∷ ("COG", cog)
    ∷ ("CLOUD_OPTIMIZED_GEOTIFF", cog)
    ∷ ("JSON", json_text)
    ∷ ("PNG", png)
    ∷ ("NETCDF", net_cdf)
    ∷ ("NC", net_cdf)
    ∷ []

-- The format of a text whose letters are a name's but for their case, and GTiff for no name.
pub data Reads (s : String) : OutputFormat → Type 0 where
  listed :
      (name : String) (format : OutputFormat)
      → IsIn (name, format) known_names
      → map upper (codes s) ≡ codes name
      → Reads s format
  unlisted :
      ((name : String) (format : OutputFormat)
        → IsIn (name, format) known_names
        → map upper (codes s) ≢ codes name)
      → Reads s gtiff

same_codes-eq : (xs ys : List ℕ) → same_codes xs ys ≡ true → xs ≡ ys
same_codes-eq [] [] h = refl
same_codes-eq [] (y ∷ ys) h = cc
same_codes-eq (x ∷ xs) [] h = cc
same_codes-eq (x ∷ xs) (y ∷ ys) h = ground (arith, same_codes-eq xs ys)

same_codes_refl : (xs : List ℕ) → same_codes xs xs ≡ true
same_codes_refl [] = refl
same_codes_refl (x ∷ xs) = ground (arith, same_codes_refl xs)

-- The first name of a table that is the text.
first_named : List ℕ → List (String × OutputFormat) → OutputFormat
first_named s [] = gtiff
first_named s ((name, format) ∷ table) = if is_named s name then format else first_named s table

data Found (s : List ℕ) (table : List (String × OutputFormat)) : OutputFormat → Type 0 where
  hit :
      (name : String) (format : OutputFormat)
      → IsIn (name, format) table
      → s ≡ codes name
      → Found s table format
  miss :
      ((name : String) (format : OutputFormat) → IsIn (name, format) table → s ≢ codes name)
      → Found s table gtiff

Found-later :
    (s : List ℕ) (n : String) (f : OutputFormat) (table : List (String × OutputFormat))
    (r : OutputFormat)
    → is_named s n ≡ false
    → Found s table r
    → Found s ((n, f) ∷ table) r
Found-later s n f table r other (hit name format at same) = hit name format (inr at) same
Found-later s n f table r other (miss absent) = miss (λ name format at same. elim at [
  | inl e ↦
      let named : s ≡ codes n = same ∙ ap (λ p. codes p.0) e in
      let true_ : is_named s n ≡ true =
        subst (λ xs. same_codes s xs ≡ true) named (same_codes_refl s) in
      cc
  | inr later ↦ absent name format later same
])

first_named-Found :
    (s : List ℕ) (table : List (String × OutputFormat)) → Found s table (first_named s table)
unfolding first_named
first_named-Found s [] = miss (λ name format at. absurd at)
first_named-Found s ((n, f) ∷ table) = elim (Bool-cases (is_named s n)) [
  | inl same ↦ rw same (hit n f (inl refl) (same_codes-eq s (codes n) same))
  | inr other ↦ rw other (Found-later s n f table _ other (first_named-Found s table))
]

-- The arms with several names, one name after another.
arms_apart :
    (a b c d e f g h i : Bool)
    → (if a || b || c
        then gtiff
        else if d || e
        then cog
        else if f
        then json_text
        else if g
        then png
        else if h || i
        then net_cdf
        else gtiff)
      ≡ (if a
          then gtiff
          else if b
          then gtiff
          else if c
          then gtiff
          else if d
          then cog
          else if e
          then cog
          else if f
          then json_text
          else if g
          then png
          else if h
          then net_cdf
          else if i
          then net_cdf
          else gtiff)
arms_apart true b c d e f g h i = refl
arms_apart false true c d e f g h i = refl
arms_apart false false true d e f g h i = refl
arms_apart false false false true e f g h i = refl
arms_apart false false false false true f g h i = refl
arms_apart false false false false false true g h i = refl
arms_apart false false false false false false true h i = refl
arms_apart false false false false false false false true i = refl
arms_apart false false false false false false false false true = refl
arms_apart false false false false false false false false false = refl

pub parse-Reads : (s : String) → Reads s (parse s)
unfolding parse first_named
parse-Reads s =
    let xs : List ℕ = map upper (codes s) in
    let same : parse s ≡ first_named xs known_names =
      arms_apart (is_named xs "GTIFF") (is_named xs "TIFF") (is_named xs "GEOTIFF")
        (is_named xs "COG") (is_named xs "CLOUD_OPTIMIZED_GEOTIFF") (is_named xs "JSON")
        (is_named xs "PNG") (is_named xs "NETCDF") (is_named xs "NC") in
    read (parse s) (subst (Found xs known_names) (sym same) (first_named-Found xs known_names))
  where
    read : (f : OutputFormat) → Found (map upper (codes s)) known_names f → Reads s f
    read f (hit name format at same) = listed name format at same
    read f (miss absent) = unlisted absent
