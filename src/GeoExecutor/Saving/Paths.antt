-- ===== src/GeoExecutor/Saving/Paths.antt =====
-- The path of the file behind the data that is saved.
use open_eo_ru_stac.Prelude.{
  ◌≡◌, ◌≢◌, refl, subst, inl, inr, Bool, true, false, Bool-cases, String, Option, none, some, List,
  [], ◌∷◌, str_eq, str_eq_iff, if◌then◌else◌,
}
use open_eo_ru_stac.Json.{
  Value, null, bool, number, string, array, object, Items, empty, item, Fields, closed, field, get,
  get_field,
}
use open_eo_ru_stac.GeoExecutor.SubGraph.{as_text, as_object}
use open_eo_ru_stac.GeoExecutor.Saving.{
  index_bands, known_band, other_band, or_band, is_present, first_text, band_path, bands_path,
  cube_path, raster_path, extract_save_path,
}

pub data TextOf : Option Value → Option String → Type 0 where
  text : (s : String) → TextOf (some (string s)) (some s)
  no_text : (o : Option Value) → ((s : String) → o ≢ some (string s)) → TextOf o none

-- The text at the head of an array.
pub data FirstText : Option Value → Option String → Type 0 where
  first :
      (v : Value) (vs : Items) (t : Option String)
      → TextOf (some v) t
      → FirstText (some (array (item v vs))) t
  no_first :
      (o : Option Value)
      → ((v : Value) (vs : Items) → o ≢ some (array (item v vs)))
      → FirstText o none

-- The first of these bands that there is.
pub data Preferred (bands : Fields) : List String → Option String → Type 0 where
  here :
      (k : String) (ks : List String) (v : Value)
      → get_field k bands ≡ some v
      → Preferred bands (k ∷ ks) (some k)
  later :
      (k : String) (ks : List String) (r : Option String)
      → get_field k bands ≡ none
      → Preferred bands ks r
      → Preferred bands (k ∷ ks) r
  nowhere : Preferred bands [] none

-- The first band but SCL.
pub data FirstOther : Fields → Option String → Type 0 where
  no_other : FirstOther closed none
  taken : (k : String) (v : Value) (fs : Fields) → k ≢ "SCL" → FirstOther (field k v fs) (some k)
  skipped :
      (k : String) (v : Value) (fs : Fields) (r : Option String)
      → k ≡ "SCL"
      → FirstOther fs r
      → FirstOther (field k v fs) r

pub data Picks (bands : Fields) : Option String → Type 0 where
  index :
      (k : String)
      → Preferred bands ("ndvi" ∷ "ndmi" ∷ "ndwi" ∷ "evi" ∷ "savi" ∷ "msavi" ∷ []) (some k)
      → Picks bands (some k)
  other :
      (r : Option String)
      → Preferred bands ("ndvi" ∷ "ndmi" ∷ "ndwi" ∷ "evi" ∷ "savi" ∷ "msavi" ∷ []) none
      → FirstOther bands r
      → Picks bands r

-- The path of a raster, or the first path of the band of a cube that is picked.
pub data PathOf (v : Value) : Option String → Type 0 where
  of_raster :
      (r : Value) (t : Option String)
      → get "__raster" v ≡ some r
      → TextOf (get "path" r) t
      → PathOf v t
  of_cube :
      (cube : Value) (bands : Fields) (k : String) (t : Option String)
      → get "__raster" v ≡ none
      → get "__cube" v ≡ some cube
      → get "bands" cube ≡ some (object bands)
      → Picks bands (some k)
      → FirstText (get_field k bands) t
      → PathOf v t
  no_band :
      (cube : Value) (bands : Fields)
      → get "__raster" v ≡ none
      → get "__cube" v ≡ some cube
      → get "bands" cube ≡ some (object bands)
      → Picks bands none
      → PathOf v none
  no_bands :
      (cube : Value)
      → get "__raster" v ≡ none
      → get "__cube" v ≡ some cube
      → ((bands : Fields) → get "bands" cube ≢ some (object bands))
      → PathOf v none
  no_file : get "__raster" v ≡ none → get "__cube" v ≡ none → PathOf v none

as_text-TextOf : (o : Option Value) → TextOf o (as_text o)
as_text-TextOf none = no_text none (λ s e. cc)
as_text-TextOf (some null) = no_text (some null) (λ s e. cc)
as_text-TextOf (some (bool b)) = no_text (some (bool b)) (λ s e. cc)
as_text-TextOf (some (number n)) = no_text (some (number n)) (λ s e. cc)
as_text-TextOf (some (string s)) = text s
as_text-TextOf (some (array vs)) = no_text (some (array vs)) (λ s e. cc)
as_text-TextOf (some (object fs)) = no_text (some (object fs)) (λ s e. cc)

first_text-FirstText : (o : Option Value) → FirstText o (first_text o)
first_text-FirstText none = no_first none (λ v vs e. cc)
first_text-FirstText (some null) = no_first (some null) (λ v vs e. cc)
first_text-FirstText (some (bool b)) = no_first (some (bool b)) (λ v vs e. cc)
first_text-FirstText (some (number n)) = no_first (some (number n)) (λ v vs e. cc)
first_text-FirstText (some (string s)) = no_first (some (string s)) (λ v vs e. cc)
first_text-FirstText (some (array empty)) = no_first (some (array empty)) (λ v vs e. cc)
first_text-FirstText (some (array (item v vs))) = first v vs _ (as_text-TextOf (some v))
first_text-FirstText (some (object fs)) = no_first (some (object fs)) (λ v vs e. cc)

known_band-Preferred :
    (ks : List String) (bands : Fields) → Preferred bands ks (known_band ks bands)
known_band-Preferred [] bands = nowhere
known_band-Preferred (k ∷ ks) bands =
    choose (known_band-Preferred ks bands) (get_field k bands) refl
  where
    choose :
        Preferred bands ks (known_band ks bands)
        → (o : Option Value) → get_field k bands ≡ o
        → Preferred bands (k ∷ ks) (if is_present o then some k else known_band ks bands)
    choose rest none eq = later k ks _ eq rest
    choose rest (some v) eq = here k ks v eq

other_band-FirstOther : (bands : Fields) → FirstOther bands (other_band bands)
other_band-FirstOther closed = no_other
other_band-FirstOther (field k v fs) = elim (Bool-cases (str_eq k "SCL")) [
  | inl same ↦ rw same (skipped k v fs _ ((str_eq_iff k "SCL").0 same) (other_band-FirstOther fs))
  | inr apart ↦ rw apart (taken k v fs (λ e. clash ((str_eq_iff k "SCL").1 e) apart))
]
  where
    clash : {b : Bool} → b ≡ true → b ≡ false → ⊥
    clash t f = cc

or_band-Picks :
    (bands : Fields) (o : Option String)
    → Preferred bands index_bands o
    → Picks bands (or_band o (other_band bands))
or_band-Picks bands (some k) found = index k found
or_band-Picks bands none found = other _ found (other_band-FirstOther bands)

band_path-PathOf :
    (v cube : Value) (bands : Fields) (o : Option String)
    → get "__raster" v ≡ none
    → get "__cube" v ≡ some cube
    → get "bands" cube ≡ some (object bands)
    → Picks bands o
    → PathOf v (band_path bands o)
band_path-PathOf v cube bands none r c b picks = no_band cube bands r c b picks
band_path-PathOf v cube bands (some k) r c b picks =
    of_cube cube bands k _ r c b picks (first_text-FirstText (get_field k bands))

bands_path-PathOf :
    (v cube : Value) (o : Option Value)
    → get "__raster" v ≡ none
    → get "__cube" v ≡ some cube
    → get "bands" cube ≡ o
    → PathOf v (bands_path (as_object o))
bands_path-PathOf v cube none r c b = no_bands cube r c (λ bands e. cc)
bands_path-PathOf v cube (some null) r c b = no_bands cube r c (λ bands e. cc)
bands_path-PathOf v cube (some (bool t)) r c b = no_bands cube r c (λ bands e. cc)
bands_path-PathOf v cube (some (number n)) r c b = no_bands cube r c (λ bands e. cc)
bands_path-PathOf v cube (some (string s)) r c b = no_bands cube r c (λ bands e. cc)
bands_path-PathOf v cube (some (array vs)) r c b = no_bands cube r c (λ bands e. cc)
bands_path-PathOf v cube (some (object bands)) r c b =
    band_path-PathOf v cube bands _ r c b
      (or_band-Picks bands (known_band index_bands bands) (known_band-Preferred index_bands bands))

cube_path-PathOf :
    (v : Value) (o : Option Value)
    → get "__raster" v ≡ none
    → get "__cube" v ≡ o
    → PathOf v (cube_path o)
cube_path-PathOf v none r c = no_file r c
cube_path-PathOf v (some cube) r c = bands_path-PathOf v cube (get "bands" cube) r c refl

raster_path-PathOf :
    (v : Value) (o : Option Value)
    → get "__raster" v ≡ o
    → PathOf v (raster_path o (get "__cube" v))
raster_path-PathOf v none r = cube_path-PathOf v (get "__cube" v) r refl
raster_path-PathOf v (some raster) r = of_raster raster _ r (as_text-TextOf (get "path" raster))

pub extract_save_path-PathOf :
    (v : Value) (o : Option String) → extract_save_path v ≡ o → PathOf v o
unfolding extract_save_path
extract_save_path-PathOf v o eq = subst (PathOf v) eq (raster_path-PathOf v (get "__raster" v) refl)
