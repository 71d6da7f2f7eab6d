-- ===== src/GeoExecutor/Apply/Lookup.antt =====
-- The ids of a graph, and those in progress.
use open_eo_ru_stac.Prelude.{
  suc, ◌≡◌, refl, sym, ap, ◌∙◌, inl, inr, true, Bool-cases, String, some, List, [], ◌∷◌, length,
  str_eq, str_eq_iff, if◌then◌else◌, IsIn,
}
use open_eo_ru_stac.Json.{Value, Fields, closed, field, get_field}
use open_eo_ru_stac.GeoExecutor.Apply.{is_in_progress, fields_count}

abbrev pub names : Fields → List String
names closed = []
names (field k v fs) = k ∷ names fs

pub length-names : (fs : Fields) → length (names fs) ≡ fields_count fs
length-names closed = refl
length-names (field k v fs) = ap suc (length-names fs)

pub get_field-IsIn :
    (id : String) (fs : Fields) (v : Value) → get_field id fs ≡ some v → IsIn id (names fs)
unfolding get_field
get_field-IsIn id closed v h = cc
get_field-IsIn id (field k w fs) v h = elim (Bool-cases (str_eq k id)) [
  | inl same ↦ inl (sym ((str_eq_iff k id).0 same))
  | inr other ↦
      inr (get_field-IsIn id fs v (ap (λ b. if b then some w else get_field id fs) (sym other) ∙ h))
]

pub is_in_progress-IsIn :
    (id : String) (busy : List String) → is_in_progress id busy ≡ true → IsIn id busy
unfolding is_in_progress
is_in_progress-IsIn id [] h = cc
is_in_progress-IsIn id (j ∷ busy) h = elim (Bool-cases (str_eq j id)) [
  | inl same ↦ inl (sym ((str_eq_iff j id).0 same))
  | inr other ↦ inr (
      is_in_progress-IsIn id busy
        (ap (λ b. if b then true else is_in_progress id busy) (sym other) ∙ h))
]

pub IsIn-is_in_progress :
    (id : String) (busy : List String) → IsIn id busy → is_in_progress id busy ≡ true
unfolding is_in_progress
IsIn-is_in_progress id [] h = absurd h
IsIn-is_in_progress id (j ∷ busy) (inl e) = rw ((str_eq_iff j id).1 (sym e)) refl
IsIn-is_in_progress id (j ∷ busy) (inr at) = elim (Bool-cases (str_eq j id)) [
  | inl same ↦ rw same refl
  | inr other ↦ rw other (IsIn-is_in_progress id busy at)
]
