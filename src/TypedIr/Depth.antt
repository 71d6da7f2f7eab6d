-- ===== src/TypedIr/Depth.antt =====
-- How deep JSON nests, which bounds the recursion into callbacks.
use open_eo_ru_stac.Prelude.{
  ℕ, ◌≡◌, ◌≤◌, suc, max, arith, Bool-cases, inl, inr, sym, ap, ◌∙◌, Option, none, some, String,
  str_eq, if◌then◌else◌, List, [], ◌∷◌,
}
use open_eo_ru_stac.Json.{
  Value, null, bool, number, string, array, object, Items, empty, item, Fields, closed, field, get,
  get_field,
}
use open_eo_ru_stac.ProcessGraph.{Node}
use open_eo_ru_stac.TypedIr.{or_itself}

unfoldable mutual
  pub depth : Value → ℕ
  depth (array vs) = items_depth vs
  depth (object fs) = suc (fields_depth fs)
  depth _ = 0

  pub items_depth : Items → ℕ
  items_depth empty = 0
  items_depth (item v vs) = max (depth v) (items_depth vs)

  pub fields_depth : Fields → ℕ
  fields_depth closed = 0
  fields_depth (field k v fs) = max (depth v) (fields_depth fs)

-- How deep the arguments of the nodes nest.
unfoldable pub deepest : List Node → ℕ
unfolding fields_depth
deepest [] = 0
deepest ((id, p) ∷ nodes) = max (fields_depth p.arguments) (deepest nodes)

pub depth-get_field :
    (k : String) (fs : Fields) (v : Value) → get_field k fs ≡ some v → depth v ≤ fields_depth fs
unfolding get_field depth
depth-get_field k closed v h = cc
depth-get_field k (field j u fs) v h = elim (Bool-cases (str_eq j k)) [
  | inl same ↦
      let e : some u ≡ some v = ap (λ b. if b then some u else get_field k fs) (sym same) ∙ h in
      let values : u ≡ v = cc in let d = ap depth values in omega arith
  | inr other ↦
      let deeper =
        depth-get_field k fs v (ap (λ b. if b then some u else get_field k fs) (sym other) ∙ h) in
      omega arith
]

pub depth-get : (k : String) (v w : Value) → get k v ≡ some w → depth w ≤ depth v
unfolding get depth
depth-get k (object fs) w h = let d = depth-get_field k fs w h in omega arith
depth-get k null w h = cc
depth-get k (bool b) w h = cc
depth-get k (number n) w h = cc
depth-get k (string s) w h = cc
depth-get k (array vs) w h = cc

-- The graph that a callback's value stands for is no deeper than the value.
pub depth-or_itself :
    (v : Value) (o : Option Value) → get "process_graph" v ≡ o → depth (or_itself v o) ≤ depth v
depth-or_itself v none h = omega arith
depth-or_itself v (some pg) h = depth-get "process_graph" v pg h
