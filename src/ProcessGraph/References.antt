-- ===== src/ProcessGraph/References.antt =====
-- The references of an argument, as a flat list.
use open_eo_ru_stac.Prelude.{
  ◌>>=◌, ℕ, suc, Bool, true, false, ◌≡◌, refl, ◌∙◌, ap, sym, String, Option, none, some, List, [],
  ◌∷◌, ◌++◌, ltb, if◌then◌else◌, Result, ok, err,
}
use open_eo_ru_stac.Json.{
  Value, null, bool, number, string, array, object, Items, empty, item, Fields, closed, field,
  get_field,
}
use open_eo_ru_stac.ProcessGraph.{
  GraphError, depth_exceeded, max_subgraph_depth, collect_in_value, collect_in_items,
  collect_in_fields, collect_from_node_refs, in_object, guarded,
}

pub data Found : Type 0 where
  link : String → Found
  too_deep : Found

abbrev found_object : Option Value → Option Value → List Found → List Found
found_object (some (string id)) sub inside = link id ∷ []
found_object other (some _) inside = []
found_object other none inside = inside

abbrev within : ℕ → List Found → List Found
within depth found = if ltb max_subgraph_depth depth then too_deep ∷ [] else found

-- What lies below a value, from left to right: each link, but none inside a sub-graph, and each
-- value that lies too deep.
unfoldable mutual
  unfolding get_field

  pub found_in_value : Value → ℕ → List Found
  found_in_value null depth = within depth []
  found_in_value (bool _) depth = within depth []
  found_in_value (number _) depth = within depth []
  found_in_value (string _) depth = within depth []
  found_in_value (array vs) depth = within depth (found_in_items vs (suc depth))
  found_in_value (object fs) depth = within depth (
      found_object (get_field "from_node" fs) (get_field "process_graph" fs)
        (found_in_fields fs (suc depth)))

  pub found_in_items : Items → ℕ → List Found
  found_in_items empty depth = []
  found_in_items (item v vs) depth = found_in_value v depth ++ found_in_items vs depth

  pub found_in_fields : Fields → ℕ → List Found
  found_in_fields closed depth = []
  found_in_fields (field k v fs) depth = found_in_value v depth ++ found_in_fields fs depth

module _ {S : Type 0} (visit : String → S → Result S GraphError) where
  -- One visit for each link, up to the first error.
  abbrev pub visit_all : List Found → S → Result S GraphError
  visit_all [] s = ok s
  visit_all (link id ∷ fs) s = visit id s >>= visit_all fs
  visit_all (too_deep ∷ fs) s = err (depth_exceeded max_subgraph_depth)

  bind_visit_all :
      (gs : List Found) (r : Result S GraphError) (fs : List Found)
      → ((s : S) → visit_all (fs ++ gs) s ≡ (visit_all fs s >>= visit_all gs))
      → (r >>= visit_all (fs ++ gs)) ≡ ((r >>= visit_all fs) >>= visit_all gs)
  bind_visit_all gs (ok s) fs h = h s
  bind_visit_all gs (err e) fs h = refl

  visit_all-append :
      (fs gs : List Found) (s : S) → visit_all (fs ++ gs) s ≡ (visit_all fs s >>= visit_all gs)
  visit_all-append [] gs s = refl
  visit_all-append (link id ∷ fs) gs s =
      bind_visit_all gs (visit id s) fs (λ s'. visit_all-append fs gs s')
  visit_all-append (too_deep ∷ fs) gs s = refl

  bind_congr :
      (r : Result S GraphError) (f g : S → Result S GraphError)
      → ((s : S) → f s ≡ g s)
      → (r >>= f) ≡ (r >>= g)
  bind_congr (ok s) f g h = h s
  bind_congr (err e) f g h = refl

  -- A value, and then what is behind it.
  in_sequence :
      (first : Result S GraphError) (fs gs : List Found) (next : S → Result S GraphError) (s : S)
      → first ≡ visit_all fs s
      → ((s' : S) → next s' ≡ visit_all gs s')
      → (first >>= next) ≡ visit_all (fs ++ gs) s
  in_sequence first fs gs next s h k =
      ap (λ r. r >>= next) h
      ∙ bind_congr (visit_all fs s) next (visit_all gs) k
      ∙ sym (visit_all-append fs gs s)

  guarded-within :
      (depth : ℕ) (s : S) (r : Result S GraphError) (fs : List Found)
      → r ≡ visit_all fs s
      → guarded visit depth r ≡ visit_all (within depth fs) s
  guarded-within depth s r fs h = choose (ltb max_subgraph_depth depth)
    where
      choose :
          (b : Bool)
          → (if b then err (depth_exceeded max_subgraph_depth) else r)
            ≡ visit_all (if b then too_deep ∷ [] else fs) s
      choose true = refl
      choose false = h

  bind_ok : (r : Result S GraphError) → r ≡ (r >>= ok)
  bind_ok (ok s) = refl
  bind_ok (err e) = refl

  in_object-visit_all :
      (from sub : Option Value) (s : S) (r : Result S GraphError) (fs : List Found)
      → r ≡ visit_all fs s
      → in_object visit from sub s r ≡ visit_all (found_object from sub fs) s
  in_object-visit_all (some (string id)) sub s r fs h = bind_ok (visit id s)
  in_object-visit_all none none s r fs h = h
  in_object-visit_all none (some _) s r fs h = refl
  in_object-visit_all (some null) none s r fs h = h
  in_object-visit_all (some null) (some _) s r fs h = refl
  in_object-visit_all (some (bool _)) none s r fs h = h
  in_object-visit_all (some (bool _)) (some _) s r fs h = refl
  in_object-visit_all (some (number _)) none s r fs h = h
  in_object-visit_all (some (number _)) (some _) s r fs h = refl
  in_object-visit_all (some (array _)) none s r fs h = h
  in_object-visit_all (some (array _)) (some _) s r fs h = refl
  in_object-visit_all (some (object _)) none s r fs h = h
  in_object-visit_all (some (object _)) (some _) s r fs h = refl

  mutual
    unfolding collect_in_value found_in_value

    value_lem :
        (v : Value) (depth : ℕ) (s : S)
        → collect_in_value visit v depth s ≡ visit_all (found_in_value v depth) s
    value_lem null depth s = guarded-within depth s _ _ refl
    value_lem (bool _) depth s = guarded-within depth s _ _ refl
    value_lem (number _) depth s = guarded-within depth s _ _ refl
    value_lem (string _) depth s = guarded-within depth s _ _ refl
    value_lem (array vs) depth s = guarded-within depth s _ _ (items_lem vs (suc depth) s)
    value_lem (object fs) depth s = guarded-within depth s _ _ (
        in_object-visit_all (get_field "from_node" fs) (get_field "process_graph" fs) s _ _
          (fields_lem fs (suc depth) s))

    items_lem :
        (vs : Items) (depth : ℕ) (s : S)
        → collect_in_items visit vs depth s ≡ visit_all (found_in_items vs depth) s
    items_lem empty depth s = refl
    items_lem (item v vs) depth s =
        in_sequence _ (found_in_value v depth) (found_in_items vs depth)
          (collect_in_items visit vs depth) s (value_lem v depth s) (items_lem vs depth)

    fields_lem :
        (fs : Fields) (depth : ℕ) (s : S)
        → collect_in_fields visit fs depth s ≡ visit_all (found_in_fields fs depth) s
    fields_lem closed depth s = refl
    fields_lem (field k v fs) depth s =
        in_sequence _ (found_in_value v depth) (found_in_fields fs depth)
          (collect_in_fields visit fs depth) s (value_lem v depth s) (fields_lem fs depth)

  -- `collect_from_node_refs` calls `visit` for each link below the arguments, from left to right,
  -- with no link of a sub-graph among them, and stops at the first error of `visit` or at the first
  -- value more than 64 levels deep, with that error.
  pub collect_from_node_refs-visit_all :
      (args : Fields) (s : S)
      → collect_from_node_refs visit args s ≡ visit_all (found_in_fields args 0) s
  unfolding collect_from_node_refs
  collect_from_node_refs-visit_all args s = fields_lem args 0 s
