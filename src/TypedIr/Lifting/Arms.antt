-- ===== src/TypedIr/Lifting/Arms.antt =====
-- How the parsing of one node ends.
use open_eo_ru_stac.Prelude.{
  ◌≡◌, refl, sym, ap, ◌∙◌, Bool-cases, inl, inr, String, Option, none, some, List, [], ◌∷◌, str_eq,
  str_eq_iff, if◌then◌else◌, Result, ok, err,
}
use open_eo_ru_stac.Json.{Value, Fields, get, get_field}
use open_eo_ru_stac.ProcessGraph.{Node, Process}
use open_eo_ru_stac.TypedIr.{
  missing_argument, bad_argument, Lifted, ◌>>=◌, require, ProcessNode, load_collection, band_names,
  Arm, load_collection_arm, filter_bbox_arm, filter_temporal_arm, filter_spatial_arm, ndvi_arm,
  mask_arm, reduce_dimension_arm, apply_arm, resample_spatial_arm, merge_cubes_arm, save_result_arm,
  add_arm, subtract_arm, multiply_arm, divide_arm, arms, arm_of, process_id, as_u64, req_arg,
  or_itself, IrOps, Lift, read_nodes, subgraph, parse_arm, parse_by, parse,
}
use open_eo_ru_stac.TypedIr.Lifting.Settling.{
  Ends, gives, fails, Settles, bind-Ends, require-Settles, transposed-Settles,
  temporal_extent-Settles, arg-Settles, data_arg-Settles, or_arg-Settles, req_arg-Settles,
  str_arg-Settles, bbox-Settles,
}

name : Arm → String
name load_collection_arm = "load_collection"
name filter_bbox_arm = "filter_bbox"
name filter_temporal_arm = "filter_temporal"
name filter_spatial_arm = "filter_spatial"
name ndvi_arm = "ndvi"
name mask_arm = "mask"
name reduce_dimension_arm = "reduce_dimension"
name apply_arm = "apply"
name resample_spatial_arm = "resample_spatial"
name merge_cubes_arm = "merge_cubes"
name save_result_arm = "save_result"
name add_arm = "add"
name subtract_arm = "subtract"
name multiply_arm = "multiply"
name divide_arm = "divide"

data Named : List (String × Arm) → Type 0 where
  none_left : Named []
  one_more : (a : Arm) (rest : List (String × Arm)) → Named rest → Named ((name a, a) ∷ rest)

arms-Named : Named arms
unfolding name
arms-Named = one_more load_collection_arm _ (
    one_more filter_bbox_arm _ (
      one_more filter_temporal_arm _ (
        one_more filter_spatial_arm _ (
          one_more ndvi_arm _ (
            one_more mask_arm _ (
              one_more reduce_dimension_arm _ (
                one_more apply_arm _ (
                  one_more resample_spatial_arm _ (
                    one_more merge_cubes_arm _ (
                      one_more save_result_arm _ (
                        one_more add_arm _ (
                          one_more subtract_arm _
                            (one_more multiply_arm _ (one_more divide_arm _ none_left))))))))))))))

arm_of-name :
    (pid : String) (table : List (String × Arm)) (a : Arm)
    → Named table
    → arm_of pid table ≡ some a
    → name a ≡ pid
unfolding arm_of
arm_of-name pid table a none_left h = cc
arm_of-name pid table a (one_more b rest named) h = elim (Bool-cases (str_eq (name b) pid)) [
  | inl same ↦
      let e : some b ≡ some a = ap (λ t. if t then some b else arm_of pid rest) (sym same) ∙ h in
      let arms_same : b ≡ a = cc in ap name (sym arms_same) ∙ (str_eq_iff (name b) pid).0 same
  | inr other ↦
      arm_of-name pid rest a named (ap (λ t. if t then some b else arm_of pid rest) (sym other) ∙ h)
]

module _ {F : Type 0} (ops : IrOps F) where
  module _ (lift : Lift ops) where
    -- The callbacks among the arguments are lifted, or refused.
    abbrev pub Callbacks : Fields → Type 0
    Callbacks args =
        (key : String) (v : Value) (inner : List Node)
        → get_field key args ≡ some v
        → ops.from_value (or_itself v (get "process_graph" v)) ≡ ok inner
        → Settles (lift inner)

    read_nodes-Settles :
        (pid key : String) (r : Result (List Node) String)
        → ((inner : List Node) → r ≡ ok inner → Settles (lift inner))
        → Settles (read_nodes ops lift pid key r)
    read_nodes-Settles pid key (ok nodes) callbacks = callbacks nodes refl
    read_nodes-Settles pid key (err e) callbacks = fails _

    subgraph-Settles :
        (pid : String) (args : Fields) (key : String)
        → Callbacks args
        → Settles (subgraph ops lift pid args key)
    unfolding subgraph req_arg
    subgraph-Settles pid args key callbacks = found (get_field key args) refl
      where
        found :
            (o : Option Value)
            → get_field key args ≡ o
            → Settles (do
              v ← require (missing_argument pid key) o
              read_nodes ops lift pid key (ops.from_value (or_itself v (get "process_graph" v))))
        found none eq = fails _
        found (some v) eq =
            read_nodes-Settles pid key _ (λ inner reads. callbacks key v inner eq reads)

    parse_arm-Ends :
        (pid : String) (args : Fields) (a : Arm)
        → Callbacks args
        → Ends (λ n. process_id n ≡ name a) (parse_arm ops lift pid args a)
    unfolding parse_arm process_id name
    parse_arm-Ends pid args load_collection_arm callbacks =
        bind-Ends _ _ (str_arg-Settles pid args "id") (λ id.
          bind-Ends _ _ (transposed-Settles _ (get_field "spatial_extent" args) (bbox-Settles ops))
            (λ spatial.
              bind-Ends _ _
                (transposed-Settles _ (get_field "temporal_extent" args) temporal_extent-Settles)
                (λ temporal.
                  gives (load_collection id spatial temporal (band_names (get_field "bands" args)))
                    refl)))
    parse_arm-Ends pid args filter_bbox_arm callbacks = bind-Ends _ _ (data_arg-Settles args) (λ d.
        bind-Ends _ _ (req_arg-Settles pid args "extent")
          (λ v. bind-Ends _ _ (bbox-Settles ops v) (λ extent. gives _ refl)))
    parse_arm-Ends pid args filter_temporal_arm callbacks =
        bind-Ends _ _ (data_arg-Settles args) (λ d.
          bind-Ends _ _ (req_arg-Settles pid args "extent")
            (λ v. bind-Ends _ _ (temporal_extent-Settles v) (λ extent. gives _ refl)))
    parse_arm-Ends pid args filter_spatial_arm callbacks =
        bind-Ends _ _ (data_arg-Settles args)
          (λ d. bind-Ends _ _ (req_arg-Settles pid args "geometries") (λ v. gives _ refl))
    parse_arm-Ends pid args ndvi_arm callbacks =
        bind-Ends _ _ (data_arg-Settles args) (λ d. gives _ refl)
    parse_arm-Ends pid args mask_arm callbacks =
        bind-Ends _ _ (data_arg-Settles args)
          (λ d. bind-Ends _ _ (arg-Settles args "mask") (λ m. gives _ refl))
    parse_arm-Ends pid args reduce_dimension_arm callbacks =
        bind-Ends _ _ (data_arg-Settles args) (λ d.
          bind-Ends _ _ (subgraph-Settles pid args "reducer" callbacks) (λ reducer.
            bind-Ends _ _ (str_arg-Settles pid args "dimension") (λ dimension. gives _ refl)))
    parse_arm-Ends pid args apply_arm callbacks =
        bind-Ends _ _ (data_arg-Settles args)
          (λ d. bind-Ends _ _ (subgraph-Settles pid args "process" callbacks) (λ p. gives _ refl))
    parse_arm-Ends pid args resample_spatial_arm callbacks =
        bind-Ends _ _ (data_arg-Settles args) (λ d.
          bind-Ends _ _ (req_arg-Settles pid args "projection") (λ v.
            bind-Ends _ _
              (require-Settles (bad_argument pid "projection" "expected u64 (EPSG)") (as_u64 v))
              (λ projection. gives _ refl)))
    parse_arm-Ends pid args merge_cubes_arm callbacks =
        bind-Ends _ _ (or_arg-Settles args "cube1" "data1")
          (λ a. bind-Ends _ _ (or_arg-Settles args "cube2" "data2") (λ b. gives _ refl))
    parse_arm-Ends pid args save_result_arm callbacks =
        bind-Ends _ _ (data_arg-Settles args) (λ d. gives _ refl)
    parse_arm-Ends pid args add_arm callbacks =
        bind-Ends _ _ (arg-Settles args "x")
          (λ x. bind-Ends _ _ (arg-Settles args "y") (λ y. gives _ refl))
    parse_arm-Ends pid args subtract_arm callbacks =
        bind-Ends _ _ (arg-Settles args "x")
          (λ x. bind-Ends _ _ (arg-Settles args "y") (λ y. gives _ refl))
    parse_arm-Ends pid args multiply_arm callbacks =
        bind-Ends _ _ (arg-Settles args "x")
          (λ x. bind-Ends _ _ (arg-Settles args "y") (λ y. gives _ refl))
    parse_arm-Ends pid args divide_arm callbacks =
        bind-Ends _ _ (arg-Settles args "x")
          (λ x. bind-Ends _ _ (arg-Settles args "y") (λ y. gives _ refl))

    labelled :
        (a : Arm) (pid : String) (r : Lifted (ProcessNode F))
        → name a ≡ pid
        → Ends (λ n. process_id n ≡ name a) r
        → Ends (λ n. process_id n ≡ pid) r
    labelled a pid r same (gives n label) = gives n (label ∙ same)
    labelled a pid r same (fails e) = fails e

    pub parse-Ends :
        (p : Process)
        → Callbacks p.arguments
        → Ends (λ n. process_id n ≡ p.process_id) (parse ops lift p)
    unfolding parse
    parse-Ends p callbacks = by_arm (arm_of p.process_id arms) refl
      where
        by_arm :
            (o : Option Arm)
            → arm_of p.process_id arms ≡ o
            → Ends (λ n. process_id n ≡ p.process_id) (parse_by ops lift p o)
        by_arm none eq = fails _
        by_arm (some a) eq =
            labelled a p.process_id _ (arm_of-name p.process_id arms a arms-Named eq)
              (parse_arm-Ends p.process_id p.arguments a callbacks)
