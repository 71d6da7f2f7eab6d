-- ===== src/TypedIr.antt =====
-- apps/orbit-openeo/src/process_graph_ir.rs: the typed process graph. What f64 and serde_json make
-- of a value are parameters. A `BTreeMap` is a list in the order of its keys. The recursion into
-- callbacks takes fuel, one round for each level at which the arguments nest.
pub mod Depth
pub mod Lifting
pub mod Tests
use Prim.Native.String.{◌++◌ as ◌<>◌}
use open_eo_ru_stac.Prelude.{
  ℕ, zero, suc, ◌^◌, ◌%◌, Bool, true, false, String, Option, none, some, List, [], ◌∷◌, max, str_eq,
  if◌then◌else◌, Result, ok, err, ◌==◌, decimal,
}
use open_eo_ru_stac.Json.{
  Value, null, bool, number, string, array, object, Number, pos_int, Items, empty, item, Fields,
  closed, field, get, get_field,
}
use open_eo_ru_stac.ProcessGraph.{Node, Process}
use open_eo_ru_stac.GeoExecutor.SubGraph.{as_object, as_text, flag}

pub data IrError : Type 0 where
  unsupported_process : String → IrError
  missing_argument : String → String → IrError
  bad_argument : String → String → String → IrError
  unresolved_from_node : String → IrError

-- A result, an error, or the end of the fuel.
pub data Lifted (A : Type 0) : Type 0 where
  value : A → Lifted A
  failed : IrError → Lifted A
  exhausted : Lifted A

infixl 5 ◌>>=◌
abbrev pub ◌>>=◌ : {A B : Type 0} → Lifted A → (A → Lifted B) → Lifted B
value a >>= f = f a
failed e >>= f = failed e
exhausted >>= f = exhausted

abbrev pub require : {A : Type 0} → IrError → Option A → Lifted A
require e none = failed e
require e (some a) = value a

-- `map(..).transpose()?`.
abbrev pub transposed : {A : Type 0} → (Value → Lifted A) → Option Value → Lifted (Option A)
transposed f none = value none
transposed f (some v) = do a ← f v; value (some a)

pub record BBox (F : Type 0) : Type 0 where
  pub west : F
  pub south : F
  pub east : F
  pub north : F

pub record TemporalExtent : Type 0 where
  pub start : String
  pub end : String

-- The node that an argument links to, or its literal value.
pub data ArgValue : Type 0 where
  ref : String → ArgValue
  literal : Value → ArgValue

mutual
  pub data ProcessNode (F : Type 0) : Type 0 where
    load_collection :
        String → Option (BBox F) → Option TemporalExtent → Option (List String) → ProcessNode F
    filter_bbox : ArgValue → BBox F → ProcessNode F
    filter_temporal : ArgValue → TemporalExtent → ProcessNode F
    filter_spatial : ArgValue → Value → ProcessNode F
    ndvi : ArgValue → ProcessNode F
    mask : ArgValue → ArgValue → Option ArgValue → ProcessNode F
    reduce_dimension : ArgValue → ProcessGraphIr F → String → ProcessNode F
    apply : ArgValue → ProcessGraphIr F → ProcessNode F
    resample_spatial : ArgValue → ℕ → Option F → ProcessNode F
    merge_cubes : ArgValue → ArgValue → ProcessNode F
    save_result : ArgValue → String → ProcessNode F
    add subtract multiply divide : ArgValue → ArgValue → ProcessNode F

  -- The nodes with their ids, and the id of the first that is marked as the result.
  pub data ProcessGraphIr (F : Type 0) : Type 0 where
    ir : IrNodes F → Option String → ProcessGraphIr F

  pub data IrNodes (F : Type 0) : Type 0 where
    no_nodes : IrNodes F
    node : String → ProcessNode F → IrNodes F → IrNodes F

-- The arms of the `match` on the process id.
pub data Arm : Type 0 where
  load_collection_arm filter_bbox_arm filter_temporal_arm filter_spatial_arm ndvi_arm mask_arm
        reduce_dimension_arm apply_arm resample_spatial_arm merge_cubes_arm save_result_arm add_arm
        subtract_arm multiply_arm divide_arm :
      Arm

abbrev pub arms : List (String × Arm)
arms =
    ("load_collection", load_collection_arm)
    ∷ ("filter_bbox", filter_bbox_arm)
    ∷ ("filter_temporal", filter_temporal_arm)
    ∷ ("filter_spatial", filter_spatial_arm)
    ∷ ("ndvi", ndvi_arm)
    ∷ ("mask", mask_arm)
    ∷ ("reduce_dimension", reduce_dimension_arm)
    ∷ ("apply", apply_arm)
    ∷ ("resample_spatial", resample_spatial_arm)
    ∷ ("merge_cubes", merge_cubes_arm)
    ∷ ("save_result", save_result_arm)
    ∷ ("add", add_arm)
    ∷ ("subtract", subtract_arm)
    ∷ ("multiply", multiply_arm)
    ∷ ("divide", divide_arm)
    ∷ []

unfoldable pub arm_of : String → List (String × Arm) → Option Arm
arm_of pid [] = none
arm_of pid ((name, a) ∷ rest) = if str_eq name pid then some a else arm_of pid rest

module _ {F : Type 0} where
  unfoldable pub process_id : ProcessNode F → String
  process_id (load_collection i s t b) = "load_collection"
  process_id (filter_bbox d e) = "filter_bbox"
  process_id (filter_temporal d e) = "filter_temporal"
  process_id (filter_spatial d g) = "filter_spatial"
  process_id (ndvi d) = "ndvi"
  process_id (mask d m r) = "mask"
  process_id (reduce_dimension d r n) = "reduce_dimension"
  process_id (apply d p) = "apply"
  process_id (resample_spatial d p r) = "resample_spatial"
  process_id (merge_cubes a b) = "merge_cubes"
  process_id (save_result d f) = "save_result"
  process_id (add x y) = "add"
  process_id (subtract x y) = "subtract"
  process_id (multiply x y) = "multiply"
  process_id (divide x y) = "divide"

  unfoldable pub has_subgraph : ProcessNode F → Bool
  has_subgraph (reduce_dimension d r n) = true
  has_subgraph (apply d p) = true
  has_subgraph _ = false

-- `ArgValue::parse`.
abbrev pub arg_or_literal : Value → Option String → ArgValue
arg_or_literal v (some target) = ref target
arg_or_literal v none = literal v

unfoldable pub arg_value : Value → ArgValue
unfolding get
arg_value v = arg_or_literal v (as_text (get "from_node" v))

abbrev pub mapped_arg : Option Value → Option ArgValue
mapped_arg none = none
mapped_arg (some v) = some (arg_value v)

abbrev pub texts : Items → List String
texts empty = []
texts (item (string s) vs) = s ∷ texts vs
texts (item _ vs) = texts vs

abbrev pub band_names : Option Value → Option (List String)
band_names (some (array vs)) = some (texts vs)
band_names _ = none

abbrev pub items_count : Items → ℕ
items_count empty = 0
items_count (item v vs) = suc (items_count vs)

abbrev pub text_or : String → Option String → String
text_or d none = d
text_or d (some s) = s

unfoldable pub temporal_extent : Value → Lifted TemporalExtent
temporal_extent (array (item s (item e empty))) =
    value
      (record { start = text_or ".." (as_text (some s)); end = text_or ".." (as_text (some e)) })
temporal_extent (array vs) = failed (
    bad_argument "temporal_extent" "value" ("expected 2 entries, got " <> decimal (items_count vs)))
temporal_extent _ = failed (bad_argument "temporal_extent" "value" "expected 2-array")

unfoldable pub arg : Fields → String → Lifted ArgValue
unfolding get_field arg_value
arg args key = require (missing_argument "<unknown>" key) (mapped_arg (get_field key args))

unfoldable pub data_arg : Fields → Lifted ArgValue
unfolding arg
data_arg args = arg args "data"

-- `arg(..).or_else(..)`.
abbrev pub or_arg : Lifted ArgValue → Lifted ArgValue → Lifted ArgValue
or_arg (failed e) other = other
or_arg r other = r

unfoldable pub req_arg : String → Fields → String → Lifted Value
unfolding get_field
req_arg process args key = require (missing_argument process key) (get_field key args)

unfoldable pub str_arg : String → Fields → String → Lifted String
unfolding req_arg
str_arg process args key = do
  v ← req_arg process args key
  require (bad_argument process key "expected string") (as_text (some v))

abbrev pub as_u64 : Value → Option ℕ
as_u64 (number (pos_int n)) = some n
as_u64 _ = none

abbrev pub or_itself : Value → Option Value → Value
or_itself v none = v
or_itself v (some pg) = pg

-- serde_json's reading of a number and of the nodes of a graph.
pub record IrOps (F : Type 0) : Type 0 where
  pub as_f64 : Number → F
  pub from_value : Value → Result (List Node) String

module _ {F : Type 0} (ops : IrOps F) where
  abbrev pub number_of : Option Value → Option F
  number_of (some (number n)) = some (ops.as_f64 n)
  number_of _ = none

  unfoldable pub num_field : Value → String → Lifted F
  unfolding get
  num_field v k = require (bad_argument "bbox" k "expected number") (number_of (get k v))

  unfoldable pub bbox : Value → Lifted (BBox F)
  unfolding num_field
  bbox v = do
    west ← num_field v "west"
    south ← num_field v "south"
    east ← num_field v "east"
    north ← num_field v "north"
    value (record { west = west; south = south; east = east; north = north })

  -- What lifts the nodes of a callback.
  abbrev pub Lift : Type 0
  Lift = List Node → Lifted (ProcessGraphIr F)

  abbrev pub read_nodes :
      Lift → String → String → Result (List Node) String → Lifted (ProcessGraphIr F)
  read_nodes lift process key (ok nodes) = lift nodes
  read_nodes lift process key (err e) =
      failed (bad_argument process key ("not a valid process_graph: " <> e))

  unfoldable pub subgraph : Lift → String → Fields → String → Lifted (ProcessGraphIr F)
  unfolding req_arg get
  subgraph lift process args key = do
    v ← req_arg process args key
    read_nodes lift process key (ops.from_value (or_itself v (get "process_graph" v)))

  -- One arm.
  unfoldable pub parse_arm : Lift → String → Fields → Arm → Lifted (ProcessNode F)
  unfolding bbox temporal_extent str_arg req_arg data_arg arg subgraph get_field
  parse_arm lift pid args load_collection_arm = do
    id ← str_arg pid args "id"
    spatial ← transposed bbox (get_field "spatial_extent" args)
    temporal ← transposed temporal_extent (get_field "temporal_extent" args)
    value (load_collection id spatial temporal (band_names (get_field "bands" args)))
  parse_arm lift pid args filter_bbox_arm = do
    d ← data_arg args
    v ← req_arg pid args "extent"
    extent ← bbox v
    value (filter_bbox d extent)
  parse_arm lift pid args filter_temporal_arm = do
    d ← data_arg args
    v ← req_arg pid args "extent"
    extent ← temporal_extent v
    value (filter_temporal d extent)
  parse_arm lift pid args filter_spatial_arm = do
    d ← data_arg args
    geometries ← req_arg pid args "geometries"
    value (filter_spatial d geometries)
  parse_arm lift pid args ndvi_arm = do d ← data_arg args; value (ndvi d)
  parse_arm lift pid args mask_arm = do
    d ← data_arg args
    m ← arg args "mask"
    value (mask d m (mapped_arg (get_field "replacement" args)))
  parse_arm lift pid args reduce_dimension_arm = do
    d ← data_arg args
    reducer ← subgraph lift pid args "reducer"
    dimension ← str_arg pid args "dimension"
    value (reduce_dimension d reducer dimension)
  parse_arm lift pid args apply_arm = do
    d ← data_arg args
    process ← subgraph lift pid args "process"
    value (apply d process)
  parse_arm lift pid args resample_spatial_arm = do
    d ← data_arg args
    v ← req_arg pid args "projection"
    projection ← require (bad_argument pid "projection" "expected u64 (EPSG)") (as_u64 v)
    value (resample_spatial d (projection % 2 ^ 32) (number_of (get_field "resolution" args)))
  parse_arm lift pid args merge_cubes_arm = do
    a ← or_arg (arg args "cube1") (arg args "data1")
    b ← or_arg (arg args "cube2") (arg args "data2")
    value (merge_cubes a b)
  parse_arm lift pid args save_result_arm = do
    d ← data_arg args
    value (save_result d (text_or "GTiff" (as_text (get_field "format" args))))
  parse_arm lift pid args add_arm = do x ← arg args "x"; y ← arg args "y"; value (add x y)
  parse_arm lift pid args subtract_arm = do x ← arg args "x"; y ← arg args "y"; value (subtract x y)
  parse_arm lift pid args multiply_arm = do x ← arg args "x"; y ← arg args "y"; value (multiply x y)
  parse_arm lift pid args divide_arm = do x ← arg args "x"; y ← arg args "y"; value (divide x y)

  abbrev pub parse_by : Lift → Process → Option Arm → Lifted (ProcessNode F)
  parse_by lift p none = failed (unsupported_process p.process_id)
  parse_by lift p (some a) = parse_arm lift p.process_id p.arguments a

  unfoldable pub parse : Lift → Process → Lifted (ProcessNode F)
  unfolding arm_of parse_arm
  parse lift p = parse_by lift p (arm_of p.process_id arms)

  -- `result_id` after a node.
  abbrev pub marked : String → Option Bool → Option String → Option String
  marked id (some true) none = some id
  marked id flagged seen = seen

  abbrev pub with_node : String → ProcessNode F → ProcessGraphIr F → ProcessGraphIr F
  with_node id n (ir ns result) = ir (node id n ns) result

  -- The loop of `from_nodes`.
  unfoldable pub lift_nodes : Lift → List Node → Option String → Lifted (ProcessGraphIr F)
  unfolding parse
  lift_nodes lift [] result = value (ir no_nodes result)
  lift_nodes lift ((id, p) ∷ nodes) result = do
    n ← parse lift p
    rest ← lift_nodes lift nodes (marked id p.result result)
    value (with_node id n rest)

  unfoldable pub from_nodes : ℕ → List Node → Lifted (ProcessGraphIr F)
  unfolding lift_nodes
  from_nodes zero nodes = exhausted
  from_nodes (suc fuel) nodes = lift_nodes (from_nodes fuel) nodes none
