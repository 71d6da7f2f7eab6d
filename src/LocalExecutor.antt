-- ===== src/LocalExecutor.antt =====
-- apps/orbit-openeo/src/executor.rs: `LocalExecutor`, which evaluates a process graph node by node,
-- and `EchoExecutor`. Parameters: the arithmetic of f64, the catalog, what serde_json makes of a
-- value, and the hash. A map of JSON keeps its keys in the order in which they were inserted.
pub mod Floats
pub mod Memo
pub mod Schedule
pub mod Totality
pub mod Requests
pub mod Jobs
pub mod Tests
use Prim.Native.String.{◌++◌ as ◌<>◌}
use open_eo_ru_stac.Prelude.{
  ◌>>=◌, ◌>>◌, ℕ, zero, suc, Bool, true, false, String, Option, none, some, List, [], ◌∷◌, str_eq,
  if◌then◌else◌, Result, ok, err, ok_or, length, decimal,
}
use open_eo_ru_stac.Json.{
  Value, null, bool, number, string, array, object, Items, Fields, closed, field, get_field, get,
}
use open_eo_ru_stac.JobRunner.{ExecError, invalid_graph, unknown_process, backend_fault, SyncResult}
use open_eo_ru_stac.ProcessGraph.{
  Node, Process, DiGraph, GraphError, cycle, unknown_node_reference, ambiguous_result,
  depth_exceeded, ProcessGraphAnalysis, build, evaluation_order,
}
use Floats.{FloatOps, Collection, CatalogError, not_found, backend, Environment}

-- The text of each error that `build` may give.
unfoldable pub graph_error_text : GraphError → String
graph_error_text (cycle id) = "process graph contains a cycle through node `" <> id <> "`"
graph_error_text (unknown_node_reference id) =
    "unknown node `" <> id <> "` referenced as `from_node`"
graph_error_text (ambiguous_result n) =
    "expected exactly one result-marked node (got " <> decimal n <> ")"
graph_error_text (depth_exceeded n) =
    "process graph argument nesting exceeded depth limit (" <> decimal n <> ")"

-- The results of the nodes evaluated so far.
abbrev pub Memo : Type 0
Memo = List (String × Value)

unfoldable pub recall : String → Memo → Option Value
recall id [] = none
recall id ((j, v) ∷ memo) = if str_eq j id then some v else recall id memo

unfoldable pub lookup_node : String → List Node → Option Process
lookup_node id [] = none
lookup_node id ((j, node) ∷ nodes) = if str_eq j id then some node else lookup_node id nodes

-- The target of `{"from_node": target}`, an object with that one key.
abbrev pub only_link : Value → Option String
only_link (object (field k (string target) closed)) =
    if str_eq k "from_node" then some target else none
only_link _ = none

abbrev pub resolved : Value → Memo → Option String → Result Value ExecError
resolved v memo none = ok v
resolved v memo (some target) =
    ok_or (invalid_graph ("upstream node `" <> target <> "` not yet evaluated"))
      (recall target memo)

unfoldable pub resolve_value : Value → Memo → Result Value ExecError
unfolding recall
resolve_value v memo = resolved v memo (only_link v)

unfoldable pub resolve_args : Fields → Memo → Result Fields ExecError
unfolding resolve_value
resolve_args closed memo = ok closed
resolve_args (field k v fs) memo = do
  r ← resolve_value v memo
  rest ← resolve_args fs memo
  ok (field k r rest)

abbrev pub or_null : Option Value → Value
or_null none = null
or_null (some v) = v

abbrev pub as_str : Value → Option String
as_str (string s) = some s
as_str _ = none

module _ {F : Type 0} (env : Environment F) where
  open env.floats use {as_f64, value_of, add, subtract, multiply, divide, is_zero}

  abbrev pub as_number : Option Value → Option F
  as_number (some (number n)) = some (as_f64 n)
  as_number _ = none

  abbrev pub numeric : Option Value → Result F ExecError
  numeric v = ok_or (invalid_graph "expected numeric argument") (as_number v)

  -- The sentinel for a collection that the catalog has.
  abbrev pub described : String → Fields
  described description =
      if str_eq description "" then closed else field "description" (string description) closed

  abbrev pub sentinel : Value → Collection → Value
  sentinel id c = object (
      field "type" (string "DataCube") (
        field "collection" id
          (field "stac_version" (string c.stac_version) (described c.description))))

  abbrev pub from_catalog : Value → Result Collection CatalogError → Result Value ExecError
  from_catalog id (ok c) = ok (sentinel id c)
  from_catalog id (err (not_found name)) = err (backend_fault ("CollectionNotFound: " <> name))
  from_catalog id (err (backend text)) =
      err (backend_fault ("catalog: catalog backend error: " <> text))

  abbrev pub load_collection :
      Option (String → Result Collection CatalogError) → Value → Result Value ExecError
  load_collection none id =
      ok (object (field "type" (string "DataCube") (field "collection" id closed)))
  load_collection (some catalog) id = do
    name ← ok_or (invalid_graph "load_collection: `id` argument must be a string") (as_str id)
    from_catalog id (catalog name)

  abbrev pub arithmetic : (F → F → Result F ExecError) → Fields → Result Value ExecError
  arithmetic op args = do
    x ← numeric (get_field "x" args)
    y ← numeric (get_field "y" args)
    r ← op x y
    ok (value_of r)

  abbrev pub divided : F → F → Result F ExecError
  divided x y =
      if is_zero y then err (invalid_graph "divide: y must be non-zero") else ok (divide x y)

  -- The `match` on the process id.
  unfoldable pub dispatch : String → Fields → Result Value ExecError
  unfolding get_field
  dispatch id args =
      if str_eq id "load_collection"
      then load_collection env.catalog (or_null (get_field "id" args))
      else if str_eq id "save_result"
      then ok (or_null (get_field "data" args))
      else if str_eq id "add"
      then arithmetic (λ x y. ok (add x y)) args
      else if str_eq id "subtract"
      then arithmetic (λ x y. ok (subtract x y)) args
      else if str_eq id "multiply"
      then arithmetic (λ x y. ok (multiply x y)) args
      else if str_eq id "divide"
      then arithmetic divided args
      else err (unknown_process id)

  unfoldable pub eval_node : Process → Memo → Result Value ExecError
  unfolding resolve_args dispatch
  eval_node node memo = do args ← resolve_args node.arguments memo; dispatch node.process_id args

  -- The loop over the order of evaluation.
  unfoldable pub eval_loop : List Node → List String → Memo → Result Memo ExecError
  unfolding eval_node lookup_node
  eval_loop nodes [] memo = ok memo
  eval_loop nodes (id ∷ order) memo = do
    node ← ok_or (invalid_graph ("unknown node `" <> id <> "`")) (lookup_node id nodes)
    out ← eval_node node memo
    eval_loop nodes order ((id, out) ∷ memo)

  abbrev pub built : Result ProcessGraphAnalysis GraphError → Result ProcessGraphAnalysis ExecError
  built (ok a) = ok a
  built (err e) = err (invalid_graph (graph_error_text e))

  module _ (is_cyclic_directed : DiGraph → Bool) (toposort : DiGraph → Option (List ℕ)) where
    abbrev pub finished : List Node → ProcessGraphAnalysis → List String → Result Value ExecError
    finished nodes a order = do
      memo ← eval_loop nodes order []
      ok_or (invalid_graph "result node was not visited during topo walk") (recall a.result_id memo)

    abbrev pub scheduled :
        List Node → ProcessGraphAnalysis → Option (List String) → Option (Result Value ExecError)
    scheduled nodes a none = none
    scheduled nodes a (some order) = some (finished nodes a order)

    abbrev pub analysed :
        List Node → Result ProcessGraphAnalysis ExecError → Option (Result Value ExecError)
    analysed nodes (err e) = some (err e)
    analysed nodes (ok a) = scheduled nodes a (evaluation_order toposort a)

    -- `none` where the order of evaluation panics.
    unfoldable pub evaluate : List Node → Option (Result Value ExecError)
    unfolding recall eval_loop build evaluation_order graph_error_text
    evaluate nodes = analysed nodes (built (build is_cyclic_directed nodes))
